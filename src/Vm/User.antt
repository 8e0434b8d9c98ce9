-- ===== src/Vm/User.antt =====
-- uva2ka: the kernel's address of a page of the user.
use cs537_sp2021_dis.Base.{
  ℕ, ◌+◌, ◌-◌, ◌*◌, ◌%◌, ◌^◌, ◌≤◌, ◌<◌, ◌≡◌, refl, sym, ap, ◌∙◌, subst, true, false, not, ◌==◌,
  if◌then◌else◌, Bool-cases, inl, inr, arith, List,
}
use cs537_sp2021_dis.Bytes.{bit}
use cs537_sp2021_dis.Kalloc.{pgsize, Kmem}
use cs537_sp2021_dis.Kalloc.FreeList.{page_nonzero}
use cs537_sp2021_dis.Vm.{
  pdx, ptx, pte_addr, p2v, present, pgrounddown, walkpgdir, mapped, mappages, Translated, address,
  uva2ka,
}
use cs537_sp2021_dis.Vm.Tables.{table_at, entry_at, IsPgdir, entry_at-present, entry_at-absent}
use cs537_sp2021_dis.Vm.Maps.{entry, pte_of, Maps}
use cs537_sp2021_dis.Vm.Walk.{walk-present}
use cs537_sp2021_dis.Vm.Loop.{pages_of, mappages-Maps}
use cs537_sp2021_dis.Vm.Flags.{pte_addr-pte_of, pte_of-bit, pte_of-present}

-- What `uva2ka` makes of an entry.
abbrev user_address : ℕ → Translated
user_address pte =
    if not (present pte)
    then address 0
    else if not (bit 2 pte)
    then address 0
    else address (p2v (pte_addr pte))

uva2ka_at :
    (k : Kmem) (d va pte : ℕ)
    → (walkpgdir k d va false).1 ≡ pte
    → (pte == 0) ≡ false
    → uva2ka k d va ≡ user_address (k.mem pte)
unfolding uva2ka
uva2ka_at k d va pte e z = rw (e, z) refl

-- A user's entry that is present.
user_address-page :
    (pte pa : ℕ)
    → present pte ≡ true
    → bit 2 pte ≡ true
    → pte_addr pte ≡ pa
    → user_address pte ≡ address (p2v pa)
user_address-page pte pa h1 h2 e = rw (h1, h2) (ap (λ x. address (p2v x)) e)

-- An entry that is not 0 stands in a table.
entry-table :
    (mem : ℕ → ℕ) (d i j : ℕ)
    → present (entry_at mem d i j) ≡ true
    → present (mem (d + i * 4)) ≡ true
entry-table mem d i j h = elim (Bool-cases (present (mem (d + i * 4)))) [
  | inl there ↦ there
  | inr absent ↦ absurd (ground (arith, h, entry_at-absent mem d i j absent))
]

module _ (kernel_end : ℕ) (k : Kmem) (d va : ℕ) (pages : List ℕ)
    (h : IsPgdir kernel_end k.mem k.freelist d pages) where
  uva2ka-entry : present (entry k d va) ≡ true → uva2ka k d va ≡ user_address (entry k d va)
  uva2ka-entry p =
      let there = entry-table k.mem d (pdx va) (ptx va) p in
      let t = h.table (pdx va) (omega arith) there in
      uva2ka_at k d va (table_at k.mem d (pdx va) + ptx va * 4)
        (ap (λ r. r.1) (walk-present k d va false there))
        (ground (arith, page_nonzero kernel_end t.page))
      ∙ ap user_address (sym (entry_at-present k.mem d (pdx va) (ptx va) there))

-- Of a directory as `mappages` needs it: where `mappages` has mapped a range to pages from `pa`, with the
-- user's bit in `perm`, `uva2ka` gives for every address of the range the kernel's address of the page
-- at the same distance from `pa`.
pub mappages-uva2ka :
    (kernel_end : ℕ) (k k' : Kmem) (d va size pa perm : ℕ) (pages : List ℕ) (u : ℕ)
    → IsPgdir kernel_end k.mem k.freelist d pages
    → 0 < size
    → va + size ≤ 2 ^ 32
    → pa + pages_of va size * pgsize ≤ 2 ^ 32
    → pa % pgsize ≡ 0
    → perm < pgsize
    → bit 2 perm ≡ true
    → mappages k d va size pa perm ≡ mapped k'
    → pgrounddown va ≤ u
    → u < va + size
    → uva2ka k' d u ≡ address (p2v (pa + (pgrounddown u - pgrounddown va)))
mappages-uva2ka kernel_end k k' d va size pa perm pages u h some_bytes fits memory al lp user e from
      below =
    let (pages', all) =
      subst (Maps kernel_end d perm k (pgrounddown va) (pages_of va size) pa) e
        (mappages-Maps kernel_end k d va size pa perm pages h some_bytes fits memory) in
    let page = pa + (pgrounddown u - pgrounddown va) in
    let t = all.inside u (omega (arith, below, fits)) (from, omega (arith, below)) in
    let there = pte_of-present page perm in
    uva2ka-entry kernel_end k' d u pages' all.pgdir (ap present t ∙ there)
    ∙ ap user_address t
    ∙ user_address-page (pte_of page perm) page there (pte_of-bit 2 page perm (omega arith) user) (
        pte_addr-pte_of page perm (omega (arith, al, from)) (omega (arith, memory, below, from)) lp)
