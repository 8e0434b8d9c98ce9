-- ===== src/Vm/Loop.antt =====
-- The loop of mappages.
use cs537_sp2021_dis.Base.{
  ℕ, zero, suc, ◌+◌, ◌-◌, ◌*◌, ◌/◌, ◌%◌, ◌^◌, ◌≤◌, ◌<◌, ◌≡◌, refl, sym, ap, ◌∙◌, subst, inl, inr,
  true, false, ◌==◌, Bool-cases, List, [], arith, update,
}
use cs537_sp2021_dis.Kalloc.{pgsize, Kmem}
use cs537_sp2021_dis.Vm.{
  pdx, ptx, present, pgrounddown, walkpgdir, mapped, failed, remap, map_pages, mappages,
}
use cs537_sp2021_dis.Vm.Tables.{IsPgdir}
use cs537_sp2021_dis.Vm.Walk.{Found, walkpgdir-Walks}
use cs537_sp2021_dis.Vm.Maps.{pte_of, MapsSome, Maps, Maps-then}
use cs537_sp2021_dis.Vm.Store.{stored, stored-MapsAll, old_entry, pte_nonzero}

-- The rounds, by what `walkpgdir` gives.
module _ (fuel : ℕ) (k : Kmem) (d a end pa perm : ℕ) (r : Kmem × ℕ)
    (e : walkpgdir k d a true ≡ r) where
  abbrev next_state : Kmem
  next_state = record r.0 { mem = update r.0.mem r.1 (pte_of pa perm) }

  round-failed : (r.1 == 0) ≡ true → map_pages (suc fuel) k d a end pa perm ≡ failed r.0
  unfolding map_pages
  round-failed z = rw (e, z) refl

  round-remap :
      (r.1 == 0) ≡ false
      → present (r.0.mem r.1) ≡ true
      → map_pages (suc fuel) k d a end pa perm ≡ remap
  unfolding map_pages
  round-remap z p = rw (e, z, p) refl

  round-last :
      (r.1 == 0) ≡ false
      → present (r.0.mem r.1) ≡ false
      → (a == end) ≡ true
      → map_pages (suc fuel) k d a end pa perm ≡ mapped next_state
  unfolding map_pages
  round-last z p l = rw (e, z, p, l) refl

  round-more :
      (r.1 == 0) ≡ false
      → present (r.0.mem r.1) ≡ false
      → (a == end) ≡ false
      → map_pages (suc fuel) k d a end pa perm
        ≡ map_pages fuel next_state d ((a + pgsize) % 2 ^ 32) end ((pa + pgsize) % 2 ^ 32) perm
  unfolding map_pages
  round-more z p l = rw (e, z, p, l) refl

module _ (kernel_end d perm : ℕ) where
  abbrev LoopMaps : ℕ → Type 0
  LoopMaps fuel =
      (n : ℕ) (k : Kmem) (a pa : ℕ) (pages : List ℕ)
      → n < fuel
      → IsPgdir kernel_end k.mem k.freelist d pages
      → a % pgsize ≡ 0
      → a + n * pgsize < 2 ^ 32
      → pa + n * pgsize < 2 ^ 32
      → Maps kernel_end d perm k a (suc n) pa (map_pages fuel k d a (a + n * pgsize) pa perm)

  loop_args :
      (fuel : ℕ) (k : Kmem) {a a' end end' pa pa' : ℕ}
      → a ≡ a'
      → end ≡ end'
      → pa ≡ pa'
      → map_pages fuel k d a end pa perm ≡ map_pages fuel k d a' end' pa' perm
  loop_args fuel k ea ee ep = rw (ea, ee, ep) refl

  none_left :
      (k : Kmem) (a n pa : ℕ)
      → IsPgdir kernel_end k.mem k.freelist d []
      → MapsSome kernel_end d perm k a n pa k
  none_left k a n pa h = record {
    pgdir = h;
    inside = λ va lv i. inr refl;
    outside = λ va lv o. refl;
  }

  module _ (fuel : ℕ) (rest : LoopMaps fuel) (k : Kmem) (a pa : ℕ) (pages : List ℕ)
      (al : a % pgsize ≡ 0) where
    stored_round :
        (n : ℕ) (k1 : Kmem) (pte : ℕ)
        → n < suc fuel
        → a + n * pgsize < 2 ^ 32
        → pa + n * pgsize < 2 ^ 32
        → walkpgdir k d a true ≡ (k1, pte)
        → Found kernel_end k d (pdx a) (ptx a) pages (k1, pte)
        → present (k1.mem pte) ≡ false
        → Maps kernel_end d perm k a
            (suc n)
            pa
            (map_pages (suc fuel) k d a (a + n * pgsize) pa perm)
    stored_round zero k1 pte ln la lp e f fresh =
        let la0 : a < 2 ^ 32 = omega (arith, la) in
        let nonzero = pte_nonzero kernel_end d perm k k1 a pa pages pte la0 al f in
        let last : (a == a + 0 * pgsize) ≡ true = ground arith in
        subst (Maps kernel_end d perm k a 1 pa)
          (sym (round-last fuel k d a (a + 0 * pgsize) pa perm (k1, pte) e nonzero fresh last))
          (pages, stored-MapsAll kernel_end d perm k k1 a pa pages pte la0 al f)
    stored_round (suc n) k1 pte ln la lp e f fresh =
        let la0 : a < 2 ^ 32 = omega (arith, la) in
        let nonzero = pte_nonzero kernel_end d perm k k1 a pa pages pte la0 al f in
        let k2 = stored kernel_end d perm k k1 a pa pages pte la0 al f in
        let one = stored-MapsAll kernel_end d perm k k1 a pa pages pte la0 al f in
        let end = a + suc n * pgsize in
        let goes : (a == end) ≡ false = ground arith in
        let next_a : (a + pgsize) % 2 ^ 32 ≡ a + pgsize = omega (arith, la) in
        let next_pa : (pa + pgsize) % 2 ^ 32 ≡ pa + pgsize = omega (arith, lp) in
        let same_end : end ≡ a + pgsize + n * pgsize = omega arith in
        subst (Maps kernel_end d perm k a (suc (suc n)) pa)
          (sym (
            round-more fuel k d a end pa perm (k1, pte) e nonzero fresh goes
            ∙ loop_args fuel k2 next_a same_end next_pa))
          (Maps-then kernel_end d perm k k2 a (suc n) pa pages
            (map_pages fuel k2 d (a + pgsize) (a + pgsize + n * pgsize) (pa + pgsize) perm) al one
            (rest n k2 (a + pgsize) (pa + pgsize) pages (omega (arith, ln)) one.pgdir
              (omega (arith, al)) (omega (arith, la)) (omega (arith, lp))))

    round :
        (n : ℕ) (r : Kmem × ℕ)
        → n < suc fuel
        → a + n * pgsize < 2 ^ 32
        → pa + n * pgsize < 2 ^ 32
        → walkpgdir k d a true ≡ r
        → Found kernel_end k d (pdx a) (ptx a) pages r
        → Maps kernel_end d perm k a
            (suc n)
            pa
            (map_pages (suc fuel) k d a (a + n * pgsize) pa perm)
    round n (k1, pte) ln la lp e f = elim (Bool-cases (present (k1.mem pte))) [
      | inl old ↦
          let la0 : a < 2 ^ 32 = omega (arith, la) in
          let nonzero = pte_nonzero kernel_end d perm k k1 a pa pages pte la0 al f in
          let was = old_entry kernel_end d perm k k1 a pa pages pte la0 al f in
          subst (Maps kernel_end d perm k a (suc n) pa)
            (sym (round-remap fuel k d a (a + n * pgsize) pa perm (k1, pte) e nonzero old))
            (a, la0, (omega arith, omega arith), ap present (sym was) ∙ old)
      | inr fresh ↦ stored_round n k1 pte ln la lp e f fresh
    ]

  map_pages-Maps : (fuel : ℕ) → LoopMaps fuel
  map_pages-Maps zero n k a pa pages ln h al la lp = absurd (omega (arith, ln))
  map_pages-Maps (suc fuel) n k a pa pages ln h al la lp =
      elim (walkpgdir-Walks kernel_end k d a pages h) [
        | inl out ↦
            subst (Maps kernel_end d perm k a (suc n) pa)
              (sym (round-failed fuel k d a (a + n * pgsize) pa perm (k, 0) out.0 refl))
              (none_left k a (suc n) pa (subst (IsPgdir kernel_end k.mem k.freelist d) out.1 h))
        | inr found ↦
            round fuel (map_pages-Maps fuel) k a pa found.0 al n (walkpgdir k d a true) ln la lp
              refl found.1
      ]

-- The pages of an address range.
abbrev pub pages_of : ℕ → ℕ → ℕ
pages_of va size = (va % pgsize + size + (pgsize - 1)) / pgsize

pages_before :
    (va size : ℕ)
    → 0 < size
    → va + size ≤ 2 ^ 32
    → (n : ℕ) × (suc n ≡ pages_of va size)
      × (pgrounddown va + n * pgsize ≡ pgrounddown ((va + size + (2 ^ 32 - 1)) % 2 ^ 32))
      × (pgrounddown va + n * pgsize < 2 ^ 32)
      × (n < 2 ^ 20)
pages_before va size some_bytes fits =
    let wrap : (va + size + (2 ^ 32 - 1)) % 2 ^ 32 ≡ va + size - 1 =
      omega (arith, some_bytes, fits) in
    (
      pages_of va size - 1,
      omega (arith, some_bytes),
      omega (arith, some_bytes, fits, wrap),
      omega (arith, some_bytes, fits),
      omega (arith, some_bytes, fits),
    )

-- For a directory whose page tables are different pages and not free, and a range that does not pass
-- the end of the address space, to pages that do not pass the end of memory: `mappages` comes back, and
-- it either translates each page of the range to the page at the same distance from `pa`, with the
-- bits of `perm`; or it fails, when no page is left for a table, after translating some of them; or it
-- panics because an address of the range is already translated. In the first two cases all other
-- addresses are translated as before, and the tables are again different pages and not free.
pub mappages-Maps :
    (kernel_end : ℕ) (k : Kmem) (d va size pa perm : ℕ) (pages : List ℕ)
    → IsPgdir kernel_end k.mem k.freelist d pages
    → 0 < size
    → va + size ≤ 2 ^ 32
    → pa + pages_of va size * pgsize ≤ 2 ^ 32
    → Maps kernel_end d perm k (pgrounddown va) (pages_of va size) pa (mappages k d va size pa perm)
unfolding mappages
mappages-Maps kernel_end k d va size pa perm pages h some_bytes fits memory =
    let (n, en, el, lt, ln) = pages_before va size some_bytes fits in
    subst (λ m. Maps kernel_end d perm k (pgrounddown va) m pa (mappages k d va size pa perm)) en
      (subst
        (λ e.
          Maps kernel_end d perm k (pgrounddown va) (suc n) pa
            (map_pages (2 ^ 20) k d (pgrounddown va) e pa perm))
        el
        (map_pages-Maps kernel_end d perm (2 ^ 20) n k (pgrounddown va) pa pages ln h (omega arith)
          lt (omega (arith, en, memory))))
