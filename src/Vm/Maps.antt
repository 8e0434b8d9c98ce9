-- ===== src/Vm/Maps.antt =====
-- mappages: what the directory translates after it, and when it fails.
use cs537_sp2021_dis.Base.{
  ℕ, suc, ◌+◌, ◌-◌, ◌*◌, ◌%◌, ◌^◌, ◌≤◌, ◌<◌, ◌≡◌, ◌≢◌, sym, ap, ◌∙◌, ◌⊎◌, inl, inr, true, List, [],
  arith, ℕ_discrete,
}
use cs537_sp2021_dis.Kalloc.{pgsize, Kmem}
use cs537_sp2021_dis.Vm.{
  bit_or, pdx, ptx, present, pgrounddown, Mapped, mapped, failed, remap, out_of_fuel,
}
use cs537_sp2021_dis.Vm.Tables.{entry_at, IsPgdir}

-- The entry for an address: 0 without a table.
abbrev pub entry : Kmem → ℕ → ℕ → ℕ
entry k d va = entry_at k.mem d (pdx va) (ptx va)

-- `pa | perm | PTE_P`
abbrev pub pte_of : ℕ → ℕ → ℕ
pte_of pa perm = bit_or 32 (bit_or 32 pa perm) 1

-- `n` pages from `a`
abbrev pub Within : ℕ → ℕ → ℕ → Type 0
Within a n va = (a ≤ va) × (va < a + n * pgsize)

abbrev pub Outside : ℕ → ℕ → ℕ → Type 0
Outside a n va = (va < a) ⊎ (a + n * pgsize ≤ va)

-- The page of `va` is translated to the page at the same distance from `pa`.
abbrev pub Translates : ℕ → ℕ → ℕ → ℕ → Kmem → ℕ → Type 0
Translates d a pa perm k va = entry k d va ≡ pte_of (pa + (pgrounddown va - a)) perm

pub record MapsAll (kernel_end d perm : ℕ) (k : Kmem) (a n pa : ℕ) (k' : Kmem) (pages : List ℕ)
    : Type 0 where
  pub pgdir : IsPgdir kernel_end k'.mem k'.freelist d pages
  pub inside : (va : ℕ) → va < 2 ^ 32 → Within a n va → Translates d a pa perm k' va
  pub outside : (va : ℕ) → va < 2 ^ 32 → Outside a n va → entry k' d va ≡ entry k d va

-- No page is left; some of the pages are mapped.
pub record MapsSome (kernel_end d perm : ℕ) (k : Kmem) (a n pa : ℕ) (k' : Kmem) : Type 0 where
  pub pgdir : IsPgdir kernel_end k'.mem k'.freelist d []
  pub inside :
      (va : ℕ)
      → va < 2 ^ 32
      → Within a n va
      → Translates d a pa perm k' va ⊎ (entry k' d va ≡ entry k d va)
  pub outside : (va : ℕ) → va < 2 ^ 32 → Outside a n va → entry k' d va ≡ entry k d va

abbrev pub Maps : ℕ → ℕ → ℕ → Kmem → ℕ → ℕ → ℕ → Mapped → Type 0
Maps kernel_end d perm k a n pa (mapped k') =
    (pages : List ℕ) × MapsAll kernel_end d perm k a n pa k' pages
Maps kernel_end d perm k a n pa (failed k') = MapsSome kernel_end d perm k a n pa k'
Maps kernel_end d perm k a n pa remap =
    (va : ℕ) × (va < 2 ^ 32) × Within a n va × (present (entry k d va) ≡ true)
Maps kernel_end d perm k a n pa out_of_fuel = ⊥

-- Addresses of different pages have different entries.
pub entries_apart :
    (a va : ℕ)
    → a < 2 ^ 32
    → va < 2 ^ 32
    → a % pgsize ≡ 0
    → Outside a 1 va
    → (pdx a ≢ pdx va) ⊎ (ptx a ≢ ptx va)
entries_apart a va la lv al out = elim (ℕ_discrete (pdx a) (pdx va)) [
  | no ne ↦ inl ne
  | yes e ↦ inr λ e2. absurd (omega (arith, e, e2, la, lv, al, out))
]

pub same_entry : (a va : ℕ) → a % pgsize ≡ 0 → Within a 1 va → (pdx va ≡ pdx a) × (ptx va ≡ ptx a)
same_entry a va al h = (omega (arith, al, h.0, h.1), omega (arith, al, h.0, h.1))

module _ (kernel_end d perm : ℕ) where
  -- A later page lies at a distance of one more page.
  later :
      (k' : Kmem) (a pa va : ℕ)
      → a + pgsize ≤ va
      → a % pgsize ≡ 0
      → Translates d (a + pgsize) (pa + pgsize) perm k' va
      → Translates d a pa perm k' va
  later k' a pa va le al h = h ∙ ap (λ x. pte_of x perm) (omega (arith, le, al))

  module _ (k k1 k' : Kmem) (a n pa : ℕ) (pages : List ℕ) (al : a % pgsize ≡ 0)
      (one : MapsAll kernel_end d perm k a 1 pa k1 pages)
      (outside : (va : ℕ)
        → va < 2 ^ 32
        → Outside (a + pgsize) n va
        → entry k' d va ≡ entry k1 d va) where
    Outside-then : (va : ℕ) → va < 2 ^ 32 → Outside a (suc n) va → entry k' d va ≡ entry k d va
    Outside-then va lv out =
        outside va lv (omega (arith, out)) ∙ one.outside va lv (omega (arith, out))

    first-then : (va : ℕ) → va < 2 ^ 32 → Within a 1 va → Translates d a pa perm k' va
    first-then va lv h = outside va lv (inl (omega (arith, h.1))) ∙ one.inside va lv h

    all-then :
        (pages' : List ℕ)
        → MapsAll kernel_end d perm k1 (a + pgsize) n (pa + pgsize) k' pages'
        → MapsAll kernel_end d perm k a (suc n) pa k' pages'
    all-then pages' all =
        let split : (va : ℕ) → (va < a + pgsize) ⊎ (a + pgsize ≤ va) = λ va. omega arith in
        record {
          pgdir = all.pgdir;
          inside = λ va lv h. elim (split va) [
            | inl lt ↦ first-then va lv (h.0, omega (arith, lt))
            | inr le ↦ later k' a pa va le al (all.inside va lv (le, omega (arith, h.1)))
          ];
          outside = Outside-then;
        }

    some-then :
        MapsSome kernel_end d perm k1 (a + pgsize) n (pa + pgsize) k'
        → MapsSome kernel_end d perm k a (suc n) pa k'
    some-then rest =
        let split : (va : ℕ) → (va < a + pgsize) ⊎ (a + pgsize ≤ va) = λ va. omega arith in
        record {
          pgdir = rest.pgdir;
          inside = λ va lv h. elim (split va) [
            | inl lt ↦ inl (first-then va lv (h.0, omega (arith, lt)))
            | inr le ↦ elim (rest.inside va lv (le, omega (arith, h.1))) [
              | inl t ↦ inl (later k' a pa va le al t)
              | inr e ↦ inr (e ∙ one.outside va lv (inr (omega (arith, le))))
            ]
          ];
          outside = Outside-then;
        }

  -- The first page, then the others.
  pub Maps-then :
      (k k1 : Kmem) (a n pa : ℕ) (pages : List ℕ) (r : Mapped)
      → a % pgsize ≡ 0
      → MapsAll kernel_end d perm k a 1 pa k1 pages
      → Maps kernel_end d perm k1 (a + pgsize) n (pa + pgsize) r
      → Maps kernel_end d perm k a (suc n) pa r
  Maps-then k k1 a n pa pages (mapped k') al one (pages', all) =
      (pages', all-then k k1 k' a n pa pages al one all.outside pages' all)
  Maps-then k k1 a n pa pages (failed k') al one rest =
      some-then k k1 k' a n pa pages al one rest.outside rest
  Maps-then k k1 a n pa pages remap al one (va, lv, h, p) =
      let same = one.outside va lv (inr (omega (arith, h.0))) in
      (va, lv, (omega (arith, h.0), omega (arith, h.1)), ap present (sym same) ∙ p)
  Maps-then k k1 a n pa pages out_of_fuel al one h = elim h [ ]
