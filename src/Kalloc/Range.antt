-- ===== src/Kalloc/Range.antt =====
-- `freerange` frees every page of the range once.
use cs537_sp2021_dis.Base.{
  ℕ, zero, suc, ◌+◌, ◌*◌, ◌/◌, ◌%◌, ◌≤◌, ◌<◌, ◌≡◌, ◌≢◌, refl, ◌↔◌, ◌⊎◌, inl, inr, ◌∙◌, true,
  Bool-cases, Option, some, List, ◌∷◌, arith, All, All-map, ℕ_discrete, is_in, ltb,
}
use cs537_sp2021_dis.Kalloc.{pgsize, phystop, kernbase, pgroundup, Kmem, free_pages, freerange}
use cs537_sp2021_dis.Kalloc.FreeList.{IsPage, IsFree, kfree-IsFree}

-- `v` is a page that lies between `p` and `vend`.
abbrev pub InRange : ℕ → ℕ → ℕ → Type 0
InRange p vend v = (v % pgsize ≡ 0) × (p ≤ v) × (v + pgsize ≤ vend)

-- A result: the pages of the range are free, with those that were.
abbrev pub Frees : ℕ → Kmem → ℕ → ℕ → List ℕ → Option Kmem → Type 0
Frees kernel_end k p vend pages r =
    (k' : Kmem) × (pages' : List ℕ) × (r ≡ some k')
    × IsFree kernel_end k'.mem k'.freelist pages'
    × (k'.use_lock ≡ k.use_lock)
    × ((v : ℕ) → (is_in v pages' ≡ true) ↔ (InRange p vend v ⊎ (is_in v pages ≡ true)))

-- The page is not in the range.
abbrev pub Outside : ℕ → ℕ → ℕ → Type 0
Outside p vend q = (q < p) ⊎ (vend ≤ q)

module _ (kernel_end vend : ℕ) (low : kernbase ≤ kernel_end)
    (high : vend ≤ kernbase + phystop) where
  range-IsPage : (p : ℕ) → p % pgsize ≡ 0 → kernel_end ≤ p → p + pgsize ≤ vend → IsPage kernel_end p
  range-IsPage p hp hk hv = record {
    aligned = hp;
    above = hk;
    below = omega (arith, low, high, hk, hv);
    word = omega (arith, low, high, hk, hv);
  }

  Outside-ne :
      (p : ℕ) (pages : List ℕ)
      → p + pgsize ≤ vend
      → All (Outside p vend) pages
      → All (λ q. p ≢ q) pages
  Outside-ne p pages h o =
      All-map (Outside p vend) (λ q. p ≢ q) (λ q out e. absurd (omega (arith, out, e, h))) pages o

  Outside-next :
      (p : ℕ) (pages : List ℕ) → All (Outside p vend) pages → All (Outside (p + pgsize) vend) pages
  Outside-next p pages o =
      All-map (Outside p vend) (Outside (p + pgsize) vend) (λ q out. omega (arith, out)) pages o

  next_range :
      (p v : ℕ) (pages : List ℕ)
      → p % pgsize ≡ 0
      → p + pgsize ≤ vend
      → (InRange (p + pgsize) vend v ⊎ (is_in v (p ∷ pages) ≡ true))
        ↔ (InRange p vend v ⊎ (is_in v pages ≡ true))
  next_range p v pages hp h = (
    λ either. elim either [
      | inl r ↦ inl (r.0, omega (arith, r.1), r.2)
      | inr m ↦ elim (ℕ_discrete v p) [
        | yes same ↦ inl (omega (arith, same, hp), omega (arith, same), omega (arith, same, h))
        | no other ↦ inr (ground (arith, m, other))
      ]
    ],
    λ either. elim either [
      | inl r ↦ elim (ℕ_discrete v p) [
        | yes same ↦ inr (ground (arith, same))
        | no other ↦ inl (r.0, omega (arith, r.0, r.1, hp, other), r.2)
      ]
      | inr m ↦ inr (ground (arith, m))
    ],
  )

  no_range :
      (p v : ℕ) (pages : List ℕ)
      → vend < p + pgsize
      → (is_in v pages ≡ true) ↔ (InRange p vend v ⊎ (is_in v pages ≡ true))
  no_range p v pages h = (
    λ m. inr m,
    λ either. elim either [ inl r ↦ absurd (omega (arith, r.1, r.2, h)) | inr m ↦ m ],
  )

  free_pages-Frees :
      (fuel : ℕ) (k : Kmem) (p : ℕ) (pages : List ℕ)
      → p % pgsize ≡ 0
      → kernel_end ≤ p
      → vend < p + (fuel + 1) * pgsize
      → All (Outside p vend) pages
      → IsFree kernel_end k.mem k.freelist pages
      → Frees kernel_end k p vend pages (free_pages kernel_end fuel k p vend)
  unfolding free_pages
  free_pages-Frees zero k p pages hp hk enough o free =
      (k, pages, refl, free, refl, λ v. no_range p v pages (omega (arith, enough)))
  free_pages-Frees (suc fuel) k p pages hp hk enough o free =
      elim (Bool-cases (ltb vend (p + pgsize))) [
        | inl stop ↦ (
          k,
          pages,
          ground (arith, stop),
          free,
          refl,
          λ v. no_range p v pages (ground (arith, stop)),
        )
        | inr go ↦
            let below : p + pgsize ≤ vend = ground arith in
            let (k1, e1, free1, l1) =
              kfree-IsFree kernel_end k p pages (range-IsPage p hp hk below)
                (Outside-ne p pages below o) free in
            let (k2, pages2, e2, free2, l2, in2) =
              free_pages-Frees fuel k1 (p + pgsize) (p ∷ pages) (omega (arith, hp))
                (omega (arith, hk)) (omega (arith, enough))
                (inl (omega arith), Outside-next p pages o) free1 in
            (
              k2,
              pages2,
              ground (arith, go, e1, e2),
              free2,
              l2 ∙ l1,
              λ v.
                  let next = next_range p v pages hp below in
                  (λ m. next.0 ((in2 v).0 m), λ r. (in2 v).1 (next.1 r)),
            )
      ]

  pgroundup_least :
      (a : ℕ) → (pgroundup a % pgsize ≡ 0) × (a ≤ pgroundup a) × (pgroundup a < a + pgsize)
  pgroundup_least a = (omega arith, omega arith, omega arith)

  -- When the range lies between the end of the kernel and the top of memory and holds none of the
  -- pages that are free already, `freerange` returns, without a panic, and then the pages in the free
  -- list are those and the pages that lie in the range as wholes, each once.
  pub freerange-Frees :
      (k : Kmem) (vstart : ℕ) (pages : List ℕ)
      → kernel_end ≤ vstart
      → All (Outside vstart vend) pages
      → IsFree kernel_end k.mem k.freelist pages
      → Frees kernel_end k vstart vend pages (freerange kernel_end k vstart vend)
  unfolding freerange
  freerange-Frees k vstart pages hk o free =
      let (aligned, above, near) = pgroundup_least vstart in
      let (k', pages', e, free', l, mem) =
        free_pages-Frees (vend / pgsize) k (pgroundup vstart) pages aligned
          (omega (arith, hk, above)) (omega arith)
          (All-map (Outside vstart vend) (Outside (pgroundup vstart) vend)
            (λ q out. omega (arith, out, above)) pages o)
          free in
      (
        k',
        pages',
        e,
        free',
        l,
        λ v. (
          λ m. elim ((mem v).0 m) [
            | inl r ↦ inl (r.0, omega (arith, r.1, above), r.2)
            | inr old ↦ inr old
          ],
          λ either. elim either [
            | inl r ↦ (mem v).1 (inl (r.0, omega (arith, r.0, r.1, aligned, near), r.2))
            | inr old ↦ (mem v).1 (inr old)
          ],
        ),
      )
