-- ===== src/Kalloc/FreeList.antt =====
-- The free list of xv6/kalloc.c as the list of its pages.
use cs537_sp2021_dis.Base.{
  ℕ, ◌+◌, ◌%◌, ◌^◌, ◌≤◌, ◌<◌, ◌≡◌, ◌≢◌, refl, ◌⊎◌, inl, inr, some, List, [], ◌∷◌, arith, All,
  update, update_self, Bool-cases, ◌==◌,
}
use cs537_sp2021_dis.Kalloc.{pgsize, phystop, v2p, fill_page, Kmem, kfree, kalloc}

-- What `kfree` accepts.
pub record IsPage (kernel_end p : ℕ) : Type 0 where
  pub aligned : p % pgsize ≡ 0
  pub above : kernel_end ≤ p
  pub below : v2p p < phystop
  pub word : p < 2 ^ 32

-- `p` begins a chain of different pages, linked by their first words.
pub data IsFree (kernel_end : ℕ) (mem : ℕ → ℕ) : ℕ → List ℕ → Type 0 where
  empty : IsFree kernel_end mem 0 []
  page :
      {p : ℕ} {pages : List ℕ}
      → IsPage kernel_end p
      → All (λ q. p ≢ q) pages
      → IsFree kernel_end mem (mem p) pages
      → IsFree kernel_end mem p (p ∷ pages)

-- A change inside the page `v`.
abbrev pub WritesPage : ℕ → (ℕ → ℕ) → (ℕ → ℕ) → Type 0
WritesPage v mem mem' = (a : ℕ) → (a < v) ⊎ (v + pgsize ≤ a) → mem' a ≡ mem a

module _ (kernel_end : ℕ) where
  pub page_nonzero : {p : ℕ} → IsPage kernel_end p → p ≢ 0
  page_nonzero h e = absurd (omega (arith, h.below, e))

  pub pages_apart :
      {p q : ℕ} → IsPage kernel_end p → IsPage kernel_end q → p ≢ q → (q < p) ⊎ (p + pgsize ≤ q)
  pages_apart hp hq ne = omega (arith, hp.aligned, hq.aligned, ne)

  -- What the owner of a page writes there leaves the chain alone.
  pub WritesPage-IsFree :
      (v : ℕ) (mem mem' : ℕ → ℕ) (p : ℕ) (pages : List ℕ)
      → IsPage kernel_end v
      → WritesPage v mem mem'
      → All (λ q. v ≢ q) pages
      → IsFree kernel_end mem p pages
      → IsFree kernel_end mem' p pages
  WritesPage-IsFree v mem mem' p [] hv w ne empty = empty
  WritesPage-IsFree v mem mem' p (q ∷ pages) hv w ne (page hp distinct rest) =
      let same = w p (pages_apart hv hp ne.0) in
      page hp distinct (rw same (WritesPage-IsFree v mem mem' (mem p) pages hv w ne.1 rest))

  pub kfree-IsFree :
      (k : Kmem) (v : ℕ) (pages : List ℕ)
      → IsPage kernel_end v
      → All (λ q. v ≢ q) pages
      → IsFree kernel_end k.mem k.freelist pages
      → (k' : Kmem) × (kfree kernel_end k v ≡ some k')
        × IsFree kernel_end k'.mem k'.freelist (v ∷ pages)
        × (k'.use_lock ≡ k.use_lock)
  unfolding kfree
  kfree-IsFree k v pages hv ne free =
      let mem' = update (fill_page k.mem v) v k.freelist in
      (
        record k { mem = mem'; freelist = v },
        ground (arith, hv.aligned, hv.above, hv.below),
        page hv ne (
            rw (update_self (fill_page k.mem v) v k.freelist)
              (WritesPage-IsFree v k.mem mem' k.freelist pages hv (λ a h. ground arith) ne free)),
        refl,
      )

  -- What `kalloc` does on the pages `pages`.
  abbrev pub Allocates : Kmem → List ℕ → Type 0
  Allocates k [] = kalloc k ≡ (k, 0)
  Allocates k (p ∷ pages) =
      ((kalloc k).1 ≡ p)
      × IsPage kernel_end p
      × All (λ q. p ≢ q) pages
      × ((kalloc k).0.use_lock ≡ k.use_lock)
      × IsFree kernel_end (kalloc k).0.mem (kalloc k).0.freelist pages

  kalloc_none : (k : Kmem) → k.freelist ≡ 0 → kalloc k ≡ (k, 0)
  unfolding kalloc
  kalloc_none k e = ground (arith, e)

  kalloc_some :
      (k : Kmem) (p : ℕ) → k.freelist ≡ p → p ≢ 0 → kalloc k ≡ (record k { freelist = k.mem p }, p)
  unfolding kalloc
  kalloc_some k p e ne = ground (arith, e, ne)

  kalloc_at :
      (k : Kmem) (p : ℕ) (pages : List ℕ)
      → k.freelist ≡ p
      → IsFree kernel_end k.mem p pages
      → Allocates k pages
  kalloc_at k p [] e empty = kalloc_none k e
  kalloc_at k p (q ∷ pages) e (page h distinct rest) =
      rw (kalloc_some k p e (page_nonzero h)) (refl, h, distinct, refl, rest)

  pub kalloc-Allocates :
      (k : Kmem) (pages : List ℕ) → IsFree kernel_end k.mem k.freelist pages → Allocates k pages
  kalloc-Allocates k pages free = kalloc_at k k.freelist pages refl free

-- The memory stays as it was.
pub kalloc-mem : (k : Kmem) → (kalloc k).0.mem ≡ k.mem
unfolding kalloc
kalloc-mem k = elim (Bool-cases (k.freelist == 0)) [ inl e ↦ rw e refl | inr e ↦ rw e refl ]
