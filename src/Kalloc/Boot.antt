-- ===== src/Kalloc/Boot.antt =====
-- The two phases in which xv6/main.c fills the free list.
use cs537_sp2021_dis.Base.{
  ℕ, ◌+◌, ◌≤◌, ◌≡◌, refl, ◌↔◌, ◌⊎◌, inl, inr, ◌∙◌, true, false, some, List, [], ◌∷◌, arith, All,
  is_in,
}
use cs537_sp2021_dis.Kalloc.{phystop, kernbase, Kmem, freerange, kinit1, kinit2}
use cs537_sp2021_dis.Kalloc.FreeList.{IsFree, empty}
use cs537_sp2021_dis.Kalloc.Range.{InRange, Outside, freerange-Frees}

All-is_in : (P : ℕ → Type 0) (xs : List ℕ) → ((v : ℕ) → is_in v xs ≡ true → P v) → All P xs
All-is_in P [] h = tt
All-is_in P (x ∷ xs) h = (h x (ground arith), All-is_in P xs (λ v m. h v (ground (arith, m))))

-- The allocator before `kinit1`: the variables of C that have no initial value are 0.
abbrev pub unset : (ℕ → ℕ) → Kmem
unset mem = record { use_lock = false; freelist = 0; mem = mem }

-- Both phases return, and then exactly the pages of the two ranges are free, each once.
abbrev pub Boots : ℕ → (ℕ → ℕ) → ℕ → ℕ → Type 0
Boots kernel_end mem mid top =
    (k1 k2 : Kmem) × (pages : List ℕ) × (kinit1 kernel_end (unset mem) kernel_end mid ≡ some k1)
    × (kinit2 kernel_end k1 mid top ≡ some k2)
    × IsFree kernel_end k2.mem k2.freelist pages
    × (k2.use_lock ≡ true)
    × ((v : ℕ) → (is_in v pages ≡ true) ↔ (InRange kernel_end mid v ⊎ InRange mid top v))

kinit2_lem :
    (kernel_end : ℕ) (k k' : Kmem) (mid top : ℕ)
    → freerange kernel_end k mid top ≡ some k'
    → kinit2 kernel_end k mid top ≡ some (record k' { use_lock = true })
unfolding kinit2
kinit2_lem kernel_end k k' mid top e = simp (kinit2, e) refl

kinit1_lem :
    (kernel_end : ℕ) (mem : ℕ → ℕ) (vstart vend : ℕ)
    → kinit1 kernel_end (unset mem) vstart vend ≡ freerange kernel_end (unset mem) vstart vend
unfolding kinit1
kinit1_lem kernel_end mem vstart vend = refl

-- With the end of the kernel above KERNBASE and the ranges one after the other below the top of
-- memory, `kinit1` and then `kinit2` return, without a panic; then the free list holds the pages
-- that lie in one of the two ranges, each once, and no others, and the lock is used from then on.
pub kinit-Boots :
    (kernel_end : ℕ) (mem : ℕ → ℕ) (mid top : ℕ)
    → kernbase ≤ kernel_end
    → kernel_end ≤ mid
    → mid ≤ top
    → top ≤ kernbase + phystop
    → Boots kernel_end mem mid top
kinit-Boots kernel_end mem mid top low first second high =
    let (k1, pages1, e1, free1, l1, in1) =
      freerange-Frees kernel_end mid low (omega (arith, second, high)) (unset mem) kernel_end []
        (omega arith) tt empty in
    let outside : All (Outside mid top) pages1 =
      All-is_in (Outside mid top) pages1
        (λ v m. elim ((in1 v).0 m) [ inl r ↦ inl (omega (arith, r.2)) | inr none ↦ cc ]) in
    let (k2, pages, e2, free2, l2, in2) =
      freerange-Frees kernel_end top low high k1 mid pages1 first outside free1 in
    (
      k1,
      record k2 { use_lock = true },
      pages,
      kinit1_lem kernel_end mem kernel_end mid ∙ e1,
      kinit2_lem kernel_end k1 k2 mid top e2,
      free2,
      refl,
      λ v. (
        λ m. elim ((in2 v).0 m) [
          | inl r ↦ inr r
          | inr old ↦ elim ((in1 v).0 old) [ inl r ↦ inl r | inr none ↦ cc ]
        ],
        λ either. elim either [
          | inl r ↦ (in2 v).1 (inr ((in1 v).1 (inl r)))
          | inr r ↦ (in2 v).1 (inl r)
        ],
      ),
    )
