-- ===== src/Kalloc/Owners.antt =====
-- The allocator with the owners of its pages: who got a page from `kalloc` writes to it and passes it
-- to `kfree` at most once. `used` marks the pages that are out.
use cs537_sp2021_dis.Base.{
  ℕ, ◌≡◌, ◌≢◌, refl, ◌⊎◌, inl, inr, subst, Bool, true, false, some, List, [], ◌∷◌, arith, All,
  update, is_in, sym, ap, ◌∙◌, ℕ_discrete,
}
use cs537_sp2021_dis.Kalloc.{Kmem, kfree, kalloc}
use cs537_sp2021_dis.Kalloc.FreeList.{
  IsPage, IsFree, WritesPage, WritesPage-IsFree, page_nonzero, kfree-IsFree, Allocates,
  kalloc-Allocates,
}

pub record Owners : Type 0 where
  pub kmem : Kmem
  pub used : ℕ → Bool

pub data Step (kernel_end : ℕ) (s t : Owners) : Type 0 where
  allocates :
      (kalloc s.kmem).1 ≢ 0
      → t.kmem ≡ (kalloc s.kmem).0
      → t.used ≡ update s.used (kalloc s.kmem).1 true
      → Step kernel_end s t
  fails : (kalloc s.kmem).1 ≡ 0 → t.kmem ≡ (kalloc s.kmem).0 → t.used ≡ s.used → Step kernel_end s t
  frees :
      (v : ℕ)
      → s.used v ≡ true
      → kfree kernel_end s.kmem v ≡ some t.kmem
      → t.used ≡ update s.used v false
      → Step kernel_end s t
  writes :
      (v : ℕ)
      → s.used v ≡ true
      → WritesPage v s.kmem.mem t.kmem.mem
      → t.kmem.freelist ≡ s.kmem.freelist
      → t.used ≡ s.used
      → Step kernel_end s t

pub data Reach (kernel_end : ℕ) (start : Owners) : Owners → Type 0 where
  here : Reach kernel_end start start
  next : {s t : Owners} → Reach kernel_end start s → Step kernel_end s t → Reach kernel_end start t

-- The pages that may be given out: each is in the free list, or it is used, and never both.
pub record Owned (kernel_end : ℕ) (s : Owners) (pages : List ℕ) : Type 0 where
  pub free : IsFree kernel_end s.kmem.mem s.kmem.freelist pages
  pub unused : All (λ p. s.used p ≡ false) pages
  pub valid : (v : ℕ) → s.used v ≡ true → IsPage kernel_end v

-- A page that may be given out: it is used, or it is in the free list.
abbrev pub Kept : Owners → List ℕ → ℕ → Type 0
Kept s pages v = (s.used v ≡ true) ⊎ (is_in v pages ≡ true)

-- The next state is owned too, and no page is lost.
abbrev Steps : ℕ → Owners → List ℕ → Owners → Type 0
Steps kernel_end s pages t =
    (pages' : List ℕ) × Owned kernel_end t pages' × ((v : ℕ) → Kept s pages v → Kept t pages' v)

module _ (kernel_end : ℕ) where
  unused_update :
      (used : ℕ → Bool) (p : ℕ) (b : Bool) (pages : List ℕ)
      → All (λ q. p ≢ q) pages
      → All (λ q. used q ≡ false) pages
      → All (λ q. update used p b q ≡ false) pages
  unused_update used p b [] ne h = tt
  unused_update used p b (q ∷ pages) ne h =
      (ground (arith, ne.0, h.0), unused_update used p b pages ne.1 h.1)

  used_apart :
      (used : ℕ → Bool) (p : ℕ) (pages : List ℕ)
      → used p ≡ true
      → All (λ q. used q ≡ false) pages
      → All (λ q. p ≢ q) pages
  used_apart used p [] h us = tt
  used_apart used p (q ∷ pages) h us = (λ e. cc, used_apart used p pages h us.1)

  unused_in :
      (used : ℕ → Bool) (p : ℕ) (pages : List ℕ)
      → All (λ q. used q ≡ false) pages
      → is_in p pages ≡ true
      → used p ≡ false
  unused_in used p [] us h = cc
  unused_in used p (q ∷ pages) us h = ground (arith, us.0, unused_in used p pages us.1)

  Allocates-Owned :
      (s t : Owners) (pages : List ℕ)
      → Owned kernel_end s pages
      → Allocates kernel_end s.kmem pages
      → (kalloc s.kmem).1 ≢ 0
      → t.kmem ≡ (kalloc s.kmem).0
      → t.used ≡ update s.used (kalloc s.kmem).1 true
      → Steps kernel_end s pages t
  Allocates-Owned s t [] o a ne ek eu = absurd (ne (rw a refl))
  Allocates-Owned s t (p ∷ pages) o (ep, hp, distinct, el, free) ne ek eu =
      let eu' : t.used ≡ update s.used p true = cc in
      (
        pages,
        record {
          free = subst (λ k. IsFree kernel_end k.mem k.freelist pages) (sym ek) free;
          unused = rw eu' (unused_update s.used p true pages distinct o.unused.1);
          valid = rw eu' (λ v h. elim (ℕ_discrete p v) [
            | yes same ↦ subst (IsPage kernel_end) same hp
            | no other ↦ o.valid v (ground arith)
          ]);
        },
        rw eu' (λ v kept. ground (arith, kept)),
      )

  fails-Owned :
      (s t : Owners) (pages : List ℕ)
      → Owned kernel_end s pages
      → Allocates kernel_end s.kmem pages
      → (kalloc s.kmem).1 ≡ 0
      → t.kmem ≡ (kalloc s.kmem).0
      → t.used ≡ s.used
      → Steps kernel_end s pages t
  fails-Owned s t [] o a z ek eu = (
    [],
    record {
      free = subst (λ k. IsFree kernel_end k.mem k.freelist []) (sym (ek ∙ ap (λ r. r.0) a)) o.free;
      unused = tt;
      valid = rw eu o.valid;
    },
    rw eu (λ v kept. kept),
  )
  fails-Owned s t (p ∷ pages) o (ep, hp, distinct, el, rest) z ek eu =
      absurd (page_nonzero kernel_end hp (sym ep ∙ z))

  frees-Owned :
      (s t : Owners) (pages : List ℕ) (v : ℕ)
      → Owned kernel_end s pages
      → s.used v ≡ true
      → kfree kernel_end s.kmem v ≡ some t.kmem
      → t.used ≡ update s.used v false
      → Steps kernel_end s pages t
  frees-Owned s t pages v o hu ek eu =
      let apart = used_apart s.used v pages hu o.unused in
      let (k', e', free, el) = kfree-IsFree kernel_end s.kmem v pages (o.valid v hu) apart o.free in
      let same : k' ≡ t.kmem = cc in
      (
        v ∷ pages,
        record {
          free = subst (λ k. IsFree kernel_end k.mem k.freelist (v ∷ pages)) same free;
          unused =
              subst (λ u. All (λ p. u p ≡ false) (v ∷ pages)) (sym eu)
                (ground arith, unused_update s.used v false pages apart o.unused);
          valid = rw eu (λ w h. o.valid w (ground arith));
        },
        rw eu (λ w kept. ground (arith, kept)),
      )

  writes-Owned :
      (s t : Owners) (pages : List ℕ) (v : ℕ)
      → Owned kernel_end s pages
      → s.used v ≡ true
      → WritesPage v s.kmem.mem t.kmem.mem
      → t.kmem.freelist ≡ s.kmem.freelist
      → t.used ≡ s.used
      → Steps kernel_end s pages t
  writes-Owned s t pages v o hu w ef eu =
      let apart = used_apart s.used v pages hu o.unused in
      (
        pages,
        record {
          free = rw ef (
              WritesPage-IsFree kernel_end v s.kmem.mem t.kmem.mem s.kmem.freelist pages
                (o.valid v hu) w apart o.free);
          unused = rw eu o.unused;
          valid = rw eu o.valid;
        },
        rw eu (λ w kept. kept),
      )

  Step-Owned :
      {s t : Owners} (pages : List ℕ)
      → Step kernel_end s t
      → Owned kernel_end s pages
      → Steps kernel_end s pages t
  Step-Owned {s} {t} pages (allocates ne ek eu) o =
      Allocates-Owned s t pages o (kalloc-Allocates kernel_end s.kmem pages o.free) ne ek eu
  Step-Owned {s} {t} pages (fails z ek eu) o =
      fails-Owned s t pages o (kalloc-Allocates kernel_end s.kmem pages o.free) z ek eu
  Step-Owned {s} {t} pages (frees v hu ek eu) o = frees-Owned s t pages v o hu ek eu
  Step-Owned {s} {t} pages (writes v hu w ef eu) o = writes-Owned s t pages v o hu w ef eu

  Reach-Owned :
      {start s : Owners} (pages : List ℕ)
      → Owned kernel_end start pages
      → Reach kernel_end start s
      → (pages' : List ℕ) × Owned kernel_end s pages'
        × ((v : ℕ) → Kept start pages v → Kept s pages' v)
  Reach-Owned pages o here = (pages, o, λ v kept. kept)
  Reach-Owned pages o (next r step) =
      let (pages1, o1, k1) = Reach-Owned pages o r in
      let (pages2, o2, k2) = Step-Owned pages1 step o1 in (pages2, o2, λ v kept. k2 v (k1 v kept))

  -- What a call of `kalloc` gives: a page that nobody uses, or, when there is none, 0.
  abbrev pub Gives : Owners → List ℕ → Owners → Type 0
  Gives start pages s =
      (IsPage kernel_end (kalloc s.kmem).1 × (s.used (kalloc s.kmem).1 ≡ false))
      ⊎ (((kalloc s.kmem).1 ≡ 0) × ((v : ℕ) → Kept start pages v → s.used v ≡ true))

  Gives-at :
      (start s : Owners) (pages pages' : List ℕ)
      → Owned kernel_end s pages'
      → Allocates kernel_end s.kmem pages'
      → ((v : ℕ) → Kept start pages v → Kept s pages' v)
      → Gives start pages s
  Gives-at start s pages [] o a kept =
      inr (rw a refl, λ v k. elim (kept v k) [ inl h ↦ h | inr h ↦ cc ])
  Gives-at start s pages (p ∷ rest) o (ep, hp, distinct, el, free) kept =
      inl (rw ep (hp, o.unused.0))

-- From an allocator whose free list is a chain of different unused pages, after any calls of `kalloc`
-- and `kfree` and writes by owners, each to and of pages they were given, a call of `kalloc` gives a
-- page that nobody uses, or it gives 0 and all pages that were free or used at the start are used:
-- no page is given twice and none is lost.
pub kalloc-Gives :
    (kernel_end : ℕ) {start s : Owners} (pages : List ℕ)
    → Owned kernel_end start pages
    → Reach kernel_end start s
    → Gives kernel_end start pages s
kalloc-Gives kernel_end {start} {s} pages o r =
    let (pages', o', kept) = Reach-Owned kernel_end pages o r in
    Gives-at kernel_end start s pages pages' o' (kalloc-Allocates kernel_end s.kmem pages' o'.free)
      kept
