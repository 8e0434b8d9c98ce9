-- ===== src/Vm/Walk.antt =====
-- walkpgdir: the entry of an address, in a new page table where there was none.
use cs537_sp2021_dis.Base.{
  ℕ, ◌+◌, ◌*◌, ◌<◌, ◌≡◌, refl, sym, ap, ◌∙◌, subst, ◌⊎◌, inl, inr, Bool, true, false, ◌==◌,
  Bool-cases, List, [], ◌∷◌, arith,
}
use cs537_sp2021_dis.Kalloc.{Kmem, kalloc}
use cs537_sp2021_dis.Kalloc.FreeList.{IsFree, page_nonzero, Allocates, kalloc-Allocates, kalloc-mem}
use cs537_sp2021_dis.Vm.{pdx, ptx, present, walkpgdir}
use cs537_sp2021_dis.Vm.Tables.{table_at, entry_at, IsPgdir, table_entry-present}
use cs537_sp2021_dis.Vm.Grow.{
  with_table, with_table_self, with_table-IsPgdir, with_table-entry_at, new_table,
}

-- The address of the entry is 0 when no page is left. Otherwise the directory has a table for it, and
-- no translation has changed.
pub record Found (kernel_end : ℕ) (k : Kmem) (d i j : ℕ) (pages : List ℕ) (r : Kmem × ℕ)
    : Type 0 where
  pub pgdir : IsPgdir kernel_end r.0.mem r.0.freelist d pages
  pub there : present (r.0.mem (d + i * 4)) ≡ true
  pub at_entry : r.1 ≡ table_at r.0.mem d i + j * 4
  pub same : (a b : ℕ) → a < 1024 → b < 1024 → entry_at r.0.mem d a b ≡ entry_at k.mem d a b

abbrev pub Walks : ℕ → Kmem → ℕ → ℕ → ℕ → List ℕ → Kmem × ℕ → Type 0
Walks kernel_end k d i j pages r =
    ((r ≡ (k, 0)) × (pages ≡ [])) ⊎ ((pages' : List ℕ) × Found kernel_end k d i j pages' r)

pub walk-present :
    (k : Kmem) (d va : ℕ) (alloc : Bool)
    → present (k.mem (d + pdx va * 4)) ≡ true
    → walkpgdir k d va alloc ≡ (k, table_at k.mem d (pdx va) + ptx va * 4)
unfolding walkpgdir
walk-present k d va alloc h = rw h refl

pub walk-absent :
    (k : Kmem) (d va : ℕ)
    → present (k.mem (d + pdx va * 4)) ≡ false
    → walkpgdir k d va false ≡ (k, 0)
unfolding walkpgdir
walk-absent k d va h = rw h refl

walk-none :
    (k : Kmem) (d va : ℕ)
    → present (k.mem (d + pdx va * 4)) ≡ false
    → kalloc k ≡ (k, 0)
    → walkpgdir k d va true ≡ (k, 0)
unfolding walkpgdir
walk-none k d va h e = rw (h, e) refl

walk-new :
    (k : Kmem) (d va p : ℕ)
    → present (k.mem (d + pdx va * 4)) ≡ false
    → (kalloc k).1 ≡ p
    → (p == 0) ≡ false
    → walkpgdir k d va true
      ≡ (record (kalloc k).0 { mem = with_table (kalloc k).0.mem d (pdx va) p }, p + ptx va * 4)
unfolding walkpgdir
walk-new k d va p h e ne = rw (h, e, ne) refl

module _ (kernel_end : ℕ) (k : Kmem) (d va : ℕ) where
  present-Found :
      (pages : List ℕ)
      → IsPgdir kernel_end k.mem k.freelist d pages
      → present (k.mem (d + pdx va * 4)) ≡ true
      → Found kernel_end k d (pdx va) (ptx va) pages (k, table_at k.mem d (pdx va) + ptx va * 4)
  present-Found pages h there = record {
    pgdir = h;
    there = there;
    at_entry = refl;
    same = λ a b la lb. refl;
  }

  new-Found :
      (p : ℕ) (pages : List ℕ)
      → IsPgdir kernel_end k.mem k.freelist d (p ∷ pages)
      → present (k.mem (d + pdx va * 4)) ≡ false
      → Allocates kernel_end k (p ∷ pages)
      → Found kernel_end k d
          (pdx va)
          (ptx va)
          pages
          (record (kalloc k).0 { mem = with_table (kalloc k).0.mem d (pdx va) p }, p + ptx va * 4)
  new-Found p pages h absent (e, hp, np, el, free) =
      let em = kalloc-mem k in
      let li : pdx va < 1024 = omega arith in
      let nd = h.dir_used.0 in
      rw em (record {
        pgdir =
            with_table-IsPgdir kernel_end k.mem d (pdx va) p h.dir hp nd li k.freelist
              (kalloc k).0.freelist pages h np
              (subst (λ m. IsFree kernel_end m (kalloc k).0.freelist pages) em free);
        there =
            ap present (with_table_self kernel_end k.mem d (pdx va) p h.dir hp nd li)
            ∙ table_entry-present kernel_end hp;
        at_entry =
            ap (λ t. t + ptx va * 4) (sym (new_table kernel_end k.mem d (pdx va) p h.dir hp nd li));
        same = λ a b la lb.
            with_table-entry_at kernel_end k.mem d (pdx va) p h.dir hp nd li k.freelist pages a b h
              absent la lb;
      })

  absent-Walks :
      (pages : List ℕ)
      → IsPgdir kernel_end k.mem k.freelist d pages
      → present (k.mem (d + pdx va * 4)) ≡ false
      → Allocates kernel_end k pages
      → Walks kernel_end k d (pdx va) (ptx va) pages (walkpgdir k d va true)
  absent-Walks [] h absent a = inl (walk-none k d va absent a, refl)
  absent-Walks (p ∷ pages) h absent a =
      let nonzero : (p == 0) ≡ false = ground (arith, page_nonzero kernel_end a.1) in
      inr (
        pages,
        subst (Found kernel_end k d (pdx va) (ptx va) pages)
            (sym (walk-new k d va p absent a.0 nonzero)) (new-Found p pages h absent a),
      )

  pub walkpgdir-Walks :
      (pages : List ℕ)
      → IsPgdir kernel_end k.mem k.freelist d pages
      → Walks kernel_end k d (pdx va) (ptx va) pages (walkpgdir k d va true)
  walkpgdir-Walks pages h = elim (Bool-cases (present (k.mem (d + pdx va * 4)))) [
    | inl there ↦ inr (
      pages,
      subst (Found kernel_end k d (pdx va) (ptx va) pages) (sym (walk-present k d va true there))
          (present-Found pages h there),
    )
    | inr absent ↦ absent-Walks pages h absent (kalloc-Allocates kernel_end k pages h.free)
  ]
