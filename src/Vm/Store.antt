-- ===== src/Vm/Store.antt =====
-- One round of the loop of mappages: the store of one entry.
use cs537_sp2021_dis.Base.{
  ℕ, ◌%◌, ◌^◌, ◌<◌, ◌≡◌, sym, ap, ◌∙◌, subst, false, ◌==◌, List, arith, update,
}
use cs537_sp2021_dis.Kalloc.{pgsize, Kmem}
use cs537_sp2021_dis.Kalloc.FreeList.{page_nonzero}
use cs537_sp2021_dis.Vm.{pdx, ptx}
use cs537_sp2021_dis.Vm.Tables.{entry_at, IsPgdir, entry_at-present}
use cs537_sp2021_dis.Vm.Write.{with_entry, with_entry-IsPgdir, with_entry_self, with_entry-entry_at}
use cs537_sp2021_dis.Vm.Walk.{Found}
use cs537_sp2021_dis.Vm.Maps.{entry, pte_of, Outside, MapsAll, entries_apart, same_entry}

module _ (kernel_end d perm : ℕ) (k k1 : Kmem) (a pa : ℕ) (pages : List ℕ) (pte : ℕ)
    (la : a < 2 ^ 32) (al : a % pgsize ≡ 0)
    (f : Found kernel_end k d (pdx a) (ptx a) pages (k1, pte)) where
  li : pdx a < 1024
  li = omega arith

  lj : ptx a < 1024
  lj = omega arith

  -- The store of the entry.
  abbrev pub stored : Kmem
  stored = record k1 { mem = update k1.mem pte (pte_of pa perm) }

  stored-mem : with_entry k1.mem d (pdx a) (ptx a) (pte_of pa perm) ≡ stored.mem
  stored-mem = ap (λ x. update k1.mem x (pte_of pa perm)) (sym f.at_entry)

  stored-IsPgdir : IsPgdir kernel_end stored.mem stored.freelist d pages
  stored-IsPgdir =
      subst (λ m. IsPgdir kernel_end m k1.freelist d pages) stored-mem
        (with_entry-IsPgdir kernel_end k1.mem d (pdx a) (ptx a) (pte_of pa perm) k1.freelist pages
          f.pgdir li lj f.there)

  stored_self : entry stored d a ≡ pte_of pa perm
  stored_self =
      ap (λ m. entry_at m d (pdx a) (ptx a)) (sym stored-mem)
      ∙ with_entry_self kernel_end k1.mem d (pdx a) (ptx a) (pte_of pa perm) k1.freelist pages
          f.pgdir li lj f.there

  stored_other : (va : ℕ) → va < 2 ^ 32 → Outside a 1 va → entry stored d va ≡ entry k d va
  stored_other va lv out =
      ap (λ m. entry_at m d (pdx va) (ptx va)) (sym stored-mem)
      ∙ with_entry-entry_at kernel_end k1.mem d (pdx a) (ptx a) (pte_of pa perm) k1.freelist pages
          f.pgdir li lj f.there (pdx va) (ptx va) (omega arith) (omega arith)
          (entries_apart a va la lv al out)
      ∙ f.same (pdx va) (ptx va) (omega arith) (omega arith)

  pub stored-MapsAll : MapsAll kernel_end d perm k a 1 pa stored pages
  stored-MapsAll = record {
    pgdir = stored-IsPgdir;
    inside = λ va lv h.
        let e = same_entry a va al h in
        ap (λ i. entry_at stored.mem d i (ptx va)) e.0
        ∙ ap (entry_at stored.mem d (pdx a)) e.1
        ∙ stored_self
        ∙ ap (λ x. pte_of x perm) (omega (arith, al, h.0, h.1));
    outside = stored_other;
  }

  -- What `*pte` holds.
  pub old_entry : k1.mem pte ≡ entry k d a
  old_entry =
      ap k1.mem f.at_entry
      ∙ sym (entry_at-present k1.mem d (pdx a) (ptx a) f.there)
      ∙ f.same (pdx a) (ptx a) li lj

  pub pte_nonzero : (pte == 0) ≡ false
  pte_nonzero =
      let t = f.pgdir.table (pdx a) li f.there in
      ground (arith, f.at_entry, page_nonzero kernel_end t.page)
