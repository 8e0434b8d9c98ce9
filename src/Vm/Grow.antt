-- ===== src/Vm/Grow.antt =====
-- A new page table in a directory: an empty one, and all others as they were.
use cs537_sp2021_dis.Base.{
  ℕ, ◌+◌, ◌*◌, ◌<◌, ◌≡◌, ◌≢◌, sym, ap, ◌∙◌, subst, inl, inr, true, false, Bool-cases, List, ◌∷◌,
  All, arith, update, update_self, update_ne, ℕ_discrete,
}
use cs537_sp2021_dis.Kalloc.{pgsize}
use cs537_sp2021_dis.Kalloc.FreeList.{IsPage, IsFree, WritesPage-IsFree, pages_apart}
use cs537_sp2021_dis.Vm.{pte_addr, present, p2v, zero_page, table_entry}
use cs537_sp2021_dis.Vm.Tables.{
  table_at, entry_at, IsTable, IsPgdir, words_apart, table_entry-p2v, table_entry-present,
  entry_at-absent, entry_at-present,
}

-- The memory with the page `p` as the `i`th table.
abbrev pub with_table : (ℕ → ℕ) → ℕ → ℕ → ℕ → ℕ → ℕ
with_table mem d i p = update (zero_page mem p) (d + i * 4) (table_entry p)

module _ (kernel_end : ℕ) (mem : ℕ → ℕ) (d i p : ℕ) (hd : IsPage kernel_end d)
    (hp : IsPage kernel_end p) (new : d ≢ p) (lt : i < 1024) where
  zero_page-out :
      (t o : ℕ) → IsPage kernel_end t → t ≢ p → o < pgsize → zero_page mem p (t + o) ≡ mem (t + o)
  zero_page-out t o ht ne lo = ground (arith, pages_apart kernel_end hp ht (λ e. ne (sym e)), lo)

  dir_word : (j : ℕ) → j < 1024 → j * 4 < pgsize
  dir_word j lj = omega (arith, lj)

  pub with_table_self : with_table mem d i p (d + i * 4) ≡ table_entry p
  with_table_self = update_self (zero_page mem p) (d + i * 4) (table_entry p)

  pub with_table-dir :
      (j : ℕ) → j < 1024 → i ≢ j → with_table mem d i p (d + j * 4) ≡ mem (d + j * 4)
  with_table-dir j lj ne =
      update_ne (zero_page mem p) (d + i * 4) (d + j * 4) (table_entry p)
        (λ e. ne (omega (arith, e)))
      ∙ zero_page-out d (j * 4) hd new (dir_word j lj)

  pub with_table-other :
      (t o : ℕ)
      → IsPage kernel_end t
      → t ≢ d
      → t ≢ p
      → o < pgsize
      → with_table mem d i p (t + o) ≡ mem (t + o)
  with_table-other t o ht nd np lo =
      update_ne (zero_page mem p) (d + i * 4) (t + o) (table_entry p)
        (words_apart kernel_end (i * 4) o hd ht (λ e. nd (sym e)) (dir_word i lt) lo)
      ∙ zero_page-out t o ht np lo

  pub with_table-new : (o : ℕ) → o < pgsize → with_table mem d i p (p + o) ≡ 0
  with_table-new o lo =
      update_ne (zero_page mem p) (d + i * 4) (p + o) (table_entry p)
        (words_apart kernel_end (i * 4) o hd hp new (dir_word i lt) lo)
      ∙ ground (arith, lo)

  with_table-IsFree :
      (freelist : ℕ) (pages : List ℕ)
      → All (λ q. p ≢ q) pages
      → All (λ q. d ≢ q) pages
      → IsFree kernel_end mem freelist pages
      → IsFree kernel_end (with_table mem d i p) freelist pages
  with_table-IsFree freelist pages np nd free =
      WritesPage-IsFree kernel_end d (zero_page mem p) (with_table mem d i p) freelist pages hd
        (λ a out. ground (arith, out, lt)) nd
        (WritesPage-IsFree kernel_end p mem (zero_page mem p) freelist pages hp
          (λ a out. ground (arith, out)) np free)

  -- The tables of the new directory.
  pub new_table : table_at (with_table mem d i p) d i ≡ p
  new_table = ap (λ e. p2v (pte_addr e)) with_table_self ∙ table_entry-p2v kernel_end hp

  at_i : (j : ℕ) → i ≡ j → table_at (with_table mem d i p) d j ≡ p
  at_i j e = ap (λ k. table_at (with_table mem d i p) d k) (sym e) ∙ new_table

  pub old_table :
      (j : ℕ) → j < 1024 → i ≢ j → table_at (with_table mem d i p) d j ≡ table_at mem d j
  old_table j lj ne = ap (λ e. p2v (pte_addr e)) (with_table-dir j lj ne)

  old_present :
      (j : ℕ)
      → j < 1024
      → i ≢ j
      → present (with_table mem d i p (d + j * 4)) ≡ true
      → present (mem (d + j * 4)) ≡ true
  old_present j lj ne h = ap present (sym (with_table-dir j lj ne)) ∙ h

  -- Before, `p` was free and `i` had no table.
  pub with_table-IsPgdir :
      (freelist0 freelist : ℕ) (pages : List ℕ)
      → IsPgdir kernel_end mem freelist0 d (p ∷ pages)
      → All (λ q. p ≢ q) pages
      → IsFree kernel_end mem freelist pages
      → IsPgdir kernel_end (with_table mem d i p) freelist d pages
  with_table-IsPgdir freelist0 freelist pages h np free = record {
    free = with_table-IsFree freelist pages np h.dir_used.1 free;
    dir = hd;
    dir_used = h.dir_used.1;
    table = λ j lj there. elim (ℕ_discrete i j) [
      | yes e ↦
          subst (λ t. IsTable kernel_end d t pages) (sym (at_i j e))
            (record { page = hp; other = λ e. new (sym e); used = np })
      | no ne ↦
          let old = h.table j lj (old_present j lj ne there) in
          subst (λ t. IsTable kernel_end d t pages) (sym (old_table j lj ne))
            (record { page = old.page; other = old.other; used = old.used.1 })
    ];
    apart = λ j k lj lk ne hj hk. elim (ℕ_discrete i j) [
      | yes e ↦
          let nk : i ≢ k = λ e2. ne (sym e ∙ e2) in
          λ same.
            (h.table k lk (old_present k lk nk hk)).used.0
              (sym (old_table k lk nk) ∙ sym same ∙ at_i j e)
      | no nj ↦ elim (ℕ_discrete i k) [
        | yes e ↦ λ same.
            (h.table j lj (old_present j lj nj hj)).used.0
              (sym (old_table j lj nj) ∙ same ∙ at_i k e)
        | no nk ↦ λ same.
            h.apart j k lj lk ne (old_present j lj nj hj) (old_present k lk nk hk)
              (sym (old_table j lj nj) ∙ same ∙ old_table k lk nk)
      ]
    ];
  }

  new_entry_at :
      (o : ℕ)
      → present (mem (d + i * 4)) ≡ false
      → o < 1024
      → entry_at (with_table mem d i p) d i o ≡ entry_at mem d i o
  new_entry_at o absent lo =
      entry_at-present (with_table mem d i p) d i o
        (ap present with_table_self ∙ table_entry-present kernel_end hp)
      ∙ ap (λ t. with_table mem d i p (t + o * 4)) new_table
      ∙ with_table-new (o * 4) (dir_word o lo)
      ∙ sym (entry_at-absent mem d i o absent)

  old_entry_at :
      (freelist0 : ℕ) (pages : List ℕ) (j o : ℕ)
      → IsPgdir kernel_end mem freelist0 d (p ∷ pages)
      → j < 1024
      → o < 1024
      → i ≢ j
      → entry_at (with_table mem d i p) d j o ≡ entry_at mem d j o
  old_entry_at freelist0 pages j o h lj lo ne =
      let same = ap present (with_table-dir j lj ne) in
      elim (Bool-cases (present (mem (d + j * 4)))) [
        | inl there ↦
            let t = h.table j lj there in
            entry_at-present (with_table mem d i p) d j o (same ∙ there)
            ∙ ap (λ t. with_table mem d i p (t + o * 4)) (old_table j lj ne)
            ∙ with_table-other (table_at mem d j) (o * 4) t.page t.other t.used.0 (dir_word o lo)
            ∙ sym (entry_at-present mem d j o there)
        | inr absent ↦
            entry_at-absent (with_table mem d i p) d j o (same ∙ absent)
            ∙ sym (entry_at-absent mem d j o absent)
      ]

  -- No translation changes: the new table is empty.
  pub with_table-entry_at :
      (freelist0 : ℕ) (pages : List ℕ) (j o : ℕ)
      → IsPgdir kernel_end mem freelist0 d (p ∷ pages)
      → present (mem (d + i * 4)) ≡ false
      → j < 1024
      → o < 1024
      → entry_at (with_table mem d i p) d j o ≡ entry_at mem d j o
  with_table-entry_at freelist0 pages j o h absent lj lo = elim (ℕ_discrete i j) [
    | yes e ↦
        subst (λ k. entry_at (with_table mem d i p) d k o ≡ entry_at mem d k o) e
          (new_entry_at o absent lo)
    | no ne ↦ old_entry_at freelist0 pages j o h lj lo ne
  ]
