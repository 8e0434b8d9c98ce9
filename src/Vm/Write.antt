-- ===== src/Vm/Write.antt =====
-- A store to one entry of a page table: the other entries are as they were.
use cs537_sp2021_dis.Base.{
  ℕ, ◌+◌, ◌*◌, ◌<◌, ◌≡◌, ◌≢◌, sym, ap, ◌∙◌, subst, ◌⊎◌, inl, inr, Bool, true, Bool-cases, List,
  arith, update, update_self, update_ne, ℕ_discrete,
}
use cs537_sp2021_dis.Kalloc.FreeList.{WritesPage-IsFree}
use cs537_sp2021_dis.Vm.{pte_addr, present, p2v}
use cs537_sp2021_dis.Vm.Tables.{
  table_at, entry_at, IsTable, IsPgdir, words_apart, entry_at-absent, entry_at-present,
}

-- The memory with `e` as the entry `o` of the table `i`.
abbrev pub with_entry : (ℕ → ℕ) → ℕ → ℕ → ℕ → ℕ → ℕ → ℕ
with_entry mem d i o e = update mem (table_at mem d i + o * 4) e

module _ (kernel_end : ℕ) (mem : ℕ → ℕ) (d i o e freelist : ℕ) (pages : List ℕ)
    (h : IsPgdir kernel_end mem freelist d pages) (li : i < 1024) (lo : o < 1024)
    (there : present (mem (d + i * 4)) ≡ true) where
  with_entry-dir : (j : ℕ) → j < 1024 → with_entry mem d i o e (d + j * 4) ≡ mem (d + j * 4)
  with_entry-dir j lj =
      let t = h.table i li there in
      update_ne mem (table_at mem d i + o * 4) (d + j * 4) e (
        words_apart kernel_end (o * 4) (j * 4) t.page h.dir t.other (omega (arith, lo))
          (omega (arith, lj)))

  table_same : (j : ℕ) → j < 1024 → table_at (with_entry mem d i o e) d j ≡ table_at mem d j
  table_same j lj = ap (λ x. p2v (pte_addr x)) (with_entry-dir j lj)

  present_same :
      (j : ℕ) (b : Bool)
      → j < 1024
      → present (with_entry mem d i o e (d + j * 4)) ≡ b
      → present (mem (d + j * 4)) ≡ b
  present_same j b lj hj = ap present (sym (with_entry-dir j lj)) ∙ hj

  pub with_entry-IsPgdir : IsPgdir kernel_end (with_entry mem d i o e) freelist d pages
  with_entry-IsPgdir =
      let t = h.table i li there in
      record {
        free =
            WritesPage-IsFree kernel_end (table_at mem d i) mem (with_entry mem d i o e) freelist
              pages t.page (λ a out. ground (arith, out, lo)) t.used h.free;
        dir = h.dir;
        dir_used = h.dir_used;
        table = λ j lj hj.
            subst (λ t. IsTable kernel_end d t pages) (sym (table_same j lj))
              (h.table j lj (present_same j true lj hj));
        apart = λ j k lj lk ne hj hk same.
            h.apart j k lj lk ne (present_same j true lj hj) (present_same k true lk hk)
              (sym (table_same j lj) ∙ same ∙ table_same k lk);
      }

  pub with_entry_self : entry_at (with_entry mem d i o e) d i o ≡ e
  with_entry_self =
      entry_at-present (with_entry mem d i o e) d i o (ap present (with_entry-dir i li) ∙ there)
      ∙ ap (λ t. with_entry mem d i o e (t + o * 4)) (table_same i li)
      ∙ update_self mem (table_at mem d i + o * 4) e

  -- An entry of a table is elsewhere, when the table or its number differs.
  entry_apart :
      (j k : ℕ)
      → j < 1024
      → k < 1024
      → ((i ≢ j) ⊎ (o ≢ k))
      → present (mem (d + j * 4)) ≡ true
      → table_at mem d i + o * 4 ≢ table_at mem d j + k * 4
  entry_apart j k lj lk ne hj = elim (ℕ_discrete i j) [
    | yes same ↦ elim ne [
      | inl n ↦ absurd (n same)
      | inr n ↦ λ eq. n (omega (arith, eq, ap (λ x. table_at mem d x) same))
    ]
    | no other ↦
        words_apart kernel_end (o * 4) (k * 4) (h.table i li there).page (h.table j lj hj).page
          (h.apart i j li lj other there hj) (omega (arith, lo)) (omega (arith, lk))
  ]

  pub with_entry-entry_at :
      (j k : ℕ)
      → j < 1024
      → k < 1024
      → ((i ≢ j) ⊎ (o ≢ k))
      → entry_at (with_entry mem d i o e) d j k ≡ entry_at mem d j k
  with_entry-entry_at j k lj lk ne =
      let same = ap present (with_entry-dir j lj) in
      elim (Bool-cases (present (mem (d + j * 4)))) [
        | inl hj ↦
            entry_at-present (with_entry mem d i o e) d j k (same ∙ hj)
            ∙ ap (λ t. with_entry mem d i o e (t + k * 4)) (table_same j lj)
            ∙ update_ne mem (table_at mem d i + o * 4) (table_at mem d j + k * 4) e
                (entry_apart j k lj lk ne hj)
            ∙ sym (entry_at-present mem d j k hj)
        | inr absent ↦
            entry_at-absent (with_entry mem d i o e) d j k (same ∙ absent)
            ∙ sym (entry_at-absent mem d j k absent)
      ]
