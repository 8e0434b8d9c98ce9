-- ===== src/Log/Write.antt =====
-- `log_write`: absorption, and what a transaction of several writes leaves to `commit`.
use cs537_sp2021_dis.Base.{
  ℕ, zero, suc, ◌+◌, ◌≤◌, ◌<◌, ◌≡◌, refl, ◌≢◌, ◌⊎◌, inl, inr, arith, true, Bool-cases, ◌==◌, some,
  update,
}
use cs537_sp2021_dis.Log.{Log, Sys, find_block, record_block, log_write, log_size}

-- The scan stops at the block's entry, or passes all entries and meets none for it.
pub find_block_cases :
    (block : ℕ → ℕ) (n b : ℕ)
    → ((find_block block n b < n) × (block (find_block block n b) ≡ b))
      ⊎ ((find_block block n b ≡ n) × ((j : ℕ) → j < n → block j ≢ b))
unfolding find_block
find_block_cases block zero b = inr (refl, λ j below. absurd (omega arith))
find_block_cases block (suc n) b = elim (find_block_cases block n b) [
  | inl (lt, at) ↦ inl (ground arith, ground arith)
  | inr (e, miss) ↦ elim (Bool-cases (block n == b)) [
    | inl hit ↦ inl (ground arith, ground arith)
    | inr other ↦ inr (ground arith, λ j below. ground (arith, miss j))
  ]
]

-- A write that succeeds had room in the log, and records the block and its flag.
pub record Writes (s : Sys) (b : ℕ) (t : Sys) : Type 0 where
  pub room : (s.n < log_size) × (s.n + 1 < s.size)
  pub in_op : 1 ≤ s.outstanding
  pub log : t.log ≡ record_block s.log b
  pub store : t.store ≡ record (s.store) { dirty = update s.dirty b true }

pub log_write-Writes : (s t : Sys) (b : ℕ) → log_write s b ≡ some t → Writes s b t
unfolding log_write
log_write-Writes s t b e = record {
  room = ground arith;
  in_op = ground arith;
  log = ground arith;
  store = ground arith;
}

-- The entries after `record_block`: those before, and one for `b`.
pub record Records (l : Log) (b : ℕ) (m : Log) : Type 0 where
  pub kept : (m.start ≡ l.start) × (m.size ≡ l.size) × (m.outstanding ≡ l.outstanding)
  pub grows : (l.n ≤ m.n) × (m.n ≤ suc l.n)
  pub old : (j : ℕ) → j < l.n → m.block j ≡ l.block j
  pub mine : (i : ℕ) × (i < m.n) × (m.block i ≡ b)
  pub only : (j : ℕ) → j < m.n → (j < l.n) ⊎ (m.block j ≡ b)
  pub fresh : l.n < m.n → (j : ℕ) → j < l.n → l.block j ≢ b

pub record_block-Records : (l : Log) (b : ℕ) → Records l b (record_block l b)
unfolding record_block
record_block-Records l b = elim (find_block_cases l.block l.n b) [
  | inl (lt, at) ↦ record {
    kept = (refl, refl, refl);
    grows = ground arith;
    old = λ j below. ground arith;
    mine = (find_block l.block l.n b, ground arith, ground arith);
    only = λ j below. ground arith;
    fresh = λ more j below. absurd (ground arith);
  }
  | inr (e, miss) ↦ record {
    kept = (refl, refl, refl);
    grows = ground arith;
    old = λ j below. ground arith;
    mine = (l.n, ground arith, ground arith);
    only = λ j below. ground arith;
    fresh = λ more j below. miss j below;
  }
]
