-- ===== src/Log/Transaction.antt =====
-- The typical use of the log: `bread`, change the data, `log_write`, several times, then `commit`.
use cs537_sp2021_dis.Base.{
  ℕ, ◌<◌, ◌≡◌, refl, sym, ap, ◌∙◌, ◌≢◌, ◌⊎◌, inl, inr, arith, Bool-cases, ◌==◌, Option, none, some,
  List, [], ◌∷◌, update, All, subst, subst₂, dec_lt, Option-cases,
}
use cs537_sp2021_dis.Disk.{Block, DiskImage, fill}
use cs537_sp2021_dis.Log.{Log, Sys, log_write, commit}
use cs537_sp2021_dis.Log.Install.{Outside, Pending, Layout}
use cs537_sp2021_dis.Log.Commit.{Ready}
use cs537_sp2021_dis.Log.Crash.{HasLog, Restarts, commit_atomic}
use cs537_sp2021_dis.Log.Write.{Writes, log_write-Writes, Records, record_block-Records}

-- A change to one block inside a transaction.
unfoldable pub write_block : Sys → ℕ → Block → Option Sys
write_block s b v = log_write (record s { store = fill s.store b v }) b

unfoldable pub write_blocks : Sys → List (ℕ × Block) → Option Sys
write_blocks s [] = some s
write_blocks s ((b, v) ∷ ws) = elim (write_block s b v) [ none ↦ none | some t ↦ write_blocks t ws ]

-- The contents after the changes.
unfoldable pub changed : DiskImage → List (ℕ × Block) → DiskImage
changed m [] = m
changed m ((b, v) ∷ ws) = changed (update m b v) ws

-- A file system block: not in the log, and not the superblock.
abbrev pub IsData : ℕ → ℕ → ℕ × Block → Type 0
IsData start size w = Outside start size w.0 × (w.0 ≢ 1)

-- No block has two entries.
abbrev pub Distinct : Log → Type 0
Distinct l = (i j : ℕ) → i < j → j < l.n → l.block i ≢ l.block j

-- What a change keeps.
pub record Changes (s : Sys) (b : ℕ) (v : Block) (t : Sys) : Type 0 where
  pub same_log : (t.start ≡ s.start) × (t.size ≡ s.size)
  pub ready : Ready t
  pub distinct : Distinct t.log
  pub cached : t.cached ≡ update s.cached b v
  pub disk : (t.disk ≡ s.disk) × (t.history ≡ s.history)

module _ (s t : Sys) (b : ℕ) (v : Block) (ready : Ready s) (out : Outside s.start s.size b)
    (spare : b ≢ 1) (w : Writes (record s { store = fill s.store b v }) b t) where
  r : Records s.log b t.log
  r = rw w.log (record_block-Records s.log b)

  write-Layout : Layout t.start t.size t.n t.block
  write-Layout = record {
    fits = ground (arith, w.room, r.kept, r.grows);
    homes = λ i below. ground (arith, r.kept, r.only i below, r.old i, ready.layout.homes i);
    spared = λ i below e. ground (arith, r.only i below, r.old i, ready.layout.spared i);
  }

  write-pinned :
      (c : ℕ) → Outside t.start t.size c → (t.disk c ≡ t.cached c) ⊎ Pending t.n t.block 0 c
  write-pinned c o = elim (Bool-cases (b == c)) [
    | inl same ↦ let (i, below, at) = r.mine in inr (i, omega arith, below, ground arith)
    | inr other ↦ elim (ready.pinned c (ground (arith, r.kept))) [
      | inl e ↦ inl (rw w.store (rw other e))
      | inr (i, le, below, at) ↦ inr (i, le, omega (arith, r.grows), r.old i below ∙ at)
    ]
  ]

  write-Distinct : Distinct s.log → Distinct t.log
  write-Distinct d i j lt below e = elim (dec_lt j s.n) [
    | yes before ↦ d i j lt before (ground (arith, r.old i, r.old j))
    | no after ↦
        r.fresh (omega arith) i (omega (arith, r.grows))
          (ground (arith, r.only j below, r.old i, r.grows))
  ]

  write-Changes : Distinct s.log → Changes s b v t
  write-Changes d = record {
    same_log = (r.kept.0, r.kept.1);
    ready = record {
      layout = write-Layout;
      empty = rw (w.store, r.kept.0) ready.empty;
      pinned = write-pinned;
    };
    distinct = write-Distinct d;
    cached = rw w.store refl;
    disk = rw w.store (refl, refl);
  }

-- One change of a data block: the log stays ready to commit, with one entry for each block, and
-- exactly this block of the cache changes; the disk does not.
write_block-Changes :
    (s t : Sys) (b : ℕ) (v : Block)
    → Ready s
    → Distinct s.log
    → IsData s.start s.size (b, v)
    → write_block s b v ≡ some t
    → Changes s b v t
unfolding write_block
write_block-Changes s t b v ready d (out, spare) e =
    write-Changes s t b v ready out spare
      (log_write-Writes (record s { store = fill s.store b v }) t b e) d

-- The same of several changes.
pub record Transacts (s : Sys) (ws : List (ℕ × Block)) (t : Sys) : Type 0 where
  pub same_log : (t.start ≡ s.start) × (t.size ≡ s.size)
  pub ready : Ready t
  pub distinct : Distinct t.log
  pub cached : t.cached ≡ changed s.cached ws
  pub disk : (t.disk ≡ s.disk) × (t.history ≡ s.history)

Transacts-cons :
    {s u t : Sys} {b : ℕ} {v : Block} {ws : List (ℕ × Block)}
    → Changes s b v u
    → Transacts u ws t
    → Transacts s ((b, v) ∷ ws) t
unfolding changed
Transacts-cons {ws} c r = record {
  same_log = (r.same_log.0 ∙ c.same_log.0, r.same_log.1 ∙ c.same_log.1);
  ready = r.ready;
  distinct = r.distinct;
  cached = r.cached ∙ ap (λ m. changed m ws) c.cached;
  disk = (r.disk.0 ∙ c.disk.0, r.disk.1 ∙ c.disk.1);
}

write_blocks-Transacts :
    (s t : Sys) (ws : List (ℕ × Block))
    → Ready s
    → Distinct s.log
    → All (IsData s.start s.size) ws
    → write_blocks s ws ≡ some t
    → Transacts s ws t
unfolding write_blocks changed
write_blocks-Transacts s t [] ready d h e =
    let same : s ≡ t = cc in
    subst (Transacts s []) same (record {
      same_log = (refl, refl);
      ready = ready;
      distinct = d;
      cached = refl;
      disk = (refl, refl);
    })
write_blocks-Transacts s t ((b, v) ∷ ws) ready d h e = elim (Option-cases (write_block s b v)) [
  | inl fails ↦ absurd (cc (rw (fails, write_blocks) at e))
  | inr (u, first) ↦
      let c = write_block-Changes s u b v ready d h.0 first in
      Transacts-cons c (
        write_blocks-Transacts u t ws c.ready c.distinct
          (subst₂ (λ st sz. All (IsData st sz) ws) (sym c.same_log.0) (sym c.same_log.1) h.1)
          (rw (first, write_blocks) at e))
]

-- A transaction is all or nothing: if changes of data blocks succeed and the power fails at any
-- disk write of the commit after them, the next `initlog` succeeds and leaves the disk outside the
-- log as it was before the first change, or with every change made. Before the first change the log
-- was empty on the disk and had no block twice, and cache and disk differed at logged blocks only.
pub transaction_atomic :
    (s t : Sys) (ws : List (ℕ × Block))
    → Ready s
    → Distinct s.log
    → HasLog s.start s.size s.disk
    → s.history ≡ s.disk ∷ []
    → All (IsData s.start s.size) ws
    → write_blocks s ws ≡ some t
    → All
        (λ m. Restarts s.start s.size s.disk m ⊎ Restarts s.start s.size (changed s.cached ws) m)
        (commit t).history
transaction_atomic s t ws ready d has fresh data_blocks e =
    subst₂
      (λ st sz.
        All (λ m. Restarts st sz s.disk m ⊎ Restarts st sz (changed s.cached ws) m)
          (commit t).history)
      w.same_log.0 w.same_log.1
      (subst₂
        (λ old new.
          All (λ m. Restarts t.start t.size old m ⊎ Restarts t.start t.size new m)
            (commit t).history)
        w.disk.0 w.cached (commit_atomic t w.ready has_log (rw (w.disk.1, fresh, w.disk.0))))
  where
    w : Transacts s ws t
    w = write_blocks-Transacts s t ws ready d data_blocks e

    has_log : HasLog t.start t.size t.disk
    has_log =
        subst (HasLog t.start t.size) (sym w.disk.0)
          (subst₂ (λ st sz. HasLog st sz s.disk) (sym w.same_log.0) (sym w.same_log.1) has)
