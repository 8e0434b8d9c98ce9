-- ===== src/Log/Dirty.antt =====
-- `B_DIRTY` of xv6/bio.c in a transaction of xv6/log.c. `bget` takes a buffer without that flag for
-- another block, and `bread` reads the block again from the disk.
use cs537_sp2021_dis.Base.{
  ltb, ℕ, ◌≡◌, sym, inl, inr, arith, false, Bool-cases, ◌==◌, some, Option-cases, List, [], ◌∷◌,
  subst, for_upto_inv,
}
use cs537_sp2021_dis.Disk.{Block, Store, fill, bwrite}
use cs537_sp2021_dis.Log.{
  Sys, install_trans, install_block, write_log, log_block, write_head, clear_head, commit,
}
use cs537_sp2021_dis.Log.Write.{log_write-Writes}
use cs537_sp2021_dis.Log.Transaction.{write_block, write_blocks}

-- To read the block of a clean buffer again gives the same data.
abbrev pub CleanMatches : Store → Type 0
CleanMatches s = (b : ℕ) → s.dirty b ≡ false → s.cached b ≡ s.disk b

bwrite-fill-CleanMatches :
    (s : Store) (b : ℕ) (v : Block) → CleanMatches s → CleanMatches (bwrite (fill s b v) b)
bwrite-fill-CleanMatches s b v h c clean = elim (Bool-cases (b == c)) [
  | inl same ↦ let at : b ≡ c = ground arith in ground arith
  | inr other ↦ rw other (h c (rw other at clean))
]

install_trans-CleanMatches : (s : Sys) → CleanMatches s.store → CleanMatches (install_trans s).store
unfolding install_trans install_block
install_trans-CleanMatches s h =
    for_upto_inv (λ _ t. CleanMatches t) (install_block s.log) s.n
      (λ k t _. bwrite-fill-CleanMatches t _ _) s.store h

write_log-CleanMatches : (s : Sys) → CleanMatches s.store → CleanMatches (write_log s).store
unfolding write_log log_block
write_log-CleanMatches s h =
    for_upto_inv (λ _ t. CleanMatches t) (log_block s.log) s.n
      (λ k t _. bwrite-fill-CleanMatches t _ _) s.store h

write_head-CleanMatches : (s : Sys) → CleanMatches s.store → CleanMatches (write_head s).store
unfolding write_head
write_head-CleanMatches s = bwrite-fill-CleanMatches s.store s.start _

commit-CleanMatches : (s : Sys) → CleanMatches s.store → CleanMatches (commit s).store
unfolding commit clear_head
commit-CleanMatches s h = elim (Bool-cases (ltb 0 s.n)) [
  | inl some_blocks ↦ rw some_blocks (
      write_head-CleanMatches (clear_head (install_trans (write_head (write_log s)))) (
        install_trans-CleanMatches (write_head (write_log s))
          (write_head-CleanMatches (write_log s) (write_log-CleanMatches s h))))
  | inr no_block ↦ rw no_block h
]

write_block-CleanMatches :
    (s t : Sys) (b : ℕ) (v : Block)
    → CleanMatches s.store
    → write_block s b v ≡ some t
    → CleanMatches t.store
unfolding write_block
write_block-CleanMatches s t b v h e =
    let w = log_write-Writes (record s { store = fill s.store b v }) t b e in
    subst CleanMatches (sym w.store) (λ c clean. elim (Bool-cases (b == c)) [
      | inl same ↦ absurd (cc (rw same at clean))
      | inr other ↦ rw other (h c (rw other at clean))
    ])

-- During a transaction and after its commit a buffer without B_DIRTY has the data that the disk has
-- for its block, so that recycling it and reading the block again changes nothing: if this is so
-- before changes that succeed, it is so after them, and after the `commit` that follows.
pub write_blocks-CleanMatches :
    (s t : Sys) (ws : List (ℕ × Block))
    → CleanMatches s.store
    → write_blocks s ws ≡ some t
    → CleanMatches t.store × CleanMatches (commit t).store
unfolding write_blocks
write_blocks-CleanMatches s t [] h e =
    let same : s ≡ t = cc in
    subst (λ x. CleanMatches x.store × CleanMatches (commit x).store) same
      (h, commit-CleanMatches s h)
write_blocks-CleanMatches s t ((b, v) ∷ ws) h e = elim (Option-cases (write_block s b v)) [
  | inl fails ↦ absurd (cc (rw (fails, write_blocks) at e))
  | inr (u, first) ↦
      write_blocks-CleanMatches u t ws (write_block-CleanMatches s u b v h first)
        (rw (first, write_blocks) at e)
]
