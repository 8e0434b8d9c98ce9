-- ===== src/Log.antt =====
-- xv6/log.c: the redo log. The state is `struct log` with the store under it; `panic` is `none`.
-- The spin lock `log.lock` is not part of the state: each function here is one critical section, or
-- the code that `committing` keeps the others out of. Numbers are below 2 ^ 31.

pub mod Header
pub mod Install
pub mod Recover
pub mod Commit
pub mod Crash
pub mod Write
pub mod Transaction
pub mod Reserve
pub mod Durable
pub mod Dirty
mod Tests
use cs537_sp2021_dis.Base.{
  ℕ, zero, suc, ◌+◌, ◌-◌, ◌*◌, Bool, true, false, ◌||◌, Option, none, some, ltb, leb, ◌==◌,
  if◌then◌else◌, update, for_upto,
}
use cs537_sp2021_dis.Disk.{Block, Store, bread, fill, bwrite}

-- xv6/param.h and xv6/fs.h
abbrev pub max_op_blocks : ℕ
max_op_blocks = 10

abbrev pub log_size : ℕ
log_size = max_op_blocks * 3

abbrev pub bsize : ℕ
bsize = 512

-- `struct log`; `n` and `block` are those of `log.lh`.
pub record Log : Type 0 where
  pub start : ℕ
  pub size : ℕ
  pub outstanding : ℕ
  pub committing : Bool
  pub dev : ℕ
  pub n : ℕ
  pub block : ℕ → ℕ

pub record Sys : Type 0 where
  pub log : Log
  pub open log use *
  pub store : Store
  pub open store use *

-- One round of `install_trans`: copy the log block to its home.
pub install_block : Log → ℕ → Store → Store
install_block l tail s =
    let lbuf = bread s (l.start + tail + 1) in
    let dst = l.block tail in bwrite (fill s dst lbuf) dst

pub install_trans : Sys → Sys
unfolding install_block
install_trans s = record s { store = for_upto s.n (install_block s.log) s.store }

-- A header block: the word 0 is `n`, the words from 1 on are `block`.
pub read_head : Sys → Sys
read_head s =
    let lh = bread s.store s.start in
    record s {
      log = record (s.log) {
        n = lh 0;
        block = for_upto (lh 0) (λ i block. update block i (lh (suc i))) s.block;
      };
    }

pub head_block : Log → Block → Block
head_block l buf = for_upto l.n (λ i hb. update hb (suc i) (l.block i)) (update buf 0 l.n)

pub write_head : Sys → Sys
unfolding head_block
write_head s =
    let buf = head_block s.log (bread s.store s.start) in
    record s { store = bwrite (fill s.store s.start buf) s.start }

pub clear_head : Sys → Sys
clear_head s = record s { log = record (s.log) { n = 0 } }

pub recover_from_log : Sys → Sys
unfolding read_head install_trans clear_head write_head
recover_from_log s = write_head (clear_head (install_trans (read_head s)))

-- The superblock is block 1; `nlog` is its word 3 and `logstart` its word 4.
pub initlog : ℕ → Sys → Option Sys
unfolding recover_from_log
initlog dev s =
    let sb = bread s.store 1 in
    if leb bsize (4 * (1 + log_size))
    then none
    else some (
        recover_from_log
          (record s { log = record (s.log) { start = sb 4; size = sb 3; dev = dev } }))

-- One pass of the loop: `none` means that the caller sleeps and tries again after a wakeup.
pub begin_op : Log → Option Log
begin_op l =
    if l.committing
    then none
    else if ltb log_size (l.n + (l.outstanding + 1) * max_op_blocks)
    then none
    else some (record l { outstanding = l.outstanding + 1 })

-- One round of `write_log`: copy the cached block to the log.
pub log_block : Log → ℕ → Store → Store
log_block l tail s =
    let to = l.start + tail + 1 in let from = bread s (l.block tail) in bwrite (fill s to from) to

pub write_log : Sys → Sys
unfolding log_block
write_log s = record s { store = for_upto s.n (log_block s.log) s.store }

pub commit : Sys → Sys
unfolding write_log write_head install_trans clear_head
commit s =
    let written = write_head (clear_head (install_trans (write_head (write_log s)))) in
    if ltb 0 s.n then written else s

-- The first critical section of `end_op`: the new state and `do_commit`. A count of 0 would become
-- -1 in the source, which is not 0: no commit follows.
pub end_op_enter : Log → Option (Log × Bool)
end_op_enter l =
    if l.committing
    then none
    else if l.outstanding == 1
    then some (record l { outstanding = 0; committing = true }, true)
    else some (record l { outstanding = l.outstanding - 1 }, false)

pub end_commit : Sys → Sys
end_commit s = record s { log = record (s.log) { committing = false } }

pub end_op : Sys → Option Sys
end_op s = elim (end_op_enter s.log) [
  | none ↦ none
  | some (l, do_commit) ↦
      let s' : Sys = record s { log = l } in some (if do_commit then end_commit (commit s') else s')
]

-- The loop of `log_write`: the first index below `n` that holds `b`, or `n`.
pub find_block : (ℕ → ℕ) → ℕ → ℕ → ℕ
find_block block zero b = 0
find_block block (suc n) b =
    let i = find_block block n b in if ltb i n then i else if block n == b then n else suc n

-- An entry for `b`, unless there is one: `block[n]` is written only when the scan found none.
pub record_block : Log → ℕ → Log
record_block l b =
    let i = find_block l.block l.n b in
    record l { block = update l.block i b; n = if i == l.n then suc l.n else l.n }

-- `log_write` on the buffer of block `b`.
unfoldable pub log_write : Sys → ℕ → Option Sys
log_write s b =
    if leb log_size s.n || leb (s.size - 1) s.n
    then none
    else if ltb s.outstanding 1
    then none
    else some (record s {
      log = record_block s.log b;
      store = record (s.store) { dirty = update s.dirty b true };
    })
