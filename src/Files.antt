-- ===== src/Files.antt =====
-- xv6/file.c: the table of open files and its reference counts. A pointer to a file is its index in
-- `ftable.file`; `panic` is `none`. The lock is not part of the state: each change of the table is one
-- critical section, and what `fileclose` calls after it is returned as `Effect`s, in order.
pub mod Counts
mod Tests
use cs537_sp2021_dis.Base.{
  ℕ, ◌+◌, ◌-◌, Bool, Option, none, some, List, [], ◌∷◌, ltb, ◌==◌, if◌then◌else◌, update,
  find_first,
}

-- xv6/param.h
abbrev pub nfile : ℕ
nfile = 100

pub data FdType : Type 0 where
  fd_none fd_pipe fd_inode : FdType

-- `struct file`; `pipe` and `ip` are addresses.
pub record File : Type 0 where
  pub type : FdType
  pub ref : ℕ
  pub readable : Bool
  pub writable : Bool
  pub pipe : ℕ
  pub ip : ℕ
  pub off : ℕ

-- The calls that `fileclose` makes.
pub data Effect : Type 0 where
  pipecloses : ℕ → Bool → Effect
  begins ends : Effect
  iputs : ℕ → Effect

-- The new table and the index of the file, if one was free.
pub filealloc : (ℕ → File) → (ℕ → File) × Option ℕ
filealloc t = elim (find_first (λ i. (t i).ref == 0) nfile) [
  | none ↦ (t, none)
  | some i ↦ (update t i (record (t i) { ref = 1 }), some i)
]

pub filedup : (ℕ → File) → ℕ → Option (ℕ → File)
filedup t f =
    if ltb (t f).ref 1 then none else some (update t f (record (t f) { ref = (t f).ref + 1 }))

-- What the last reference to `ff` leaves to do.
pub teardown : FdType → File → List Effect
teardown fd_none ff = []
teardown fd_pipe ff = pipecloses ff.pipe ff.writable ∷ []
teardown fd_inode ff = begins ∷ iputs ff.ip ∷ ends ∷ []

pub fileclose : (ℕ → File) → ℕ → Option ((ℕ → File) × List Effect)
fileclose t f =
    let ref = (t f).ref - 1 in
    if ltb (t f).ref 1
    then none
    else if ltb 0 ref
    then some (update t f (record (t f) { ref = ref }), [])
    else some (update t f (record (t f) { ref = 0; type = fd_none }), teardown (t f).type (t f))
