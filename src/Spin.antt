-- ===== src/Spin.antt =====
-- xv6/spinlock.c on one processor: the interrupt flag, the depth of `pushcli`, and the locks. `panic`
-- is `none`, or `panics`. The names and the call stacks of the locks are left out.
pub mod Nesting
mod Tests
use cs537_sp2021_dis.Base.{
  ℕ, ◌+◌, ◌-◌, Bool, true, false, not, ◌&&◌, Option, none, some, ◌==◌, if◌then◌else◌,
}

-- The state of the processor: `FL_IF` of its flags, and the fields of `struct cpu`.
pub record Cpu : Type 0 where
  pub iflag : Bool
  pub ncli : ℕ
  pub intena : Bool

-- `cpu` is the index of the processor that holds the lock.
pub record SpinLock : Type 0 where
  pub locked : Bool
  pub cpu : Option ℕ

pub initlock : SpinLock
initlock = record { locked = false; cpu = none }

pub pushcli : Cpu → Cpu
pushcli c = record c {
  iflag = false;
  intena = if c.ncli == 0 then c.iflag else c.intena;
  ncli = c.ncli + 1;
}

-- A depth of 0 would become -1: the second panic.
pub popcli : Cpu → Option Cpu
popcli c =
    let n = c.ncli - 1 in
    if c.iflag
    then none
    else if c.ncli == 0
    then none
    else some (record c { ncli = n; iflag = if n == 0 && c.intena then true else c.iflag })

-- `lock->locked && lock->cpu == mycpu()`
abbrev pub held_by : ℕ → SpinLock → Bool
held_by me lk = lk.locked && elim lk.cpu [ none ↦ false | some c ↦ c == me ]

-- Whether the processor `me` holds the lock, and its state after `popcli`.
pub holding : ℕ → Cpu → SpinLock → Option (Bool × Cpu)
holding me c lk = elim (popcli (pushcli c)) [ none ↦ none | some c' ↦ some (held_by me lk, c') ]

pub data Acquired : Type 0 where
  panics : Acquired
  -- another processor holds the lock, and this one goes on trying
  spins : Cpu → Acquired
  got : Cpu → SpinLock → Acquired

pub acquire : ℕ → Cpu → SpinLock → Acquired
acquire me c lk = elim (holding me (pushcli c) lk) [
  | none ↦ panics
  | some (held, c') ↦
      if held
      then panics
      else if lk.locked
      then spins c'
      else got c' (record { locked = true; cpu = some me })
]

pub release : ℕ → Cpu → SpinLock → Option (Cpu × SpinLock)
release me c lk = elim (holding me c lk) [
  | none ↦ none
  | some (held, c1) ↦
      let popped = popcli c1 in
      if held
      then elim popped [ none ↦ none | some c2 ↦ some (c2, record { locked = false; cpu = none }) ]
      else none
]
