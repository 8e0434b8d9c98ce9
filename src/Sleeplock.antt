-- ===== src/Sleeplock.antt =====
-- xv6/sleeplock.c. Each function is one critical section of `lk->lk`; `none` is a caller that sleeps
-- on the lock and tries again after a wakeup. Every change of the lock by `releasesleep` comes with a
-- `wakeup` of those who sleep on it.
pub mod Exclusion
mod Tests
use cs537_sp2021_dis.Base.{ℕ, Bool, true, false, ◌&&◌, Option, none, some, ◌==◌, if◌then◌else◌}

pub record SleepLock : Type 0 where
  pub locked : Bool
  pub pid : ℕ

pub initsleeplock : SleepLock
initsleeplock = record { locked = false; pid = 0 }

-- One test of the loop by the process `me`.
pub acquiresleep : ℕ → SleepLock → Option SleepLock
acquiresleep me lk = if lk.locked then none else some (record { locked = true; pid = me })

pub releasesleep : SleepLock → SleepLock
releasesleep lk = record { locked = false; pid = 0 }

pub holdingsleep : ℕ → SleepLock → Bool
holdingsleep me lk = lk.locked && (lk.pid == me)
