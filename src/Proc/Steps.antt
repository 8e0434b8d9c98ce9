-- ===== src/Proc/Steps.antt =====
-- The processes as a transition system: any process that runs makes any call, and the scheduler
-- starts any runnable one. Calls run as wholes here; what runs outside `ptable.lock` in them touches
-- only the caller's own entry, or a child's that nobody else uses yet.
use cs537_sp2021_dis.Base.{ℕ_discrete, ℕ, ◌<◌, ◌≡◌, refl, some, List, arith, subst, true}
use cs537_sp2021_dis.Proc.{
  nproc, running, zombie, Chan, object, PTable, Effect, fork, exit, Waited, reaped, no_child, waits,
  wait, wakeup1, sleep, sleep_return, yield, schedule, kill,
}
use cs537_sp2021_dis.Proc.Invariant.{is_active, InWait, IsTable, wakeup1-IsTable, HasParent}
use cs537_sp2021_dis.Proc.Lifecycle.{HasPid, fork-IsTable}
use cs537_sp2021_dis.Proc.Exit.{exit-Left, exit_init}
use cs537_sp2021_dis.Proc.Wait.{
  WaitResult, wait-WaitResult, sleep-IsTable, sleep_return-IsTable, yield-IsTable, schedule-IsTable,
  kill-KillResult, IsChild,
}

-- The running process of slot `cur`.
abbrev pub Runs : PTable → ℕ → Type 0
Runs t cur = (cur < nproc) × ((t.proc cur).state ≡ running)

pub data Step (t u : PTable) : Type 0 where
  -- while `nextpid` has not come to the end of `int`
  forks :
      (cur kstack pgdir : ℕ) → Runs t cur → HasPid t → u ≡ (fork t cur kstack pgdir).0 → Step t u
  exits : (cur : ℕ) (effects : List Effect) → Runs t cur → exit t cur ≡ some (u, effects) → Step t u
  reaps :
      (cur pid : ℕ) (effects : List Effect)
      → Runs t cur
      → wait t cur ≡ reaped pid u effects
      → Step t u
  waits_on : (cur : ℕ) → Runs t cur → wait t cur ≡ waits u → Step t u
  sleeps : (cur a : ℕ) → Runs t cur → u ≡ sleep t cur (object a) → Step t u
  returns : (cur : ℕ) → Runs t cur → u ≡ sleep_return t cur → Step t u
  yields : (cur : ℕ) → Runs t cur → u ≡ yield t cur → Step t u
  wakes : (c : Chan) → u ≡ wakeup1 t c → Step t u
  kills : (pid : ℕ) → u ≡ (kill t pid).0 → Step t u
  schedules : (i : ℕ) → schedule t i ≡ some u → Step t u

pub data Reach (start : PTable) : PTable → Type 0 where
  here : Reach start start
  next : {t u : PTable} → Reach start t → Step t u → Reach start u

Runs-active : (t : PTable) (cur : ℕ) → Runs t cur → is_active (t.proc cur).state ≡ true
Runs-active t cur r = rw r.1

exits-IsTable :
    (t u : PTable) (cur : ℕ) (effects : List Effect)
    → IsTable t
    → Runs t cur
    → exit t cur ≡ some (u, effects)
    → IsTable u
exits-IsTable t u cur effects v r e = elim (ℕ_discrete cur t.initproc) [
  | yes same ↦ absurd (cc (exit_init t cur same))
  | no other ↦
      let (w, effs, done, left) = exit-Left t cur v r.0 (Runs-active t cur r) other in
      let same : w ≡ u = cc in subst IsTable same left.table
]

Step-IsTable : {t u : PTable} → Step t u → IsTable t → IsTable u
Step-IsTable {t} (forks cur kstack pgdir r pids e) v =
    rw e (fork-IsTable t cur kstack pgdir v r.0 (Runs-active t cur r) pids)
Step-IsTable {t} {u} (exits cur effects r e) v = exits-IsTable t u cur effects v r e
Step-IsTable {t} {u} (reaps cur pid effects r e) v =
    let w : WaitResult t cur (reaped pid u effects) =
      subst (WaitResult t cur) e (wait-WaitResult t cur v r.0 (Runs-active t cur r)) in
    w.8
Step-IsTable {t} {u} (waits_on cur r e) v =
    let w : WaitResult t cur (waits u) =
      subst (WaitResult t cur) e (wait-WaitResult t cur v r.0 (Runs-active t cur r)) in
    w.4
Step-IsTable {t} (sleeps cur a r e) v = rw e (sleep-IsTable t cur a v r.0 (Runs-active t cur r))
Step-IsTable {t} (returns cur r e) v = rw e (sleep_return-IsTable t cur v)
Step-IsTable {t} (yields cur r e) v = rw e (yield-IsTable t cur v (Runs-active t cur r))
Step-IsTable {t} (wakes c e) v = rw e (wakeup1-IsTable t c v)
Step-IsTable {t} (kills pid e) v = rw e (kill-KillResult t pid v).1
Step-IsTable {t} {u} (schedules i e) v = schedule-IsTable t u i v e

-- Let `nextpid` be a 32-bit `int`, and no `fork` be called once its next value would be no positive
-- `int`. In every table that the calls then reach from a well-formed one: init is alive, the pids of the
-- processes are different and below `nextpid`, every other process has a parent that can still call
-- `wait`, and the parent of a zombie is not asleep in `wait`.
pub Reach-IsTable : {start t : PTable} → IsTable start → Reach start t → IsTable t
Reach-IsTable v here = v
Reach-IsTable v (next r s) = Step-IsTable s (Reach-IsTable v r)

-- With a zombie child, only one outcome of `wait` is possible.
zombie_child_reaped :
    (t : PTable) (cur i : ℕ) (w : Waited)
    → i < nproc
    → IsChild t cur i
    → (t.proc i).state ≡ zombie
    → WaitResult t cur w
    → (pid : ℕ) × (u : PTable) × (effects : List Effect) × (w ≡ reaped pid u effects)
      × WaitResult t cur (reaped pid u effects)
zombie_child_reaped t cur i (reaped pid u effects) lt child dead h = (pid, u, effects, refl, h)
zombie_child_reaped t cur i no_child lt child dead h = absurd (h.0 i lt child dead)
zombie_child_reaped t cur i (waits u) lt child dead h = absurd (h.0 i lt child dead)

-- No exit goes unnoticed, as long as no `fork` is called once the next pid would be no positive `int`: in
-- every reachable table a zombie has a parent that is not asleep in
-- `wait`, and when that parent calls `wait`, the call returns the pid of a zombie child of it.
pub zombie_reaped :
    {start t : PTable} (i : ℕ)
    → IsTable start
    → Reach start t
    → i < nproc
    → (t.proc i).state ≡ zombie
    → (cur : ℕ) × IsChild t cur i
      × (¬ InWait cur (t.proc cur))
      × (pid : ℕ) × (u : PTable) × (effects : List Effect) × (wait t cur ≡ reaped pid u effects)
      × WaitResult t cur (reaped pid u effects)
zombie_reaped {start} {t} i init r lt dead =
    let done =
      zombie_child_reaped t p.slot i (wait t p.slot) lt p.at dead
        (wait-WaitResult t p.slot v p.valid p.active) in
    (p.slot, p.at, v.awake i p.slot lt p.valid dead p.at, done.0, done.1, done.2, done.3, done.4)
  where
    v : IsTable t
    v = Reach-IsTable init r

    p : HasParent t i
    p = v.parents i lt (ground arith) (λ e. ground (arith, v.init_active))
