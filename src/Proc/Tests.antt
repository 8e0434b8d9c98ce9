-- ===== src/Proc/Tests.antt =====
-- Three processes: init, a shell that init has started, and a child of the shell.
use cs537_sp2021_dis.Base.{
  ℕ, ◌<◌, ◌≡◌, ◌≢◌, refl, false, none, some, List, [], arith, ◌==◌, if◌then◌else◌, for_upto,
}
use cs537_sp2021_dis.Proc.{
  nproc, unused, running, sleeping, zombie, no_chan, proc_at, Proc, PTable, Effect, fork, exit,
  leave, wake_parent, wakeup1, wake, adopt, wait, reaped, kill,
}
use cs537_sp2021_dis.Proc.Invariant.{IsTable, InWait, Live, HasParent}
use cs537_sp2021_dis.Proc.Lifecycle.{fork-IsTable}
use cs537_sp2021_dis.Proc.Exit.{Left, exit-Left}
use cs537_sp2021_dis.Proc.Wait.{IsChild, WaitResult, wait-WaitResult, KillResult, kill-KillResult}
use cs537_sp2021_dis.Proc.Steps.{Reach, here, next, exits, Reach-IsTable, zombie_reaped}

abbrev empty : Proc
empty = record {
  sz = 0;
  pgdir = 0;
  kstack = 0;
  state = unused;
  pid = 0;
  parent = none;
  chan = no_chan;
  killed = false;
  ofile = λ _. 0;
  cwd = 0;
  name = [];
}

abbrev procs : ℕ → Proc
procs i =
    if i == 0
    then record empty { state = sleeping; chan = proc_at 0; pid = 1 }
    else if i == 1
    then record empty { state = running; pid = 2; parent = some 0 }
    else if i == 2
    then record empty { state = running; pid = 3; parent = some 1 }
    else empty

abbrev small : PTable
small = record { proc = procs; nextpid = 4; initproc = 0 }

small-parents : (i : ℕ) → i < nproc → Live (procs i) → i ≢ 0 → HasParent small i
small-parents i lt live ne = record {
  slot = if i == 2 then 1 else 0;
  valid = ground arith;
  at = ground arith;
  active = ground arith;
  other = ground arith;
}

small-IsTable : IsTable small
small-IsTable = record {
  init_valid = omega arith;
  init_active = refl;
  init_root = refl;
  fresh = λ i lt h. ground arith;
  unique = λ i j li lj hi hj e. ground arith;
  parents = small-parents;
  awake = λ i j li lj dead at w. ground arith;
}

fork-IsTable_example : IsTable (fork small 1 4096 8192).0
fork-IsTable_example = fork-IsTable small 1 4096 8192 small-IsTable (omega arith) refl (omega arith)

exit-Left_example :
    (u : PTable) × (effects : List Effect) × (exit small 1 ≡ some (u, effects)) × Left u 1
exit-Left_example = exit-Left small 1 small-IsTable (omega arith) refl (omega arith)

wait-WaitResult_example : WaitResult small 1 (wait small 1)
wait-WaitResult_example = wait-WaitResult small 1 small-IsTable (omega arith) refl

kill-KillResult_example :
    KillResult small 3 (kill small 3).0 (kill small 3).1 × IsTable (kill small 3).0
kill-KillResult_example = kill-KillResult small 3 small-IsTable

shell_left : PTable
shell_left = leave small 1

shell_exits : Reach small shell_left
unfolding shell_left exit
shell_exits = next here (exits 1 _ (omega arith, refl) refl)

shell_dead : (shell_left.proc 1).state ≡ zombie
unfolding shell_left leave wake_parent wakeup1 wake adopt for_upto
shell_dead = refl

Reach-IsTable_example : IsTable shell_left
Reach-IsTable_example = Reach-IsTable small-IsTable shell_exits

zombie_reaped_example :
    (cur : ℕ) × IsChild shell_left cur 1
    × (¬ InWait cur (shell_left.proc cur))
    × (pid : ℕ) × (u : PTable) × (effects : List Effect) × (wait shell_left cur
        ≡ reaped pid u effects)
    × WaitResult shell_left cur (reaped pid u effects)
zombie_reaped_example = zombie_reaped 1 small-IsTable shell_exits (omega arith) shell_dead
