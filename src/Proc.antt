-- ===== src/Proc.antt =====
-- xv6/proc.c: the process table and its state machine. Each function is what runs under
-- `ptable.lock` between two calls of `sched`, with the unlocked code around it. What comes from
-- elsewhere is an argument (the page that `kalloc` gives, the page table that `copyuvm` makes, 0 for
-- failure), and calls into the other parts are returned as `Effect`s, in order. A pointer to a
-- process is its index in `ptable.proc`; `name` is the text before the NUL. Registers (`tf`, `context`) are left out.

pub mod Invariant
pub mod Lifecycle
pub mod Exit
pub mod Wait
pub mod Steps
mod Tests
use cs537_sp2021_dis.Base.{
  ℕ, zero, suc, ◌+◌, ◌%◌, ◌^◌, Bool, true, false, not, ◌&&◌, ◌||◌, Option, none, some, List, [],
  ◌∷◌, ◌++◌, ◌==◌, leb, if◌then◌else◌, update, for_upto, find_first, each,
}

-- xv6/param.h
abbrev pub nproc : ℕ
nproc = 64

abbrev pub nofile : ℕ
nofile = 16

pub data State : Type 0 where
  unused embryo sleeping runnable running zombie : State

abbrev pub is_unused : State → Bool
is_unused unused = true
is_unused _ = false

abbrev pub is_sleeping : State → Bool
is_sleeping sleeping = true
is_sleeping _ = false

abbrev pub is_runnable : State → Bool
is_runnable runnable = true
is_runnable _ = false

abbrev pub is_zombie : State → Bool
is_zombie zombie = true
is_zombie _ = false

-- An address to sleep on: none, that of a process, or any other.
pub data Chan : Type 0 where
  no_chan : Chan
  proc_at : ℕ → Chan
  object : ℕ → Chan

abbrev pub chan_eq : Chan → Chan → Bool
chan_eq no_chan no_chan = true
chan_eq (proc_at i) (proc_at j) = i == j
chan_eq (object i) (object j) = i == j
chan_eq _ _ = false

pub record Proc : Type 0 where
  pub sz : ℕ
  pub pgdir : ℕ
  pub kstack : ℕ
  pub state : State
  pub pid : ℕ
  pub parent : Option ℕ
  pub chan : Chan
  pub killed : Bool
  pub ofile : ℕ → ℕ
  pub cwd : ℕ
  pub name : List ℕ

-- `nextpid` is the 32 bits of an `int`.
pub record PTable : Type 0 where
  pub proc : ℕ → Proc
  pub nextpid : ℕ
  pub initproc : ℕ

abbrev pub with_proc : PTable → ℕ → Proc → PTable
with_proc t i p = record t { proc = update t.proc i p }

-- Calls into the other parts.
pub data Effect : Type 0 where
  kfrees freevms filedups idups filecloses iputs : ℕ → Effect

-- `p->parent == curproc`
abbrev pub is_child : Proc → ℕ → Bool
is_child p cur = elim p.parent [ none ↦ false | some j ↦ j == cur ]

-- The slot of a new process, if there is one and `kalloc` gave the page `kstack`.
pub allocproc : PTable → ℕ → PTable × Option ℕ
allocproc t kstack = elim (find_first (λ i. is_unused (t.proc i).state) nproc) [
  | none ↦ (t, none)
  | some i ↦
      let p = t.proc i in
      let t' : PTable = record t {
        proc = update t.proc i (record p {
          state = if kstack == 0 then unused else embryo;
          pid = t.nextpid;
          kstack = kstack;
        });
        nextpid = (t.nextpid + 1) % 2 ^ 32;
      } in
      (t', if kstack == 0 then none else some i)
]

-- `np->ofile[i] = filedup(curproc->ofile[i])` where there is a file
pub dup_files : ℕ → (ℕ → ℕ) → List Effect
dup_files zero ofile = []
dup_files (suc n) ofile =
    dup_files n ofile ++ (if ofile n == 0 then [] else filedups (ofile n) ∷ [])

-- `fork` by the process `cur` once `allocproc` has returned: the table, the child's pid or -1, and
-- the calls made. `pgdir` is the page table that `copyuvm` gives.
copy_process : ℕ → ℕ → PTable × Option ℕ → PTable × Option ℕ × List Effect
copy_process cur pgdir (t, none) = (t, none, [])
copy_process cur pgdir (t, some i) =
    let np = t.proc i in
    let curproc = t.proc cur in
    if pgdir == 0
    then (
      with_proc t i (record np { pgdir = 0; kstack = 0; state = unused }),
      none,
      kfrees np.kstack ∷ [],
    )
    else (
      with_proc t i (record np {
        pgdir = pgdir;
        sz = curproc.sz;
        parent = some cur;
        ofile = λ fd. if curproc.ofile fd == 0 then np.ofile fd else curproc.ofile fd;
        cwd = curproc.cwd;
        name = curproc.name;
        state = runnable;
      }),
      some np.pid,
      dup_files nofile curproc.ofile ++ (idups curproc.cwd ∷ []),
    )

-- `kstack` is the page that `kalloc` gives.
pub fork : PTable → ℕ → ℕ → ℕ → PTable × Option ℕ × List Effect
unfolding copy_process
fork t cur kstack pgdir = copy_process cur pgdir (allocproc t kstack)

-- One entry of `wakeup1`.
pub wake : Chan → Proc → Proc
wake c p = if is_sleeping p.state && chan_eq p.chan c then record p { state = runnable } else p

pub wakeup1 : PTable → Chan → PTable
unfolding wake
wakeup1 t c = record t { proc = each nproc (wake c) t.proc }

-- The body of the loop of `exit`: pass an abandoned child to init.
pub adopt : ℕ → ℕ → PTable → PTable
unfolding wakeup1
adopt cur i t =
    let p = t.proc i in
    let t' = with_proc t i (record p { parent = some t.initproc }) in
    if is_child p cur
    then (if is_zombie p.state then wakeup1 t' (proc_at t.initproc) else t')
    else t

pub close_files : ℕ → (ℕ → ℕ) → List Effect
close_files zero ofile = []
close_files (suc n) ofile =
    close_files n ofile ++ (if ofile n == 0 then [] else filecloses (ofile n) ∷ [])

-- `wakeup1(curproc->parent)`; init's null parent is no process's channel.
pub wake_parent : PTable → Option ℕ → PTable
unfolding wakeup1
wake_parent t none = t
wake_parent t (some j) = wakeup1 t (proc_at j)

-- The table that `exit` leaves to `sched`.
pub leave : PTable → ℕ → PTable
leave t cur =
    let p = t.proc cur in
    let closed =
      with_proc t cur
        (record p { ofile = λ fd. if leb nofile fd then p.ofile fd else 0; cwd = 0 }) in
    let adopted = for_upto nproc (adopt cur) (wake_parent closed p.parent) in
    with_proc adopted cur (record (adopted.proc cur) { state = zombie })

-- `exit` by `cur`, up to the call of `sched`; `none` is the panic of init.
pub exit : PTable → ℕ → Option (PTable × List Effect)
exit t cur =
    let p = t.proc cur in
    if cur == t.initproc
    then none
    else some (leave t cur, close_files nofile p.ofile ++ (iputs p.cwd ∷ []))

-- What one scan of `wait` comes to.
pub data Waited : Type 0 where
  -- the pid of a child that has exited
  reaped : ℕ → PTable → List Effect → Waited
  -- no children, or killed: -1
  no_child : Waited
  -- asleep on its own address; the scan is made again after a wakeup
  waits : PTable → Waited

-- The scan has come to a zombie child, or has come to the end, with or without children.
wait_scan : PTable → ℕ → Option ℕ → Option ℕ → Waited
wait_scan t cur (some i) child =
    let p = t.proc i in
    reaped p.pid
      (with_proc t i (record p {
        kstack = 0;
        pid = 0;
        parent = none;
        name = [];
        killed = false;
        state = unused;
      }))
      (kfrees p.kstack ∷ freevms p.pgdir ∷ [])
wait_scan t cur none none = no_child
wait_scan t cur none (some _) =
    let p = t.proc cur in
    if p.killed
    then no_child
    else waits (with_proc t cur (record p { chan = proc_at cur; state = sleeping }))

pub wait : PTable → ℕ → Waited
unfolding wait_scan
wait t cur =
    wait_scan t cur (find_first (λ i. is_child (t.proc i) cur && is_zombie (t.proc i).state) nproc)
      (find_first (λ i. is_child (t.proc i) cur) nproc)

-- `sleep` up to the call of `sched`, and after it.
pub sleep : PTable → ℕ → Chan → PTable
sleep t cur c = with_proc t cur (record (t.proc cur) { chan = c; state = sleeping })

pub sleep_return : PTable → ℕ → PTable
sleep_return t cur = with_proc t cur (record (t.proc cur) { chan = no_chan })

pub yield : PTable → ℕ → PTable
yield t cur = with_proc t cur (record (t.proc cur) { state = runnable })

-- The scheduler comes to the entry `i`: it switches to a runnable process.
pub schedule : PTable → ℕ → Option PTable
schedule t i =
    if is_runnable (t.proc i).state
    then some (with_proc t i (record (t.proc i) { state = running }))
    else none

-- The first entry with the pid, if the scan found one.
kill_at : PTable → Option ℕ → PTable × Bool
kill_at t none = (t, false)
kill_at t (some i) =
    let p = t.proc i in
    (
      with_proc t i
          (record p { killed = true; state = if is_sleeping p.state then runnable else p.state }),
      true,
    )

pub kill : PTable → ℕ → PTable × Bool
unfolding kill_at
kill t pid = kill_at t (find_first (λ i. (t.proc i).pid == pid) nproc)
