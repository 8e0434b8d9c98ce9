-- ===== src/Proc/Wait.antt =====
-- `wait`, `sleep` and `kill`, and the calls that only change who runs.
use cs537_sp2021_dis.Base.{
  subst, ℕ, ◌<◌, ◌≡◌, ◌≢◌, ◌⊎◌, refl, sym, Bool, true, false, ◌&&◌, Option, none, some, [], ◌∷◌,
  arith, ◌==◌, if◌then◌else◌, Bool-cases, inl, inr, Finds, find_first-Finds,
}
use cs537_sp2021_dis.Proc.{
  nproc, unused, sleeping, running, zombie, is_runnable, is_zombie, Proc, Chan, proc_at, object,
  PTable, with_proc, kfrees, freevms, is_child, Waited, reaped, no_child, waits, wait_scan, wait,
  sleep, sleep_return, yield, schedule, kill_at, kill,
}
use cs537_sp2021_dis.Proc.Invariant.{is_active, Live, InWait, HasParent, IsTable, with_proc-IsTable}
use cs537_sp2021_dis.Proc.Lifecycle.{vacate-IsTable}

abbrev pub IsChild : PTable → ℕ → ℕ → Type 0
IsChild t cur i = (t.proc i).parent ≡ some cur

-- An entry that is free for a new process, with nothing left of the old one.
pub record Released (p : Proc) : Type 0 where
  pub state : p.state ≡ unused
  pub pid : p.pid ≡ 0
  pub parent : p.parent ≡ none
  pub name : p.name ≡ []
  pub killed : p.killed ≡ false
  pub kstack : p.kstack ≡ 0

-- What each outcome of `wait` means.
abbrev pub WaitResult : PTable → ℕ → Waited → Type 0
WaitResult t cur (reaped pid u effects) =
    (i : ℕ) × (i < nproc)
    × IsChild t cur i
    × ((t.proc i).state ≡ zombie)
    × (pid ≡ (t.proc i).pid)
    × Released (u.proc i)
    × (effects ≡ kfrees (t.proc i).kstack ∷ freevms (t.proc i).pgdir ∷ [])
    × ((j : ℕ) → j ≢ i → u.proc j ≡ t.proc j)
    × IsTable u
WaitResult t cur no_child =
    ((i : ℕ) → i < nproc → IsChild t cur i → (t.proc i).state ≢ zombie)
    × (((i : ℕ) → i < nproc → ¬ IsChild t cur i) ⊎ ((t.proc cur).killed ≡ true))
WaitResult t cur (waits u) =
    ((i : ℕ) → i < nproc → IsChild t cur i → (t.proc i).state ≢ zombie)
    × ((i : ℕ) × (i < nproc) × IsChild t cur i)
    × ((t.proc cur).killed ≡ false)
    × InWait cur (u.proc cur)
    × IsTable u

-- A process that goes to sleep, on its own address only while no child is a zombie.
module _ (t : PTable) (cur : ℕ) (c : Chan) (v : IsTable t) (lt : cur < nproc)
    (active : is_active (t.proc cur).state ≡ true)
    (heard : c ≡ proc_at cur
      → (i : ℕ) → i < nproc
      → IsChild t cur i
      → (t.proc i).state ≢ zombie) where
  abbrev asleep : PTable
  asleep = with_proc t cur (record (t.proc cur) { chan = c; state = sleeping })

  asleep-parents : (i : ℕ) → i < nproc → Live (asleep.proc i) → i ≢ t.initproc → HasParent asleep i
  asleep-parents i li h other =
      let p = v.parents i li (ground arith) other in
      record {
        slot = p.slot;
        valid = p.valid;
        at = ground (arith, p.at);
        active = ground (arith, p.active);
        other = p.other;
      }

  asleep-IsTable : IsTable asleep
  asleep-IsTable = record {
    init_valid = v.init_valid;
    init_active = ground (arith, v.init_active);
    init_root = ground (arith, v.init_root);
    fresh = λ i li h. ground (arith, v.fresh i li);
    unique = λ i j li lj hi hj e. ground (arith, v.unique i j li lj);
    parents = asleep-parents;
    awake = λ i j li lj z at w. elim (Bool-cases (cur == j)) [
      | inl same ↦ heard (ground arith) i li (ground arith) (ground arith)
      | inr differs ↦ ground (arith, v.awake i j li lj)
    ];
  }

abbrev zombie_child : PTable → ℕ → ℕ → Bool
zombie_child t cur i = is_child (t.proc i) cur && is_zombie (t.proc i).state

scan-WaitResult :
    (t : PTable) (cur : ℕ) (found child : Option ℕ)
    → IsTable t
    → cur < nproc
    → is_active (t.proc cur).state ≡ true
    → Finds (zombie_child t cur) nproc found
    → Finds (λ i. is_child (t.proc i) cur) nproc child
    → WaitResult t cur (wait_scan t cur found child)
unfolding wait_scan
scan-WaitResult t cur (some i) child v lt active f g = (
  i,
  f.0,
  ground (arith, f.1),
  ground (arith, f.1),
  refl,
  record {
    state = ground arith;
    pid = ground arith;
    parent = ground arith;
    name = ground arith;
    killed = ground arith;
    kstack = ground arith;
  },
  refl,
  λ j ne. ground arith,
  vacate-IsTable t i _ t.nextpid v f.0 (ground (arith, f.1)) refl (omega arith),
)
scan-WaitResult t cur none none v lt active f g =
    (λ i li at z. ground (arith, f i li), inl (λ i li at. ground (arith, g i li)))
scan-WaitResult t cur none (some i) v lt active f g = elim (Bool-cases (t.proc cur).killed) [
  | inl dead ↦ rw dead (λ k lk at z. ground (arith, f k lk), inr dead)
  | inr alive ↦
      subst (λ b. WaitResult t cur (if b then no_child else waits dozing)) (sym alive)
        (
          λ k lk at z. ground (arith, f k lk),
          (i, g.0, ground (arith, g.1)),
          alive,
          (ground arith, ground arith),
          asleep-IsTable t cur (proc_at cur) v lt active (λ e k lk at z. ground (arith, f k lk)),
        )
]
  where
    dozing : PTable
    dozing = with_proc t cur (record (t.proc cur) { chan = proc_at cur; state = sleeping })

-- Where the table has zombies whose parent is the process, `wait` reaps one of them: it returns its pid,
-- frees its stack and its page table, and releases its entry: unused, with no pid, parent, name, stack
-- or kill mark; the other entries stay. Where it has none, `wait` fails if no entry has the process as
-- its parent or if the process is killed, and else the process sleeps on its own address. The table
-- stays well formed.
pub wait-WaitResult :
    (t : PTable) (cur : ℕ)
    → IsTable t
    → cur < nproc
    → is_active (t.proc cur).state ≡ true
    → WaitResult t cur (wait t cur)
unfolding wait
wait-WaitResult t cur v lt active =
    scan-WaitResult t cur _ _ v lt active (find_first-Finds (zombie_child t cur) nproc)
      (find_first-Finds (λ i. is_child (t.proc i) cur) nproc)

-- `sleep` on the address of an object.
pub sleep-IsTable :
    (t : PTable) (cur a : ℕ)
    → IsTable t
    → cur < nproc
    → is_active (t.proc cur).state ≡ true
    → IsTable (sleep t cur (object a))
unfolding sleep
sleep-IsTable t cur a v lt active = asleep-IsTable t cur (object a) v lt active (λ e. absurd (cc e))

pub sleep_return-IsTable : (t : PTable) (cur : ℕ) → IsTable t → IsTable (sleep_return t cur)
unfolding sleep_return
sleep_return-IsTable t cur v =
    with_proc-IsTable t cur _
      (record {
        pid = refl;
        parent = refl;
        live = λ h. h;
        active = λ h. h;
        dead = λ h. h;
        waits = λ w. absurd (cc w.1);
      })
      v

pub yield-IsTable :
    (t : PTable) (cur : ℕ) → IsTable t → is_active (t.proc cur).state ≡ true → IsTable (yield t cur)
unfolding yield
yield-IsTable t cur v active =
    with_proc-IsTable t cur _
      (record {
        pid = refl;
        parent = refl;
        live = λ h. ground arith;
        active = λ h. refl;
        dead = λ h. absurd (cc h);
        waits = λ w. absurd (cc w.0);
      })
      v

pub schedule-IsTable : (t u : PTable) (i : ℕ) → IsTable t → schedule t i ≡ some u → IsTable u
unfolding schedule
schedule-IsTable t u i v e = elim (Bool-cases (is_runnable (t.proc i).state)) [
  | inl ready ↦ subst IsTable (ground arith) (
      with_proc-IsTable t i (record (t.proc i) { state = running })
        (record {
          pid = refl;
          parent = refl;
          live = λ h. ground arith;
          active = λ h. refl;
          dead = λ h. absurd (cc h);
          waits = λ w. absurd (cc w.0);
        })
        v)
  | inr other ↦ absurd (ground arith)
]

-- What `kill` does to the first process with the pid: it is marked, and does not stay asleep.
abbrev pub KillResult : PTable → ℕ → PTable → Bool → Type 0
KillResult t pid u true =
    (i : ℕ) × (i < nproc)
    × ((t.proc i).pid ≡ pid)
    × ((u.proc i).killed ≡ true)
    × ((u.proc i).state ≢ sleeping)
    × ((j : ℕ) → j ≢ i → u.proc j ≡ t.proc j)
KillResult t pid u false = (u ≡ t) × ((i : ℕ) → i < nproc → (t.proc i).pid ≢ pid)

kill_at-KillResult :
    (t : PTable) (pid : ℕ) (found : Option ℕ)
    → Finds (λ i. (t.proc i).pid == pid) nproc found
    → KillResult t pid (kill_at t found).0 (kill_at t found).1
unfolding kill_at
kill_at-KillResult t pid none f = (refl, λ i li e. ground (arith, f i li))
kill_at-KillResult t pid (some i) f =
    (i, f.0, ground (arith, f.1), ground arith, λ e. ground arith, λ j ne. ground arith)

kill_at-IsTable : (t : PTable) (found : Option ℕ) → IsTable t → IsTable (kill_at t found).0
unfolding kill_at
kill_at-IsTable t none v = v
kill_at-IsTable t (some i) v =
    with_proc-IsTable t i _
      (record {
        pid = refl;
        parent = refl;
        live = λ h. ground arith;
        active = λ h. ground arith;
        dead = λ h. ground arith;
        waits = λ w. ground arith;
      })
      v

-- `kill` succeeds exactly when some entry has the pid; it marks one such process, which is then not
-- asleep, changes no other entry, and keeps the table well formed.
pub kill-KillResult :
    (t : PTable) (pid : ℕ)
    → IsTable t
    → KillResult t pid (kill t pid).0 (kill t pid).1 × IsTable (kill t pid).0
unfolding kill
kill-KillResult t pid v = (
  kill_at-KillResult t pid _ (find_first-Finds (λ i. (t.proc i).pid == pid) nproc),
  kill_at-IsTable t _ v,
)
