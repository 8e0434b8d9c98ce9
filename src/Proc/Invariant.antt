-- ===== src/Proc/Invariant.antt =====
-- The invariant of the process table, and the steps that change no process's place in it.
use cs537_sp2021_dis.Base.{
  ℕ, ◌<◌, ◌≡◌, ◌≢◌, refl, sym, ◌∙◌, Bool, true, false, none, some, arith, ◌==◌, update, each-at,
  Bool-cases, inl, inr, lt→ltb, subst,
}
use cs537_sp2021_dis.Proc.{
  nproc, State, sleeping, runnable, running, zombie, is_unused, Chan, no_chan, proc_at, object,
  chan_eq, Proc, PTable, with_proc, wake, wakeup1,
}

-- The process can run, now or after a wakeup.
abbrev pub is_active : State → Bool
is_active sleeping = true
is_active runnable = true
is_active running = true
is_active _ = false

abbrev pub Live : Proc → Type 0
Live p = is_unused p.state ≡ false

-- The process of slot `i` is asleep in `wait`.
abbrev pub InWait : ℕ → Proc → Type 0
InWait i p = (p.state ≡ sleeping) × (p.chan ≡ proc_at i)

pub record HasParent (t : PTable) (i : ℕ) : Type 0 where
  pub slot : ℕ
  pub valid : slot < nproc
  pub at : (t.proc i).parent ≡ some slot
  pub active : is_active (t.proc slot).state ≡ true
  pub other : slot ≢ i

pub record IsTable (t : PTable) : Type 0 where
  -- init is there, and has no parent
  pub init_valid : t.initproc < nproc
  pub init_active : is_active (t.proc t.initproc).state ≡ true
  pub init_root : (t.proc t.initproc).parent ≡ none
  -- the pids of the processes are different, and below `nextpid`
  pub fresh : (i : ℕ) → i < nproc → Live (t.proc i) → (t.proc i).pid < t.nextpid
  pub unique :
      (i j : ℕ)
      → i < nproc
      → j < nproc
      → Live (t.proc i)
      → Live (t.proc j)
      → (t.proc i).pid ≡ (t.proc j).pid
      → i ≡ j
  -- everybody but init has a parent that can still call `wait`
  pub parents : (i : ℕ) → i < nproc → Live (t.proc i) → i ≢ t.initproc → HasParent t i
  -- no parent of a zombie is asleep in `wait`
  pub awake :
      (i j : ℕ)
      → i < nproc
      → j < nproc
      → (t.proc i).state ≡ zombie
      → (t.proc i).parent ≡ some j
      → ¬ InWait j (t.proc j)

-- The process keeps its place: its identity and its parent; it does not die and does not begin to
-- wait for a child.
pub record Keeps (i : ℕ) (p q : Proc) : Type 0 where
  pub pid : q.pid ≡ p.pid
  pub parent : q.parent ≡ p.parent
  pub live : Live q → Live p
  pub active : is_active p.state ≡ true → is_active q.state ≡ true
  pub dead : q.state ≡ zombie → p.state ≡ zombie
  pub waits : InWait i q → InWait i p

pub Keeps-refl : (i : ℕ) (p : Proc) → Keeps i p p
Keeps-refl i p = record {
  pid = refl;
  parent = refl;
  live = λ h. h;
  active = λ h. h;
  dead = λ h. h;
  waits = λ h. h;
}

-- Steps that keep every process in its place keep the invariant.
pub Keeps-IsTable :
    (t u : PTable)
    → u.nextpid ≡ t.nextpid
    → u.initproc ≡ t.initproc
    → ((i : ℕ) → i < nproc → Keeps i (t.proc i) (u.proc i))
    → IsTable t
    → IsTable u
Keeps-IsTable t u next init keeps v = record {
  init_valid = rw init v.init_valid;
  init_active = rw init ((keeps t.initproc v.init_valid).active v.init_active);
  init_root = rw init ((keeps t.initproc v.init_valid).parent ∙ v.init_root);
  fresh = λ i lt h. let k = keeps i lt in rw (next, k.pid) (v.fresh i lt (k.live h));
  unique = λ i j li lj hi hj e.
      let ki = keeps i li in
      let kj = keeps j lj in v.unique i j li lj (ki.live hi) (kj.live hj) (sym ki.pid ∙ e ∙ kj.pid);
  parents = λ i lt h ne.
      let k = keeps i lt in
      let p = v.parents i lt (k.live h) (λ e. ne (e ∙ sym init)) in
      record {
        slot = p.slot;
        valid = p.valid;
        at = k.parent ∙ p.at;
        active = (keeps p.slot p.valid).active p.active;
        other = p.other;
      };
  awake = λ i j li lj z at w.
      let ki = keeps i li in
      v.awake i j li lj (ki.dead z) (sym ki.parent ∙ at) ((keeps j lj).waits w);
}

-- A change of one process that keeps its place.
pub with_proc-IsTable :
    (t : PTable) (k : ℕ) (q : Proc) → Keeps k (t.proc k) q → IsTable t → IsTable (with_proc t k q)
with_proc-IsTable t k q keeps v = Keeps-IsTable t (with_proc t k q) refl refl at v
  where
    at : (i : ℕ) → i < nproc → Keeps i (t.proc i) (update t.proc k q i)
    at i lt = elim (Bool-cases (k == i)) [
      | inl same ↦
          let e : k ≡ i = ground arith in rw same (subst (λ j. Keeps j (t.proc j) q) e keeps)
      | inr other ↦ rw other (Keeps-refl i (t.proc i))
    ]

pub chan_eq→eq : (c d : Chan) → chan_eq c d ≡ true → c ≡ d
chan_eq→eq no_chan no_chan h = refl
chan_eq→eq (proc_at i) (proc_at j) h = ground arith
chan_eq→eq (object i) (object j) h = ground arith
chan_eq→eq no_chan (proc_at j) h = cc
chan_eq→eq no_chan (object j) h = cc
chan_eq→eq (proc_at i) no_chan h = cc
chan_eq→eq (proc_at i) (object j) h = cc
chan_eq→eq (object i) no_chan h = cc
chan_eq→eq (object i) (proc_at j) h = cc

pub wake-Keeps : (i : ℕ) (c : Chan) (p : Proc) → Keeps i p (wake c p)
unfolding wake
wake-Keeps i c p = record {
  pid = ground arith;
  parent = ground arith;
  live = ground arith;
  active = ground arith;
  dead = ground arith;
  waits = ground arith;
}

pub wakeup1-at :
    (t : PTable) (c : Chan) (i : ℕ) → i < nproc → (wakeup1 t c).proc i ≡ wake c (t.proc i)
unfolding wakeup1
wakeup1-at t c i lt = each-at nproc (wake c) t.proc i ∙ rw (lt→ltb i nproc lt)

pub wakeup1-IsTable : (t : PTable) (c : Chan) → IsTable t → IsTable (wakeup1 t c)
unfolding wakeup1
wakeup1-IsTable t c v =
    Keeps-IsTable t (wakeup1 t c) refl refl
      (λ i lt. rw (wakeup1-at t c i lt) (wake-Keeps i c (t.proc i))) v

-- After `wakeup1` nobody sleeps on the channel.
pub wakeup1-awake :
    (t : PTable) (i j : ℕ) → i < nproc → i ≡ j → ¬ InWait i ((wakeup1 t (proc_at j)).proc i)
unfolding wake
wakeup1-awake t i j lt same = rw (wakeup1-at t (proc_at j) i lt) (ground arith)
