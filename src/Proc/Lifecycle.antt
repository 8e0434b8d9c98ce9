-- ===== src/Proc/Lifecycle.antt =====
-- `fork`, `wait` and `exit` keep the invariant.
use cs537_sp2021_dis.Base.{
  ℕ, ◌+◌, ◌%◌, ◌^◌, ◌≤◌, ◌<◌, ◌≡◌, ◌≢◌, refl, sym, Bool, true, false, Option, none, some, arith,
  ◌==◌, if◌then◌else◌, update, update-update, Bool-cases, inl, inr, subst, Finds, find_first,
  find_first-Finds,
}
use cs537_sp2021_dis.Proc.{
  nproc, unused, embryo, runnable, is_unused, Proc, PTable, allocproc, fork,
}
use cs537_sp2021_dis.Proc.Invariant.{is_active, Live, HasParent, IsTable}

-- A process that nobody depends on gives its slot back, or an empty slot stays empty.
module _ (t : PTable) (k : ℕ) (q : Proc) (next : ℕ) (v : IsTable t) (lt : k < nproc)
    (idle : is_active (t.proc k).state ≡ false) (gone : q.state ≡ unused)
    (le : t.nextpid ≤ next) where
  abbrev pub vacated : PTable
  vacated = record t { proc = update t.proc k q; nextpid = next }

  vacate-parents :
      (i : ℕ) → i < nproc → Live (vacated.proc i) → i ≢ t.initproc → HasParent vacated i
  vacate-parents i li h ne =
      let p = v.parents i li (ground arith) ne in
      record {
        slot = p.slot;
        valid = p.valid;
        at = ground (arith, p.at);
        active = ground (arith, p.active);
        other = p.other;
      }

  pub vacate-IsTable : IsTable vacated
  vacate-IsTable = record {
    init_valid = v.init_valid;
    init_active = ground (arith, v.init_active);
    init_root = ground (arith, v.init_root, v.init_active);
    fresh = λ i li h. ground (arith, v.fresh i li);
    unique = λ i j li lj hi hj e. ground (arith, v.unique i j li lj);
    parents = vacate-parents;
    awake = λ i j li lj z at w. ground (arith, v.awake i j li lj);
  }

-- A new child of the running process `cur` in an empty slot.
module _ (t : PTable) (k cur : ℕ) (q : Proc) (v : IsTable t) (lt : k < nproc) (valid : cur < nproc)
    (empty : is_unused (t.proc k).state ≡ true) (active : is_active (t.proc cur).state ≡ true)
    (next : ℕ) (succ : next ≡ t.nextpid + 1) (state : q.state ≡ runnable) (pid : q.pid ≡ t.nextpid)
    (parent : q.parent ≡ some cur) where
  abbrev spawned : PTable
  spawned = record t { proc = update t.proc k q; nextpid = next }

  idle_slot : is_active (t.proc k).state ≡ false
  idle_slot = ground arith

  spawn-parents : (i : ℕ) → i < nproc → Live (spawned.proc i) → i ≢ t.initproc → HasParent spawned i
  spawn-parents i li h ne = elim (Bool-cases (k == i)) [
    | inl same ↦ record {
      slot = cur;
      valid = valid;
      at = ground arith;
      active = ground arith;
      other = ground (arith, idle_slot);
    }
    | inr other ↦
        let p = v.parents i li (ground arith) ne in
        record {
          slot = p.slot;
          valid = p.valid;
          at = ground (arith, p.at);
          active = ground (arith, p.active, idle_slot);
          other = p.other;
        }
  ]

  spawn-IsTable : IsTable spawned
  spawn-IsTable = record {
    init_valid = v.init_valid;
    init_active = ground (arith, v.init_active, idle_slot);
    init_root = ground (arith, v.init_root, v.init_active, idle_slot);
    fresh = λ i li h. ground (arith, succ, v.fresh i li);
    unique = λ i j li lj hi hj e. ground (arith, v.unique i j li lj, v.fresh i li, v.fresh j lj);
    parents = spawn-parents;
    awake = λ i j li lj z at w. ground (arith, v.awake i j li lj);
  }

-- The table after `allocproc`, whose slot is then written once more.
rewritten :
    (t : PTable) (k : ℕ) (p q : Proc) (next : ℕ)
    → IsTable (record t { proc = update t.proc k q; nextpid = next })
    → IsTable (record t { proc = update (update t.proc k p) k q; nextpid = next })
rewritten t k p q next =
    subst (λ f. IsTable (record t { proc = f; nextpid = next })) (sym (update-update t.proc k p q))

abbrev allocated : PTable → ℕ → ℕ → Proc
allocated t kstack i = record (t.proc i) {
  state = if kstack == 0 then unused else embryo;
  pid = t.nextpid;
  kstack = kstack;
}

abbrev alloc_table : PTable → ℕ → ℕ → PTable
alloc_table t kstack i = record t {
  proc = update t.proc i (allocated t kstack i);
  nextpid = (t.nextpid + 1) % 2 ^ 32;
}

allocproc-none :
    (t : PTable) (kstack : ℕ)
    → find_first (λ i. is_unused (t.proc i).state) nproc ≡ none
    → allocproc t kstack ≡ (t, none)
unfolding allocproc
allocproc-none t kstack e = rw (e, allocproc)

allocproc-some :
    (t : PTable) (kstack i : ℕ)
    → find_first (λ i. is_unused (t.proc i).state) nproc ≡ some i
    → allocproc t kstack ≡ (alloc_table t kstack i, if kstack == 0 then none else some i)
unfolding allocproc
allocproc-some t kstack i e = rw (e, allocproc)

-- The pids have not come to their end: the next one is an `int` too.
abbrev pub HasPid : PTable → Type 0
HasPid t = t.nextpid + 1 < 2 ^ 31

-- `fork` keeps the invariant, also when a page or a slot is lacking.
pub fork-IsTable :
    (t : PTable) (cur kstack pgdir : ℕ)
    → IsTable t
    → cur < nproc
    → is_active (t.proc cur).state ≡ true
    → HasPid t
    → IsTable (fork t cur kstack pgdir).0
unfolding fork
fork-IsTable t cur kstack pgdir v valid active pids =
    go (find_first test nproc) refl (find_first-Finds test nproc)
  where
    next : ℕ
    next = (t.nextpid + 1) % 2 ^ 32

    counts : next ≡ t.nextpid + 1
    counts = omega (arith, pids)

    test : ℕ → Bool
    test i = is_unused (t.proc i).state

    go :
        (r : Option ℕ)
        → find_first test nproc ≡ r
        → Finds test nproc r
        → IsTable (fork t cur kstack pgdir).0
    go none e f = rw (allocproc-none t kstack e) v
    go (some i) e f = elim (Bool-cases (kstack == 0)) [
      | inl lacking ↦
          rw (allocproc-some t kstack i e, lacking)
            (vacate-IsTable t i _ next v f.0 (ground (arith, f.1)) refl (omega (arith, counts)))
      | inr page ↦ elim (Bool-cases (pgdir == 0)) [
        | inl failed ↦
            rw (allocproc-some t kstack i e, page, failed)
              (rewritten t i _ _ next (
                vacate-IsTable t i _ next v f.0 (ground (arith, f.1)) refl (omega (arith, counts))))
        | inr copied ↦
            rw (allocproc-some t kstack i e, page, copied)
              (rewritten t i _ _ next (
                spawn-IsTable t i cur _ v f.0 valid (ground (arith, f.1)) active next counts refl
                  (ground arith) refl))
      ]
    ]
