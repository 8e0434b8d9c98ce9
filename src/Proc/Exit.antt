-- ===== src/Proc/Exit.antt =====
-- `exit` keeps the invariant: it passes the children on, and then nobody depends on the process.
use cs537_sp2021_dis.Base.{
  ℕ, suc, ◌<◌, ◌≡◌, ◌≢◌, refl, sym, ap, ◌∙◌, true, false, none, some, arith, ◌==◌, if◌then◌else◌,
  update, Bool-cases, inl, inr, subst, for_upto, for_upto_inv, each-at, leb, List, [], ◌∷◌, ◌++◌,
  fun_ext,
}
use cs537_sp2021_dis.Proc.{
  nproc, zombie, is_zombie, Chan, proc_at, Proc, PTable, with_proc, wake, wakeup1, Effect, is_child,
  adopt, wake_parent, leave, exit, nofile, close_files, iputs,
}
use cs537_sp2021_dis.Proc.Invariant.{
  is_active, Live, InWait, HasParent, IsTable, with_proc-IsTable, wakeup1-at, wakeup1-IsTable,
  wakeup1-awake, wake-Keeps,
}

-- The child `k` goes to init.
module _ (t : PTable) (k : ℕ) (v : IsTable t) (lt : k < nproc) (ne : k ≢ t.initproc)
    (heard : (t.proc k).state ≡ zombie → ¬ InWait t.initproc (t.proc t.initproc)) where
  abbrev reparented : PTable
  reparented = with_proc t k (record (t.proc k) { parent = some t.initproc })

  reparent-parents :
      (i : ℕ) → i < nproc → Live (reparented.proc i) → i ≢ t.initproc → HasParent reparented i
  reparent-parents i li h other = elim (Bool-cases (k == i)) [
    | inl same ↦ record {
      slot = t.initproc;
      valid = v.init_valid;
      at = ground arith;
      active = ground (arith, v.init_active);
      other = ground arith;
    }
    | inr differs ↦
        let p = v.parents i li (ground arith) other in
        record {
          slot = p.slot;
          valid = p.valid;
          at = ground (arith, p.at);
          active = ground (arith, p.active);
          other = p.other;
        }
  ]

  reparent-IsTable : IsTable reparented
  reparent-IsTable = record {
    init_valid = v.init_valid;
    init_active = ground (arith, v.init_active);
    init_root = ground (arith, v.init_root);
    fresh = λ i li h. ground (arith, v.fresh i li);
    unique = λ i j li lj hi hj e. ground (arith, v.unique i j li lj);
    parents = reparent-parents;
    awake = λ i j li lj z at w. ground (arith, v.awake i j li lj, heard);
  }

-- `cur` becomes a zombie.
module _ (t : PTable) (cur : ℕ) (v : IsTable t) (lt : cur < nproc) (ne : cur ≢ t.initproc)
    (active : is_active (t.proc cur).state ≡ true)
    (childless : (i : ℕ) → i < nproc → (t.proc i).parent ≢ some cur)
    (heard : (j : ℕ) → (t.proc cur).parent ≡ some j → ¬ InWait j (t.proc j)) where
  abbrev died : PTable
  died = with_proc t cur (record (t.proc cur) { state = zombie })

  die-parents : (i : ℕ) → i < nproc → Live (died.proc i) → i ≢ t.initproc → HasParent died i
  die-parents i li h other =
      let p = v.parents i li (ground arith) other in
      record {
        slot = p.slot;
        valid = p.valid;
        at = ground (arith, p.at);
        active = ground (arith, p.active, p.at, childless i li);
        other = p.other;
      }

  die-IsTable : IsTable died
  die-IsTable = record {
    init_valid = v.init_valid;
    init_active = ground (arith, v.init_active);
    init_root = ground (arith, v.init_root);
    fresh = λ i li h. ground (arith, v.fresh i li);
    unique = λ i j li lj hi hj e. ground (arith, v.unique i j li lj);
    parents = die-parents;
    awake = λ i j li lj z at w. ground (arith, v.awake i j li lj, heard j);
  }

-- Waking somebody and passing on a zombie commute.
wakeup1-with_proc :
    (t : PTable) (k : ℕ) (q : Proc) (c : Chan)
    → q.state ≡ zombie
    → wakeup1 (with_proc t k q) c ≡ with_proc (wakeup1 t c) k q
unfolding wakeup1 wake
wakeup1-with_proc t k q c dead =
    ap (λ f. record t { proc = f })
      (fun_ext λ j.
        ground
          (arith, each-at nproc (wake c) (update t.proc k q) j, each-at nproc (wake c) t.proc j))

-- The first `k` entries have been looked at.
record Adopting (cur parent k : ℕ) (t : PTable) : Type 0 where
  table : IsTable t
  active : is_active (t.proc cur).state ≡ true
  child_of : (t.proc cur).parent ≡ some parent
  heard : ¬ InWait parent (t.proc parent)
  init : cur ≢ t.initproc
  passed : (i : ℕ) → i < k → i < nproc → (t.proc i).parent ≢ some cur

module _ (cur parent k : ℕ) (t : PTable) (lt : k < nproc) (valid : parent < nproc)
    (a : Adopting cur parent k t) where
  child_other : is_child (t.proc k) cur ≡ true → (k ≢ cur) × (k ≢ t.initproc)
  child_other child = (
    λ e. ground (arith, a.child_of, (a.table.parents cur), self e),
    λ e. ground (arith, a.table.init_root),
  )
    where
      self : k ≡ cur → parent ≡ cur
      self e = ground (arith, a.child_of)

  skip_round : is_child (t.proc k) cur ≡ false → Adopting cur parent (suc k) t
  skip_round other = record {
    table = a.table;
    active = a.active;
    child_of = a.child_of;
    heard = a.heard;
    init = a.init;
    passed = λ i below li. ground (arith, a.passed i);
  }

  -- What is known of the table once the child has gone to init.
  given_round :
      is_child (t.proc k) cur ≡ true
      → ((t.proc k).state ≡ zombie → ¬ InWait t.initproc (t.proc t.initproc))
      → Adopting cur parent (suc k) (with_proc t k (record (t.proc k) { parent = some t.initproc }))
  given_round child heard = record {
    table = reparent-IsTable t k a.table lt (child_other child).1 heard;
    active = ground (arith, a.active, child_other child);
    child_of = ground (arith, a.child_of, child_other child);
    heard = ground (arith, a.heard);
    init = a.init;
    passed = λ i below li. ground (arith, a.passed i, a.init);
  }

wakeup1-Adopting :
    (cur parent k : ℕ) (t : PTable) (c : Chan)
    → cur < nproc
    → parent < nproc
    → Adopting cur parent k t
    → Adopting cur parent k (wakeup1 t c)
unfolding wakeup1
wakeup1-Adopting cur parent k t c lt valid a = record {
  table = wakeup1-IsTable t c a.table;
  active = rw (wakeup1-at t c cur lt) ((wake-Keeps cur c (t.proc cur)).active a.active);
  child_of =
      ap (λ (p : Proc). p.parent) (wakeup1-at t c cur lt)
      ∙ (wake-Keeps cur c (t.proc cur)).parent
      ∙ a.child_of;
  heard = λ w. a.heard (
      (wake-Keeps parent c (t.proc parent)).waits
        (subst (InWait parent) (wakeup1-at t c parent valid) w));
  init = a.init;
  passed = λ i below li e. a.passed i below li (
      sym (wake-Keeps i c (t.proc i)).parent
      ∙ sym (ap (λ (p : Proc). p.parent) (wakeup1-at t c i li))
      ∙ e);
}

wake-zombie : (c : Chan) (p : Proc) → p.state ≡ zombie → wake c p ≡ p
unfolding wake
wake-zombie c p dead = ground arith

module _ (cur parent k : ℕ) (t : PTable) (lt : k < nproc) (here : cur < nproc)
    (valid : parent < nproc) (a : Adopting cur parent k t) where
  zombie_round :
      is_child (t.proc k) cur ≡ true
      → (t.proc k).state ≡ zombie
      → Adopting cur parent (suc k) (
          wakeup1
            (with_proc t k (record (t.proc k) { parent = some t.initproc }))
            (proc_at t.initproc))
  unfolding wakeup1
  zombie_round child dead = subst (Adopting cur parent (suc k)) (sym same) (
      given_round cur parent k u lt valid
        (wakeup1-Adopting cur parent k t (proc_at t.initproc) here valid a) (rw e child)
        (λ _. wakeup1-awake t t.initproc t.initproc a.table.init_valid refl))
    where
      u : PTable
      u = wakeup1 t (proc_at t.initproc)

      e : u.proc k ≡ t.proc k
      e = wakeup1-at t (proc_at t.initproc) k lt ∙ wake-zombie (proc_at t.initproc) (t.proc k) dead

      same :
          wakeup1
            (with_proc t k (record (t.proc k) { parent = some t.initproc }))
            (proc_at t.initproc)
          ≡ with_proc u k (record (u.proc k) { parent = some u.initproc })
      same =
          wakeup1-with_proc t k (record (t.proc k) { parent = some t.initproc })
            (proc_at t.initproc) dead
          ∙ ap (λ (p : Proc). with_proc u k (record p { parent = some t.initproc })) (sym e)

adopt-Adopting :
    (cur parent : ℕ) (here : cur < nproc) (valid : parent < nproc)
    → (k : ℕ) (t : PTable) → k < nproc
    → Adopting cur parent k t
    → Adopting cur parent (suc k) (adopt cur k t)
unfolding adopt
adopt-Adopting cur parent here valid k t lt a = elim (Bool-cases (is_child (t.proc k) cur)) [
  | inr other ↦ rw other (skip_round cur parent k t lt valid a other)
  | inl child ↦ elim (Bool-cases (is_zombie (t.proc k).state)) [
    | inl dead ↦ rw (child, dead) (zombie_round cur parent k t lt here valid a child (ground arith))
    | inr alive ↦ rw (child, alive) (given_round cur parent k t lt valid a child (ground arith))
  ]
]

-- After the loop of `exit` nobody has `cur` for its parent, and its own parent has been woken.
adopted-Adopting :
    (t : PTable) (cur : ℕ) (j : HasParent t cur)
    → IsTable t
    → cur < nproc
    → is_active (t.proc cur).state ≡ true
    → cur ≢ t.initproc
    → Adopting cur j.slot nproc (for_upto nproc (adopt cur) (wakeup1 t (proc_at j.slot)))
unfolding wakeup1
adopted-Adopting t cur j v lt active ne =
    for_upto_inv (Adopting cur j.slot) (adopt cur) nproc
      (λ k u below a. adopt-Adopting cur j.slot lt j.valid k u below a) (wakeup1 t (proc_at j.slot))
      (record {
        table = wakeup1-IsTable t (proc_at j.slot) v;
        active =
            rw (wakeup1-at t (proc_at j.slot) cur lt)
              ((wake-Keeps cur (proc_at j.slot) (t.proc cur)).active active);
        child_of =
            ap (λ (p : Proc). p.parent) (wakeup1-at t (proc_at j.slot) cur lt)
            ∙ (wake-Keeps cur (proc_at j.slot) (t.proc cur)).parent
            ∙ j.at;
        heard = wakeup1-awake t j.slot j.slot j.valid refl;
        init = ne;
        passed = λ i below li. absurd (omega arith);
      })

-- What `exit` leaves behind.
pub record Left (u : PTable) (cur : ℕ) : Type 0 where
  pub table : IsTable u
  pub dead : (u.proc cur).state ≡ zombie
  pub childless : (i : ℕ) → i < nproc → (u.proc i).parent ≢ some cur

Adopting-Left :
    (cur parent : ℕ) (t : PTable)
    → cur < nproc
    → Adopting cur parent nproc t
    → Left (with_proc t cur (record (t.proc cur) { state = zombie })) cur
Adopting-Left cur parent t lt a = record {
  table =
      die-IsTable t cur a.table lt a.init a.active (λ i li. a.passed i li li)
        (λ j e.
          let same : parent ≡ j = cc a.child_of in subst (λ k. ¬ InWait k (t.proc k)) same a.heard);
  dead = ground arith;
  childless = λ i li. ground (arith, a.passed i li li);
}

abbrev files_closed : PTable → ℕ → Proc
files_closed t cur = record (t.proc cur) {
  ofile = λ fd. if leb nofile fd then (t.proc cur).ofile fd else 0;
  cwd = 0;
}

leave-Left :
    (t : PTable) (cur : ℕ)
    → IsTable t
    → cur < nproc
    → is_active (t.proc cur).state ≡ true
    → cur ≢ t.initproc
    → Left (leave t cur) cur
unfolding leave wake_parent wakeup1
leave-Left t cur v lt active ne =
    subst (λ o. Left (dead (wake_parent closed o)) cur) (sym j_at)
      (Adopting-Left cur j.slot _ lt
        (adopted-Adopting closed cur j table lt (ground (arith, active)) ne))
  where
    closed : PTable
    closed = with_proc t cur (files_closed t cur)

    dead : PTable → PTable
    dead u =
        let adopted = for_upto nproc (adopt cur) u in
        with_proc adopted cur (record (adopted.proc cur) { state = zombie })

    table : IsTable closed
    table =
        with_proc-IsTable t cur (files_closed t cur)
          (record {
            pid = refl;
            parent = refl;
            live = λ h. h;
            active = λ h. h;
            dead = λ h. h;
            waits = λ h. h;
          })
          v

    j : HasParent closed cur
    j = table.parents cur lt (ground (arith, active)) ne

    j_at : (t.proc cur).parent ≡ some j.slot
    j_at = ground (arith, j.at)

-- `exit` of a process other than init keeps the invariant, makes it a zombie, and leaves nobody with
-- it for a parent.
pub exit-Left :
    (t : PTable) (cur : ℕ)
    → IsTable t
    → cur < nproc
    → is_active (t.proc cur).state ≡ true
    → cur ≢ t.initproc
    → (u : PTable) × (effects : List Effect) × (exit t cur ≡ some (u, effects)) × Left u cur
unfolding exit
exit-Left t cur v lt active ne = (
  leave t cur,
  close_files nofile (t.proc cur).ofile ++ (iputs (t.proc cur).cwd ∷ []),
  ground arith,
  leave-Left t cur v lt active ne,
)

pub exit_init : (t : PTable) (cur : ℕ) → cur ≡ t.initproc → exit t cur ≡ none
unfolding exit
exit_init t cur e = ground arith
