-- ===== src/Log/Reserve.antt =====
-- `begin_op` reserves log space: the operations in progress, each with the number of blocks that it
-- may still write, never run out of it.
use cs537_sp2021_dis.Base.{
  ℕ, suc, ◌+◌, ◌-◌, ◌*◌, ◌≤◌, ◌<◌, ◌≡◌, refl, ◌∙◌, ◌≢◌, arith, true, false, ltb, leb, ◌||◌, some,
  List, [], ◌∷◌, ◌++◌, update, All, length, length-append, ℕ_discrete, subst,
}
use cs537_sp2021_dis.Log.{
  Log, Sys, max_op_blocks, log_size, begin_op, end_op_enter, end_op, end_commit, commit, log_write,
  record_block,
}
use cs537_sp2021_dis.Log.Commit.{commit_fields}
use cs537_sp2021_dis.Log.Write.{Writes, log_write-Writes, Records, record_block-Records}

abbrev pub sum : List ℕ → ℕ
sum [] = 0
sum (x ∷ xs) = x + sum xs

sum-append : (xs ys : List ℕ) → sum (xs ++ ys) ≡ sum xs + sum ys
sum-append [] ys = omega arith
sum-append (x ∷ xs) ys = omega (arith, sum-append xs ys)

abbrev Small : List ℕ → Type 0
Small = All (λ k. k ≤ max_op_blocks)

sum-Small : (ops : List ℕ) → Small ops → sum ops ≤ length ops * max_op_blocks
sum-Small [] h = omega arith
sum-Small (k ∷ ops) h = omega (arith, h.0, sum-Small ops h.1)

Small-lower :
    (k : ℕ) (front back : List ℕ) → Small (front ++ (suc k ∷ back)) → Small (front ++ (k ∷ back))
Small-lower k [] back h = (omega (arith, h.0), h.1)
Small-lower k (x ∷ front) back h = (h.0, Small-lower k front back h.1)

Small-remove : (k : ℕ) (front back : List ℕ) → Small (front ++ (k ∷ back)) → Small (front ++ back)
Small-remove k [] back h = h.1
Small-remove k (x ∷ front) back h = (h.0, Small-remove k front back h.1)

-- The operations in progress, each with the blocks that it may still write. An operation writes at
-- most `max_op_blocks` blocks; here a step is a whole `begin_op` that does not wait, a `log_write`
-- or an `end_op`, so that a commit is over before the next step: while `committing` is set the
-- source lets nobody else take one.
pub data Step (s : Sys) (ops : List ℕ) (t : Sys) (after : List ℕ) : Type 0 where
  begins :
      (l : Log)
      → begin_op s.log ≡ some l
      → t ≡ record s { log = l }
      → after ≡ max_op_blocks ∷ ops
      → Step s ops t after
  writes :
      (b k : ℕ) (front back : List ℕ)
      → ops ≡ front ++ (suc k ∷ back)
      → log_write s b ≡ some t
      → after ≡ front ++ (k ∷ back)
      → Step s ops t after
  ends :
      (k : ℕ) (front back : List ℕ)
      → ops ≡ front ++ (k ∷ back)
      → end_op s ≡ some t
      → after ≡ front ++ back
      → Step s ops t after

pub data Reach (start : Sys) : Sys → List ℕ → Type 0 where
  here : Reach start start []
  next :
      {s t : Sys} {ops after : List ℕ}
      → Reach start s ops
      → Step s ops t after
      → Reach start t after

-- An idle log: nothing in progress, nothing logged.
abbrev pub IsIdle : Sys → Type 0
IsIdle s = (s.n ≡ 0) × (s.outstanding ≡ 0) × (s.committing ≡ false)

pub record Reserved (start s : Sys) (ops : List ℕ) : Type 0 where
  pub counted : s.outstanding ≡ length ops
  pub room : s.n + sum ops ≤ log_size
  pub small : Small ops
  pub free : s.committing ≡ false
  pub same_size : s.size ≡ start.size

begins-Reserved :
    (start s : Sys) (ops : List ℕ) (l : Log)
    → Reserved start s ops
    → begin_op s.log ≡ some l
    → Reserved start (record s { log = l }) (max_op_blocks ∷ ops)
unfolding begin_op
begins-Reserved start s ops l r e = record {
  counted = ground (arith, r.counted, r.free);
  room = ground (arith, r.counted, r.room, sum-Small ops r.small);
  small = (omega arith, r.small);
  free = ground (arith, r.free);
  same_size = ground (arith, r.same_size);
}

Writes-Reserved :
    (start s t : Sys) (b k : ℕ) (front back : List ℕ)
    → Reserved start s (front ++ (suc k ∷ back))
    → Writes s b t
    → Reserved start t (front ++ (k ∷ back))
unfolding record_block
Writes-Reserved start s t b k front back r w = record {
  counted = omega (
    arith,
    recorded.kept.2,
    r.counted,
    length-append front (suc k ∷ back),
    length-append front (k ∷ back),
  );
  room =
      omega (
        arith,
        recorded.grows,
        r.room,
        sum-append front (suc k ∷ back),
        sum-append front (k ∷ back),
      );
  small = Small-lower k front back r.small;
  free = rw w.log r.free;
  same_size = recorded.kept.1 ∙ r.same_size;
}
  where
    recorded : Records s.log b t.log
    recorded = rw w.log (record_block-Records s.log b)

-- The last operation commits.
abbrev last_op : Sys → Sys
last_op s = record s { log = record (s.log) { outstanding = 0; committing = true } }

end_op_last :
    (s : Sys)
    → s.committing ≡ false
    → s.outstanding ≡ 1
    → end_op s ≡ some (end_commit (commit (last_op s)))
unfolding end_op
end_op_last s free one = rw (entered, end_op)
  where
    entered : end_op_enter s.log ≡ some ((last_op s).log, true)
    entered = unfold end_op_enter in ground arith

abbrev one_less : Sys → Sys
one_less s = record s { log = record (s.log) { outstanding = s.outstanding - 1 } }

end_op_more : (s : Sys) → s.committing ≡ false → s.outstanding ≢ 1 → end_op s ≡ some (one_less s)
unfolding end_op
end_op_more s free more = rw (entered, end_op)
  where
    entered : end_op_enter s.log ≡ some ((one_less s).log, false)
    entered = unfold end_op_enter in ground arith

last-Reserved :
    (start s : Sys) (k : ℕ) (front back : List ℕ)
    → Reserved start s (front ++ (k ∷ back))
    → s.outstanding ≡ 1
    → Reserved start (end_commit (commit (last_op s))) (front ++ back)
unfolding end_commit
last-Reserved start s k front back r one = record {
  counted = omega (arith, c.1, alone);
  room = omega (arith, c.0, sum-Small (front ++ back) small, alone);
  small = small;
  free = refl;
  same_size = c.2 ∙ r.same_size;
}
  where
    c :
        ((commit (last_op s)).n ≡ 0)
        × ((commit (last_op s)).outstanding ≡ 0)
        × ((commit (last_op s)).size ≡ s.size)
        × ((commit (last_op s)).start ≡ s.start)
    c = commit_fields (last_op s)

    alone : length (front ++ back) ≡ 0
    alone = omega (arith, r.counted, length-append front (k ∷ back), length-append front back)

    small : Small (front ++ back)
    small = Small-remove k front back r.small

more-Reserved :
    (start s : Sys) (k : ℕ) (front back : List ℕ)
    → Reserved start s (front ++ (k ∷ back))
    → Reserved start (one_less s) (front ++ back)
more-Reserved start s k front back r = record {
  counted = omega (arith, r.counted, length-append front (k ∷ back), length-append front back);
  room = omega (arith, r.room, sum-append front (k ∷ back), sum-append front back);
  small = Small-remove k front back r.small;
  free = r.free;
  same_size = r.same_size;
}

ends-Reserved :
    (start s t : Sys) (k : ℕ) (front back : List ℕ)
    → Reserved start s (front ++ (k ∷ back))
    → end_op s ≡ some t
    → Reserved start t (front ++ back)
ends-Reserved start s t k front back r e = elim (ℕ_discrete s.outstanding 1) [
  | yes one ↦
      let same : end_commit (commit (last_op s)) ≡ t = cc (end_op_last s r.free one) in
      subst (λ u. Reserved start u (front ++ back)) same (last-Reserved start s k front back r one)
  | no more ↦
      let same : one_less s ≡ t = cc (end_op_more s r.free more) in
      subst (λ u. Reserved start u (front ++ back)) same (more-Reserved start s k front back r)
]

-- In every state that operations reach from an idle log, the logged blocks and those still to be
-- written by the operations in progress fit the log.
pub Reach-Reserved :
    {start s : Sys} {ops : List ℕ} → IsIdle start → Reach start s ops → Reserved start s ops
Reach-Reserved {start} idle here = record {
  counted = idle.1;
  room = omega (arith, idle.0);
  small = tt;
  free = idle.2;
  same_size = refl;
}
Reach-Reserved {start} idle (next r (begins l e to after)) =
    rw (to, after) (begins-Reserved start _ _ l (Reach-Reserved idle r) e)
Reach-Reserved {start} idle (next r (writes b k front back ops e after)) = rw after (
    Writes-Reserved start _ _ b k front back (subst (Reserved start _) ops (Reach-Reserved idle r))
      (log_write-Writes _ _ b e))
Reach-Reserved {start} idle (next r (ends k front back ops e after)) =
    rw after (
      ends-Reserved start _ _ k front back (subst (Reserved start _) ops (Reach-Reserved idle r)) e)

-- No operation runs out of log space: while one may still write a block, `log_write` succeeds, if
-- the log's `size` leaves room for the header beside `log_size` blocks.
pub log_write_reserved :
    {start s : Sys} (k b : ℕ) (front back : List ℕ)
    → IsIdle start
    → log_size < start.size
    → Reach start s (front ++ (suc k ∷ back))
    → (t : Sys) × (log_write s b ≡ some t)
unfolding log_write
log_write_reserved {start} {s} k b front back idle large r = (
  record s {
    log = record_block s.log b;
    store = record (s.store) { dirty = update s.dirty b true };
  },
  rw (small, in_op) refl,
)
  where
    v : Reserved start s (front ++ (suc k ∷ back))
    v = Reach-Reserved idle r

    small : (leb log_size s.n || leb (s.size - 1) s.n) ≡ false
    small = ground (arith, v.room, v.same_size, sum-append front (suc k ∷ back))

    in_op : ltb s.outstanding 1 ≡ false
    in_op = ground (arith, v.counted, length-append front (suc k ∷ back))
