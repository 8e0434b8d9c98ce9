-- ===== src/Pipe/Traffic.antt =====
-- A pipe over a whole history of calls, by any processes and in any order.
use mathlib.Core.List.{append-nil, append_assoc}
use cs537_sp2021_dis.Base.{
  ℕ, ◌-◌, ◌≡◌, sym, ap, ◌∙◌, Bool, true, false, if◌then◌else◌, List, [], ◌∷◌, ◌++◌, length,
  length-append, take, arith, suc,
}
use cs537_sp2021_dis.Pipe.{
  Pipe, Written, wrote, broken, waits, pipewrite, Got, got, killed_read, waits_read, piperead,
  opened, pipeclose,
}
use cs537_sp2021_dis.Pipe.Ring.{
  IsRing, contents, opened-IsRing, opened-contents, close-IsRing, close-contents,
}
use cs537_sp2021_dis.Pipe.Fifo.{
  Sends, WriteResult, pipewrite-WriteResult, ReadResult, piperead-ReadResult,
}

-- One run of a call, from its start or from a wakeup; the process may have been killed.
pub data Call : Type 0 where
  writes : Bool → List ℕ → Call
  reads : Bool → ℕ → Call
  closes : Bool → Call

-- The pipe, whether its page has been freed, the bytes that writers have stored so far, and those
-- that readers have received.
pub record Traffic : Type 0 where
  pub pipe : Pipe
  pub freed : Bool
  pub stored : List ℕ
  pub received : List ℕ

-- The bytes of `bytes` that are not left.
abbrev stored_of : List ℕ → List ℕ → List ℕ
stored_of bytes rest = take (length bytes - length rest) bytes

after_write : Traffic → List ℕ → Written → Traffic
after_write t bytes (wrote q) = record t { pipe = q; stored = t.stored ++ bytes }
after_write t bytes (broken q rest) = record t {
  pipe = q;
  stored = t.stored ++ stored_of bytes rest;
}
after_write t bytes (waits q rest) = record t {
  pipe = q;
  stored = t.stored ++ stored_of bytes rest;
}

after_read : Traffic → Got → Traffic
after_read t (got bytes q) = record t { pipe = q; received = t.received ++ bytes }
after_read t killed_read = t
after_read t waits_read = t

step : Traffic → Call → Traffic
step t (writes killed bytes) = after_write t bytes (pipewrite killed t.pipe bytes)
step t (reads killed n) = after_read t (piperead killed t.pipe n)
step t (closes writable) =
    let (q, _, free_page) = pipeclose t.pipe writable in record t { pipe = q; freed = free_page }

-- The calls from a state on. No call reaches a pipe whose page has been freed, as no file refers to it:
-- the history ends there.
unfoldable pub run : Traffic → List Call → Traffic
unfolding step after_write after_read
run t [] = t
run t (c ∷ cs) = let rest = run (step t c) cs in if t.freed then t else rest

pub record IsQueue (t : Traffic) : Type 0 where
  pub ring : IsRing t.pipe
  pub queue : t.stored ≡ t.received ++ contents t.pipe

take_exact : (xs ys : List ℕ) → take (length (xs ++ ys) - length ys) (xs ++ ys) ≡ xs
take_exact [] ys = let none_left : length ys - length ys ≡ 0 = omega arith in rw none_left
take_exact (x ∷ xs) ys =
    let more : length (x ∷ (xs ++ ys)) - length ys ≡ suc (length (xs ++ ys) - length ys) =
      omega (arith, length-append xs ys) in
    rw more (ap (◌∷◌ x) (take_exact xs ys))

stored-IsQueue :
    (t : Traffic) (bytes : List ℕ) (q : Pipe) (rest : List ℕ)
    → IsQueue t
    → Sends t.pipe bytes q rest
    → IsQueue (record t { pipe = q; stored = t.stored ++ stored_of bytes rest })
stored-IsQueue t bytes q rest v s = record {
  ring = s.ring;
  queue =
      ap (◌++◌ t.stored) (ap (λ b. stored_of b rest) (sym s.split) ∙ take_exact s.sent rest)
      ∙ ap (λ xs. xs ++ s.sent) v.queue
      ∙ append_assoc t.received (contents t.pipe) s.sent
      ∙ ap (◌++◌ t.received) (sym s.appended);
}

after_write-IsQueue :
    (killed : Bool) (t : Traffic) (bytes : List ℕ) (r : Written)
    → IsQueue t
    → WriteResult killed t.pipe bytes r
    → IsQueue (after_write t bytes r)
unfolding after_write
after_write-IsQueue killed t bytes (wrote q) v h = record {
  ring = h.ring;
  queue =
      ap (λ xs. xs ++ bytes) v.queue
      ∙ append_assoc t.received (contents t.pipe) bytes
      ∙ ap (◌++◌ t.received)
          (ap (◌++◌ (contents t.pipe)) (sym h.split ∙ append-nil h.sent) ∙ sym h.appended);
}
after_write-IsQueue killed t bytes (broken q rest) v h = stored-IsQueue t bytes q rest v h.0
after_write-IsQueue killed t bytes (waits q rest) v h = stored-IsQueue t bytes q rest v h.0

after_read-IsQueue :
    (killed : Bool) (t : Traffic) (n : ℕ) (r : Got)
    → IsQueue t
    → ReadResult killed t.pipe n r
    → IsQueue (after_read t r)
unfolding after_read
after_read-IsQueue killed t n (got bytes q) v h = record {
  ring = h.0.ring;
  queue =
      v.queue ∙ ap (◌++◌ t.received) h.0.split ∙ sym (append_assoc t.received bytes (contents q));
}
after_read-IsQueue killed t n killed_read v h = v
after_read-IsQueue killed t n waits_read v h = v

step-IsQueue : (t : Traffic) (c : Call) → IsQueue t → IsQueue (step t c)
unfolding step
step-IsQueue t (writes killed bytes) v =
    after_write-IsQueue killed t bytes (pipewrite killed t.pipe bytes) v
      (pipewrite-WriteResult killed t.pipe bytes v.ring)
step-IsQueue t (reads killed n) v =
    after_read-IsQueue killed t n (piperead killed t.pipe n) v
      (piperead-ReadResult killed t.pipe n v.ring)
step-IsQueue t (closes writable) v = record {
  ring = close-IsRing t.pipe writable v.ring;
  queue = v.queue ∙ ap (◌++◌ t.received) (sym (close-contents t.pipe writable));
}

either-IsQueue :
    (ended : Bool) (t u : Traffic) → IsQueue t → IsQueue u → IsQueue (if ended then t else u)
either-IsQueue false t u v w = w
either-IsQueue true t u v w = v

run-IsQueue : (t : Traffic) (cs : List Call) → IsQueue t → IsQueue (run t cs)
unfolding run
run-IsQueue t [] v = v
run-IsQueue t (c ∷ cs) v =
    either-IsQueue t.freed t (run (step t c) cs) v (run-IsQueue (step t c) cs (step-IsQueue t c v))

-- After any calls on a new pipe, until its page is freed, the bytes that the writers stored are
-- those that the readers have received followed by the contents of the ring, in this order: none is
-- lost, doubled or reordered.
pub pipe_fifo :
    (junk : ℕ → ℕ) (cs : List Call)
    → let t = run (record { pipe = opened junk; freed = false; stored = []; received = [] }) cs in
      t.stored ≡ t.received ++ contents t.pipe
pipe_fifo junk cs =
    (run-IsQueue _ cs
      (record { ring = opened-IsRing junk; queue = sym (opened-contents junk) })).queue
