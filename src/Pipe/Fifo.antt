-- ===== src/Pipe/Fifo.antt =====
-- A pipe is a queue: what is read is what was written, in order, whatever sleeps come between.
use mathlib.Core.List.{append-nil, append_assoc}
use cs537_sp2021_dis.Base.{
  ℕ, zero, suc, ◌%◌, ◌≤◌, ◌≡◌, ◌≢◌, ◌⊎◌, refl, sym, ap, ◌∙◌, Bool, true, false, List, [], ◌∷◌, ◌++◌,
  not, ◌||◌, length, arith, Bool-cases, inl, inr,
}
use cs537_sp2021_dis.Pipe.{
  Pipe, pipe_size, put, is_full, is_empty, Written, wrote, broken, waits, pipewrite, read_bytes,
  Got, got, killed_read, waits_read, piperead,
}
use cs537_sp2021_dis.Pipe.Ring.{
  IsRing, contents, put-contents, put-IsRing, taken, take-contents, taken-IsRing, empty-contents,
}

-- `sent` went into the pipe `p`, which is now `q`; `rest` is left.
pub record Sends (p : Pipe) (bytes : List ℕ) (q : Pipe) (rest : List ℕ) : Type 0 where
  pub sent : List ℕ
  pub split : sent ++ rest ≡ bytes
  pub ring : IsRing q
  pub appended : contents q ≡ contents p ++ sent
  pub ends : (q.readopen ≡ p.readopen) × (q.writeopen ≡ p.writeopen)

-- What each outcome of a write means.
abbrev pub WriteResult : Bool → Pipe → List ℕ → Written → Type 0
WriteResult killed p bytes (wrote q) = Sends p bytes q []
WriteResult killed p bytes (broken q rest) =
    Sends p bytes q rest × (is_full q ≡ true) × ((p.readopen ≡ false) ⊎ (killed ≡ true))
WriteResult killed p bytes (waits q rest) =
    Sends p bytes q rest × (is_full q ≡ true) × (p.readopen ≡ true) × (killed ≡ false)

Sends-cons :
    {p q : Pipe} {c : ℕ} {bytes rest : List ℕ}
    → IsRing p
    → is_full p ≡ false
    → Sends (put p c) bytes q rest
    → Sends p (c ∷ bytes) q rest
unfolding put
Sends-cons {p} {q} {c} v free s = record {
  sent = c ∷ s.sent;
  split = ap (◌∷◌ c) s.split;
  ring = s.ring;
  appended =
      s.appended
      ∙ ap (λ xs. xs ++ s.sent) (put-contents p c v free)
      ∙ append_assoc (contents p) (c ∷ []) s.sent;
  ends = s.ends;
}

Sends-none : {p : Pipe} (bytes : List ℕ) → IsRing p → Sends p bytes p bytes
Sends-none bytes v = record {
  sent = [];
  split = refl;
  ring = v;
  appended = sym (append-nil _);
  ends = (refl, refl);
}

WriteResult-cons :
    (killed : Bool) (p : Pipe) (c : ℕ) (bytes : List ℕ) (r : Written)
    → IsRing p
    → is_full p ≡ false
    → WriteResult killed (put p c) bytes r
    → WriteResult killed p (c ∷ bytes) r
unfolding put
WriteResult-cons killed p c bytes (wrote q) v free h = Sends-cons v free h
WriteResult-cons killed p c bytes (broken q rest) v free h = (Sends-cons v free h.0, h.1, h.2)
WriteResult-cons killed p c bytes (waits q rest) v free h = (Sends-cons v free h.0, h.1, h.2, h.3)

-- Every run of `pipewrite` appends to the contents the bytes that it stores, the first ones and in
-- order: all of them when it returns; else the ring is full, and it gives up exactly when there is no
-- reader or the process is killed, and sleeps otherwise.
pub pipewrite-WriteResult :
    (killed : Bool) (p : Pipe) (bytes : List ℕ)
    → IsRing p
    → WriteResult killed p bytes (pipewrite killed p bytes)
unfolding pipewrite
pipewrite-WriteResult killed p [] v = Sends-none [] v
pipewrite-WriteResult killed p (c ∷ cs) v = elim (Bool-cases (is_full p)) [
  | inl full ↦ elim (Bool-cases (not p.readopen || killed)) [
    | inl gone ↦ rw (full, gone) (Sends-none (c ∷ cs) v, full, ground arith)
    | inr live ↦ rw (full, live) (Sends-none (c ∷ cs) v, full, ground arith, ground arith)
  ]
  | inr free ↦ rw free (
      WriteResult-cons killed p c cs (pipewrite killed (put p c) cs) v free
        (pipewrite-WriteResult killed (put p c) cs (put-IsRing p c v free)))
]

-- What `read_bytes` copies.
pub record Receives (p : Pipe) (n : ℕ) (bytes : List ℕ) (q : Pipe) : Type 0 where
  pub split : contents p ≡ bytes ++ contents q
  pub most : (length bytes ≡ n) ⊎ ((length bytes ≤ n) × (contents q ≡ []))
  pub ring : IsRing q
  pub ends : (q.readopen ≡ p.readopen) × (q.writeopen ≡ p.writeopen)

read_bytes-Receives :
    (p : Pipe) (n : ℕ) → IsRing p → Receives p n (read_bytes p n).0 (read_bytes p n).1
unfolding read_bytes
read_bytes-Receives p zero v = record {
  split = refl;
  most = inl refl;
  ring = v;
  ends = (refl, refl);
}
read_bytes-Receives p (suc n) v = elim (Bool-cases (is_empty p)) [
  | inl none_left ↦ rw none_left (record {
    split = refl;
    most = inr (omega arith, empty-contents p v none_left);
    ring = v;
    ends = (refl, refl);
  })
  | inr some_left ↦
      let r = read_bytes-Receives (taken p) n (taken-IsRing p v some_left) in
      rw some_left (record {
        split = take-contents p v some_left ∙ ap (◌∷◌ (p.ring (p.nread % pipe_size))) r.split;
        most = ground (arith, r.most);
        ring = r.ring;
        ends = r.ends;
      })
]

-- What each outcome of a read means.
abbrev pub ReadResult : Bool → Pipe → ℕ → Got → Type 0
ReadResult killed p n (got bytes q) =
    Receives p n bytes q × ((contents p ≢ []) ⊎ (p.writeopen ≡ false))
ReadResult killed p n killed_read = (contents p ≡ []) × (p.writeopen ≡ true) × (killed ≡ true)
ReadResult killed p n waits_read = (contents p ≡ []) × (p.writeopen ≡ true) × (killed ≡ false)

-- Every run of `piperead` that returns bytes takes the first of the contents, `n` of them or all;
-- it fails or sleeps only while the pipe is empty with a writer, by whether the process is killed.
pub piperead-ReadResult :
    (killed : Bool) (p : Pipe) (n : ℕ) → IsRing p → ReadResult killed p n (piperead killed p n)
unfolding piperead
piperead-ReadResult killed p n v = elim (Bool-cases (is_empty p)) [
  | inl none_left ↦ elim (Bool-cases p.writeopen) [
    | inl writer ↦ elim (Bool-cases killed) [
      | inl dead ↦ simp (none_left, writer, dead) (empty-contents p v none_left, refl, refl)
      | inr alive ↦ simp (none_left, writer, alive) (empty-contents p v none_left, refl, refl)
    ]
    | inr closed ↦ simp (none_left, closed) (read_bytes-Receives p n v, inr refl)
  ]
  | inr some_left ↦
      rw some_left (read_bytes-Receives p n v, inl (λ e. cc (take-contents p v some_left)))
]
