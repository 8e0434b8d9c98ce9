-- ===== src/Pipe/Ring.antt =====
-- The ring holds a queue of at most 512 bytes, also when the counters have wrapped.
use cs537_sp2021_dis.Base.{
  ℕ, zero, suc, ◌+◌, ◌-◌, ◌%◌, ◌^◌, ◌≤◌, ◌<◌, ◌≡◌, refl, ap, Bool, true, false, List, [], ◌∷◌, ◌++◌,
  ◌==◌, update, length, arith,
}
use cs537_sp2021_dis.Pipe.{Pipe, pipe_size, u32, put, is_full, is_empty, opened, pipeclose}

-- The `k` bytes of the ring from the index `i` on.
pub slots : (ℕ → ℕ) → ℕ → ℕ → List ℕ
slots ring i zero = []
slots ring i (suc k) = ring (i % pipe_size) ∷ slots ring (i + 1) k

-- `nwrite - nread`, as a uint
abbrev pub count : Pipe → ℕ
count p = (p.nwrite + 2 ^ 32 - p.nread) % 2 ^ 32

pub contents : Pipe → List ℕ
contents p = slots p.ring p.nread (count p)

pub record IsRing (p : Pipe) : Type 0 where
  pub read_word : p.nread < 2 ^ 32
  pub write_word : p.nwrite < 2 ^ 32
  pub bounded : count p ≤ pipe_size

slots-cong :
    (ring : ℕ → ℕ) (i j k : ℕ) → i % pipe_size ≡ j % pipe_size → slots ring i k ≡ slots ring j k
unfolding slots
slots-cong ring i j zero e = refl
slots-cong ring i j (suc k) e = rw (e, slots-cong ring (i + 1) (j + 1) k (omega arith))

-- A write just behind the last of `k` bytes.
slots-put :
    (ring : ℕ → ℕ) (i k j c : ℕ)
    → j ≡ (i + k) % pipe_size
    → k < pipe_size
    → slots (update ring j c) i (suc k) ≡ slots ring i k ++ (c ∷ [])
unfolding slots
slots-put ring i zero j c e lt = ground arith
slots-put ring i (suc k) j c e lt =
    let apart : (j == (i % pipe_size)) ≡ false = ground arith in
    rw (apart, slots-put ring (i + 1) k j c (omega arith) (omega arith))

count-taken :
    (p : Pipe)
    → IsRing p
    → is_empty p ≡ false
    → count p ≡ suc (count (record p { nread = u32 (p.nread + 1) }))
unfolding is_empty
count-taken p v some_left = ground arith

pub length-slots : (ring : ℕ → ℕ) (i k : ℕ) → length (slots ring i k) ≡ k
unfolding slots
length-slots ring i zero = refl
length-slots ring i (suc k) = ap suc (length-slots ring (i + 1) k)

count-lt : (p : Pipe) → IsRing p → is_full p ≡ false → count p < pipe_size
unfolding is_full
count-lt p v free = ground arith

count-put : (p : Pipe) (c : ℕ) → IsRing p → is_full p ≡ false → count (put p c) ≡ suc (count p)
unfolding put
count-put p c v free = omega (arith, count-lt p v free)

-- `put` on a ring that is not full appends a byte.
pub put-contents :
    (p : Pipe) (c : ℕ) → IsRing p → is_full p ≡ false → contents (put p c) ≡ contents p ++ (c ∷ [])
unfolding contents put
put-contents p c v free = rw (count-put p c v free) (
    slots-put p.ring p.nread (count p) (p.nwrite % pipe_size) c
      (omega (arith, v.read_word, v.write_word)) (count-lt p v free))

pub put-IsRing : (p : Pipe) (c : ℕ) → IsRing p → is_full p ≡ false → IsRing (put p c)
unfolding put
put-IsRing p c v free = omega (arith, count-lt p v free)

-- The byte that a read takes is the first of the contents.
abbrev pub taken : Pipe → Pipe
taken p = record p { nread = u32 (p.nread + 1) }

pub take-contents :
    (p : Pipe)
    → IsRing p
    → is_empty p ≡ false
    → contents p ≡ p.ring (p.nread % pipe_size) ∷ contents (taken p)
unfolding contents slots
take-contents p v some_left =
    rw (count-taken p v some_left, slots)
      (ap (◌∷◌ (p.ring (p.nread % pipe_size)))
        (slots-cong p.ring (p.nread + 1) (u32 (p.nread + 1)) (count (taken p)) (omega arith)))

pub taken-IsRing : (p : Pipe) → IsRing p → is_empty p ≡ false → IsRing (taken p)
unfolding is_empty
taken-IsRing p v some_left = ground arith

pub empty-contents : (p : Pipe) → IsRing p → is_empty p ≡ true → contents p ≡ []
unfolding contents is_empty slots
empty-contents p v e = let none_left : count p ≡ 0 = ground arith in rw (none_left, slots)

pub length-contents : (p : Pipe) → length (contents p) ≡ count p
unfolding contents
length-contents p = length-slots p.ring p.nread (count p)

pub opened-IsRing : (junk : ℕ → ℕ) → IsRing (opened junk)
unfolding opened
opened-IsRing junk = omega arith

pub opened-contents : (junk : ℕ → ℕ) → contents (opened junk) ≡ []
unfolding opened contents slots
opened-contents junk = refl

pub close-IsRing : (p : Pipe) (writable : Bool) → IsRing p → IsRing (pipeclose p writable).0
unfolding pipeclose
close-IsRing p true v = record {
  read_word = v.read_word;
  write_word = v.write_word;
  bounded = v.bounded;
}
close-IsRing p false v = record {
  read_word = v.read_word;
  write_word = v.write_word;
  bounded = v.bounded;
}

pub close-contents : (p : Pipe) (writable : Bool) → contents (pipeclose p writable).0 ≡ contents p
unfolding pipeclose contents
close-contents p true = refl
close-contents p false = refl
