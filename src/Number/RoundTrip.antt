-- ===== src/Number/RoundTrip.antt =====
-- `atoi` reads what `printint` prints, and the buffer of `printint` is large enough.
use cs537_sp2021_dis.Base.{
  ℕ, zero, suc, ◌+◌, ◌-◌, ◌*◌, ◌/◌, ◌%◌, ◌^◌, ◌≤◌, ◌<◌, ◌≡◌, ◌≢◌, refl, ◌∙◌, ap, true, false,
  Option, some, List, [], ◌∷◌, arith, ℕ_discrete, dec_lt, ◌⊎◌, inl, inr, leb,
}
use cs537_sp2021_dis.Number.{digit, put_digits, put_sign, printint, atoi_from, atoi}

-- The numbers below `power base room` have at most `room` digits.
power : ℕ → ℕ → ℕ
power base zero = 1
power base (suc room) = base * power base room

put_digits_last :
    (room x : ℕ) (text : List ℕ)
    → x / 10 ≡ 0
    → put_digits (suc room) 10 x text ≡ some (digit (x % 10) ∷ text, room)
unfolding put_digits
put_digits_last room x text h = ground (arith, h)

put_digits_more :
    (room x : ℕ) (text : List ℕ)
    → x / 10 ≢ 0
    → put_digits (suc room) 10 x text ≡ put_digits room 10 (x / 10) (digit (x % 10) ∷ text)
unfolding put_digits
put_digits_more room x text h = ground (arith, h)

-- A digit that `atoi` reads.
atoi_from-digit :
    (n d : ℕ) (cs : List ℕ)
    → d < 10
    → atoi_from n (digit d ∷ cs) ≡ atoi_from ((n * 10 + d) % 2 ^ 32) cs
unfolding atoi_from
atoi_from-digit n d cs h =
    let value : n * 10 + digit d - b'0' ≡ n * 10 + d = ground (arith, h) in
    simp value (ground (arith, h))

-- The digits of `x` are printed before `text`, with `left` bytes left at least, and `atoi` reads
-- them as `x`.
abbrev Prints : ℕ → ℕ → List ℕ → Option (List ℕ × ℕ) → Type 0
Prints left x text r =
    (text' : List ℕ) × (room' : ℕ) × (r ≡ some (text', room'))
    × (left ≤ room')
    × (atoi_from 0 text' ≡ atoi_from x text)

more_room : (room x : ℕ) → x < power 10 (suc room) → x / 10 ≢ 0 → 0 < room
unfolding power
more_room zero x small more = absurd (more (omega (arith, small)))
more_room (suc room) x small more = omega arith

power_room : power 10 15 ≡ 1000000000000000
unfolding power
power_room = refl

put_digits-Prints :
    (digits left x : ℕ) (text : List ℕ)
    → 0 < digits
    → x < power 10 digits
    → x < 2 ^ 32
    → Prints left x text (put_digits (digits + left) 10 x text)
unfolding power
put_digits-Prints zero left x text some_digit small word = absurd (omega (arith, some_digit))
put_digits-Prints (suc digits) left x text some_digit small word =
    let same : suc digits + left ≡ suc (digits + left) = omega arith in
    rw same (elim (ℕ_discrete (x / 10) 0) [
      | yes last ↦
          let value : (0 * 10 + x % 10) % 2 ^ 32 ≡ x = omega (arith, last) in
          (
            digit (x % 10) ∷ text,
            digits + left,
            put_digits_last (digits + left) x text last,
            omega arith,
            atoi_from-digit 0 (x % 10) text (omega arith) ∙ ap (λ n. atoi_from n text) value,
          )
      | no more ↦
          let next = digit (x % 10) ∷ text in
          let value : (x / 10 * 10 + x % 10) % 2 ^ 32 ≡ x = omega (arith, word) in
          let (text', room', e, enough, reads) =
            put_digits-Prints digits left (x / 10) next (more_room digits x small more)
              (omega (arith, small)) (omega (arith, word)) in
          (
            text',
            room',
            put_digits_more (digits + left) x text more ∙ e,
            enough,
            reads
                ∙ atoi_from-digit (x / 10) (x % 10) text (omega arith)
                ∙ ap (λ n. atoi_from n text) value,
          )
    ])

printint_lem :
    (x : ℕ) (text : List ℕ) (room : ℕ)
    → x < 2 ^ 31
    → put_digits 16 10 x [] ≡ some (text, room)
    → printint x 10 true ≡ some text
unfolding printint put_sign
printint_lem x text room h e =
    let positive : leb (2 ^ 31) x ≡ false = ground (arith, h) in simp (positive, e) refl

printint-minus :
    (x : ℕ) (text : List ℕ) (room : ℕ)
    → 2 ^ 31 ≤ x
    → put_digits 16 10 (2 ^ 32 - x) [] ≡ some (text, suc room)
    → printint x 10 true ≡ some (b'-' ∷ text)
unfolding printint put_sign
printint-minus x text room h e =
    let negative : leb (2 ^ 31) x ≡ true = ground (arith, h) in simp (negative, e) refl

-- Text for an `int`: the number when it is not negative, and else `-` and its absolute value.
abbrev pub IsText : ℕ → List ℕ → Type 0
IsText x text =
    ((x < 2 ^ 31) × (atoi text ≡ x))
    ⊎ ((2 ^ 31 ≤ x) × (digits : List ℕ) × (text ≡ b'-' ∷ digits) × (atoi digits ≡ 2 ^ 32 - x))

printint-some :
    (x : ℕ) (text : List ℕ) (room : ℕ)
    → 2 ^ 31 ≤ x
    → 1 ≤ room
    → put_digits 16 10 (2 ^ 32 - x) [] ≡ some (text, room)
    → printint x 10 true ≡ some (b'-' ∷ text)
printint-some x text zero h some_room e = absurd (omega (arith, some_room))
printint-some x text (suc room) h some_room e = printint-minus x text room h e

-- For every `int`, `printint` in base 10 with a sign stays inside its buffer; `atoi` reads what it
-- printed as the number when that is not negative; else it printed `-` and then digits that `atoi`
-- reads as the absolute value.
pub printint-IsText :
    (x : ℕ) → x < 2 ^ 32 → (text : List ℕ) × (printint x 10 true ≡ some text) × IsText x text
unfolding atoi atoi_from
printint-IsText x h = elim (dec_lt x (2 ^ 31)) [
  | yes positive ↦
      let (text, room, e, enough, reads) =
        put_digits-Prints 15 1 x [] (omega arith) (omega (arith, h, power_room)) h in
      (text, printint_lem x text room positive e, inl (positive, reads))
  | no negative ↦
      let (text, room, e, enough, reads) =
        put_digits-Prints 15 1 (2 ^ 32 - x) [] (omega arith)
          (omega (arith, h, negative, power_room)) (omega (arith, negative)) in
      (
        b'-' ∷ text,
        printint-some x text room (omega (arith, negative)) enough e,
        inr (omega (arith, negative), text, refl, reads),
      )
]
