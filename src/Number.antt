-- ===== src/Number.antt =====
-- Numbers as text: `printint` of xv6/printf.c and `atoi` of xv6/ulib.c. An `int` is its 32 bits, so
-- it is negative from 2 ^ 31 on; text is the list of the characters, without the NUL. `none` is a
-- write beyond the end of `buf`.
pub mod RoundTrip
mod Tests
use cs537_sp2021_dis.Base.{
  ℕ, zero, suc, ◌+◌, ◌-◌, ◌*◌, ◌/◌, ◌%◌, ◌^◌, Bool, true, false, ◌&&◌, Option, none, some, List, [],
  ◌∷◌, ltb, leb, ◌==◌, if◌then◌else◌,
}

-- `digits[d]`, of "0123456789ABCDEF"
abbrev pub digit : ℕ → ℕ
digit d = if ltb d 10 then b'0' + d else b'A' + (d - 10)

-- The loop with `room` bytes left in `buf`. The buffer is printed from its end, so each digit goes in
-- front of those before it.
pub put_digits : ℕ → ℕ → ℕ → List ℕ → Option (List ℕ × ℕ)
put_digits zero base x text = none
put_digits (suc room) base x text =
    let text' = digit (x % base) ∷ text in
    let rest = put_digits room base (x / base) text' in
    if x / base == 0 then some (text', room) else rest

-- The sign, when there is room for it.
pub put_sign : Bool → Option (List ℕ × ℕ) → Option (List ℕ)
put_sign neg none = none
put_sign false (some (text, room)) = some text
put_sign true (some (text, zero)) = none
put_sign true (some (text, suc room)) = some (b'-' ∷ text)

-- The characters that `printint` writes.
pub printint : ℕ → ℕ → Bool → Option (List ℕ)
printint xx base sgn =
    let neg = sgn && leb (2 ^ 31) xx in
    put_sign neg (put_digits 16 base (if neg then 2 ^ 32 - xx else xx) [])

-- The loop of `atoi`; `int` arithmetic wraps.
pub atoi_from : ℕ → List ℕ → ℕ
atoi_from n [] = n
atoi_from n (c ∷ cs) =
    let rest = atoi_from ((n * 10 + c - b'0') % 2 ^ 32) cs in
    if leb b'0' c && leb c b'9' then rest else n

pub atoi : List ℕ → ℕ
atoi s = atoi_from 0 s
