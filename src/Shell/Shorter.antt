-- ===== src/Shell/Shorter.antt =====
-- What the scanner leaves of a text: a token takes at least one character.
use cs537_sp2021_dis.Base.{
  ℕ, suc, ◌≤◌, ◌≡◌, refl, ◌⊎◌, inl, inr, true, false, ◌||◌, List, [], ◌∷◌, length, arith, is_in,
  ◌==◌, Bool-cases,
}
use cs537_sp2021_dis.Shell.{is_white, is_symbol, skip, span_word, token_at, gettoken, peek}
use cs537_sp2021_dis.Shell.Lex.{skip-cons}

-- What `skip` leaves is at the end, or begins with a character that is not white.
data Skipped (n : ℕ) : List ℕ → Type 0 where
  at_end : Skipped n []
  at_char : (c : ℕ) (s : List ℕ) → is_white c ≡ false → suc (length s) ≤ n → Skipped n (c ∷ s)

skip-Skipped : (n : ℕ) (s : List ℕ) → length s ≤ n → Skipped n (skip s)
unfolding skip
skip-Skipped n [] h = at_end
skip-Skipped n (c ∷ s) h = elim (Bool-cases (is_white c)) [
  | inl white ↦ rw white (skip-Skipped n s (omega (arith, h)))
  | inr other ↦ rw other (at_char c s other h)
]

span_word-length : (s : List ℕ) → length (span_word s).1 ≤ length s
unfolding span_word
span_word-length [] = omega arith
span_word-length (c ∷ s) = elim (Bool-cases (is_white c || is_symbol c)) [
  | inl ends ↦ rw ends (omega arith)
  | inr goes ↦ rw goes (omega (arith, span_word-length s))
]

span_word-char :
    (c : ℕ) (s : List ℕ)
    → is_white c ≡ false
    → is_symbol c ≡ false
    → length (span_word (c ∷ s)).1 ≤ length s
unfolding span_word
span_word-char c s h1 h2 = rw (h1, h2) (span_word-length s)

greater-length : (c : ℕ) (s : List ℕ) → c ≡ b'>' → length (token_at (c ∷ s)).2 ≤ length s
unfolding token_at
greater-length c [] e = rw e (omega arith)
greater-length c (d ∷ s) e = elim (Bool-cases (d == b'>')) [
  | inl two ↦ rw (e, two) (omega arith)
  | inr one ↦ rw (e, one) (omega arith)
]

token_at-char : (c : ℕ) (s : List ℕ) → is_white c ≡ false → length (token_at (c ∷ s)).2 ≤ length s
unfolding token_at
token_at-char c s h = elim (Bool-cases (c == b'>')) [
  | inl e ↦ greater-length c s (ground (arith, e))
  | inr other ↦ elim (Bool-cases (is_symbol c)) [
    | inl sy ↦ rw (sy, other) (omega arith)
    | inr letter ↦ rw (letter, other) (span_word-char c s h letter)
  ]
]

skip-length : (s : List ℕ) → length (skip s) ≤ length s
unfolding skip
skip-length [] = omega arith
skip-length (c ∷ s) = elim (Bool-cases (is_white c)) [
  | inl white ↦ rw white (omega (arith, skip-length s))
  | inr other ↦ rw other (omega arith)
]

token-within :
    (n c : ℕ) (s : List ℕ)
    → is_white c ≡ false
    → suc (length s) ≤ n
    → length (skip (token_at (c ∷ s)).2) ≤ n
token-within n c s h le = omega (arith, le, token_at-char c s h, skip-length (token_at (c ∷ s)).2)

token-shorter :
    (n : ℕ) (t : List ℕ)
    → Skipped n t
    → ((token_at t).0 ≡ 0) ⊎ (suc (length (skip (token_at t).2)) ≤ n)
unfolding token_at
token-shorter n [] at_end = inl refl
token-shorter n (c ∷ s) (at_char _ _ h le) =
    inr (omega (arith, le, token_at-char c s h, skip-length (token_at (c ∷ s)).2))

pub gettoken-shorter :
    (s : List ℕ) → ((gettoken s).0 ≡ 0) ⊎ (suc (length (gettoken s).2) ≤ length s)
unfolding gettoken
gettoken-shorter s = token-shorter (length s) (skip s) (skip-Skipped (length s) s (omega arith))

token-length : (n : ℕ) (t : List ℕ) → Skipped n t → length (skip (token_at t).2) ≤ n
unfolding token_at skip
token-length n [] at_end = omega arith
token-length n (c ∷ s) (at_char _ _ h le) = token-within n c s h le

pub gettoken-length : (s : List ℕ) → length (gettoken s).2 ≤ length s
unfolding gettoken
gettoken-length s = token-length (length s) (skip s) (skip-Skipped (length s) s (omega arith))

pub peek-length : (toks s : List ℕ) → length (peek toks s).1 ≤ length s
unfolding peek
peek-length toks s = skip-length s

peeked :
    (toks t : List ℕ) (n : ℕ)
    → Skipped n t
    → elim t [ [] ↦ false | c ∷ r ↦ is_in c toks ] ≡ true
    → suc (length (gettoken t).2) ≤ n
unfolding gettoken
peeked toks [] n at_end e = cc
peeked toks (c ∷ s) n (at_char _ _ h le) e =
    rw (skip-cons c s h) (omega (arith, le, token_at-char c s h, skip-length (token_at (c ∷ s)).2))

-- After a successful `peek`, a token is taken.
pub peek-shorter :
    (toks s : List ℕ)
    → (peek toks s).0 ≡ true
    → suc (length (gettoken (peek toks s).1).2) ≤ length s
unfolding peek
peek-shorter toks s e = peeked toks (skip s) (length s) (skip-Skipped (length s) s (omega arith)) e
