-- ===== src/Shell/Lex.antt =====
-- Tokens: what `skip`, `peek` and `gettoken` make of printed text.
use cs537_sp2021_dis.Base.{
  ℕ, ◌≡◌, refl, ap, Bool, true, false, List, [], ◌∷◌, ◌++◌, arith, All, is_in, ◌==◌,
}
use cs537_sp2021_dis.Shell.{is_white, is_symbol, skip, span_word, token_at, gettoken, peek}
use cs537_sp2021_dis.Shell.Print.{IsChar, IsWord, print_word, print_symbol}

-- No white space in front.
abbrev pub IsReady : List ℕ → Type 0
IsReady s = skip s ≡ s

-- The first character is one of `toks`.
abbrev pub head_in : List ℕ → List ℕ → Bool
head_in toks [] = false
head_in toks (c ∷ s) = is_in c toks

pub skip-cons : (c : ℕ) (s : List ℕ) → is_white c ≡ false → skip (c ∷ s) ≡ c ∷ s
unfolding skip
skip-cons c s h = rw h refl

pub skip-space : (s : List ℕ) → skip (32 ∷ s) ≡ skip s
unfolding skip
skip-space s = refl

pub skip-nil : skip [] ≡ []
unfolding skip
skip-nil = refl

head_lem : (toks s : List ℕ) → (elim s [ [] ↦ false | c ∷ r ↦ is_in c toks ]) ≡ head_in toks s
head_lem toks [] = refl
head_lem toks (c ∷ s) = refl

pub peek-IsReady : (toks s : List ℕ) → IsReady s → peek toks s ≡ (head_in toks s, s)
unfolding peek
peek-IsReady toks s h = rw h (ap (λ b. (b, s)) (head_lem toks s))

pub word-IsReady : (w k : List ℕ) → IsWord w → IsReady (print_word w k)
word-IsReady [] k h = absurd (h.0 refl)
word-IsReady (c ∷ w) k h = skip-cons c (w ++ 32 ∷ k) h.1.0.0

-- A word does not begin with a symbol.
pub word-head :
    (toks w k : List ℕ)
    → IsWord w
    → ((c : ℕ) → IsChar c → is_in c toks ≡ false)
    → head_in toks (print_word w k) ≡ false
word-head toks [] k h other = absurd (h.0 refl)
word-head toks (c ∷ w) k h other = other c h.1.0

span_word-print : (w k : List ℕ) → All IsChar w → span_word (print_word w k) ≡ (w, 32 ∷ k)
unfolding span_word
span_word-print [] k h = refl
span_word-print (c ∷ w) k h =
    rw (h.0.0, h.0.1) (ap (λ (p : List ℕ × List ℕ). (c ∷ p.0, p.1)) (span_word-print w k h.1))

token_at-word : (w k : List ℕ) → IsWord w → token_at (print_word w k) ≡ (b'a', w, 32 ∷ k)
unfolding token_at
token_at-word [] k h = absurd (h.0 refl)
token_at-word (c ∷ w) k h =
    let other : (c == b'>') ≡ false = ground (arith, h.1.0.1) in
    rw (h.1.0.1, other)
      (ap (λ (p : List ℕ × List ℕ). (b'a', p.0, p.1)) (span_word-print (c ∷ w) k h.1))

pub gettoken-word : (w k : List ℕ) → IsWord w → IsReady k → gettoken (print_word w k) ≡ (b'a', w, k)
unfolding gettoken
gettoken-word w k h r = rw (word-IsReady w k h, token_at-word w k h, skip-space k, r) refl

token_at-symbol :
    (c : ℕ) (k : List ℕ) → is_symbol c ≡ true → token_at (print_symbol c k) ≡ (c, [], 32 ∷ k)
unfolding token_at
token_at-symbol c k h = ground (arith, h)

pub symbol-IsReady : (c : ℕ) (k : List ℕ) → is_symbol c ≡ true → IsReady (c ∷ k)
symbol-IsReady c k h = skip-cons c k (ground (arith, h))

pub gettoken-symbol :
    (c : ℕ) (k : List ℕ) → is_symbol c ≡ true → IsReady k → gettoken (print_symbol c k) ≡ (c, [], k)
unfolding gettoken
gettoken-symbol c k h r =
    rw (symbol-IsReady c (32 ∷ k) h, token_at-symbol c k h, skip-space k, r) refl

token_at-append : (k : List ℕ) → token_at (b'>' ∷ print_symbol b'>' k) ≡ (b'+', [], 32 ∷ k)
unfolding token_at
token_at-append k = refl

pub gettoken-append :
    (k : List ℕ) → IsReady k → gettoken (b'>' ∷ print_symbol b'>' k) ≡ (b'+', [], k)
unfolding gettoken
gettoken-append k r =
    rw (symbol-IsReady b'>' (print_symbol b'>' k) refl, token_at-append k, skip-space k, r) refl

pub gettoken-nil : gettoken [] ≡ (0, [], [])
unfolding gettoken token_at skip
gettoken-nil = refl
