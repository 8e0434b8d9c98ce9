-- ===== src/Grep/Meaning.antt =====
-- What a pattern means, apart from how it is matched.
use cs537_sp2021_dis.Base.{ℕ, ◌≡◌, ◌≢◌, ◌⊎◌, List, [], ◌∷◌}

abbrev pub Accepts : ℕ → ℕ → Type 0
Accepts c t = (c ≡ b'.') ⊎ (c ≡ t)

-- The pattern goes on with a star.
abbrev pub Starred : List ℕ → Type 0
Starred [] = ⊥
Starred (s ∷ re) = s ≡ b'*'

-- The pattern matches at the beginning of the text.
pub data Here : List ℕ → List ℕ → Type 0 where
  done : {text : List ℕ} → Here [] text
  star_none : {c s : ℕ} {re text : List ℕ} → s ≡ b'*' → Here re text → Here (c ∷ s ∷ re) text
  star_more :
      {c s t : ℕ} {re ts : List ℕ}
      → s ≡ b'*'
      → Accepts c t
      → Here (c ∷ s ∷ re) ts
      → Here (c ∷ s ∷ re) (t ∷ ts)
  ending : {c : ℕ} → c ≡ b'$' → Here (c ∷ []) []
  char :
      {c t : ℕ} {re ts : List ℕ}
      → ¬ Starred re
      → ((c ≡ b'$') → re ≢ [])
      → Accepts c t
      → Here re ts
      → Here (c ∷ re) (t ∷ ts)

-- The pattern matches somewhere in the text.
pub data Somewhere (re : List ℕ) : List ℕ → Type 0 where
  at : {text : List ℕ} → Here re text → Somewhere re text
  later : {t : ℕ} {ts : List ℕ} → Somewhere re ts → Somewhere re (t ∷ ts)

-- A pattern that begins with `^` is to match at the beginning of the text.
abbrev pub Matches : List ℕ → List ℕ → Type 0
Matches [] text = Somewhere [] text
Matches (c ∷ re) text = ((c ≡ b'^') × Here re text) ⊎ ((c ≢ b'^') × Somewhere (c ∷ re) text)
