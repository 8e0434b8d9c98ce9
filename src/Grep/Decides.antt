-- ===== src/Grep/Decides.antt =====
-- The matcher decides the meaning of the pattern, on every pattern and text.
use cs537_sp2021_dis.Base.{
  ℕ, ◌≡◌, ◌≢◌, ◌↔◌, refl, inl, inr, Bool, true, List, [], ◌∷◌, ℕ_discrete, arith, Bool-cases,
}
use cs537_sp2021_dis.Grep.{matchstar, matchchar, matchhere, match_from, match, is_end}
use cs537_sp2021_dis.Grep.Meaning.{
  Starred, Here, done, star_none, star_more, ending, char, Somewhere, at, later, Matches,
}

module _ (re : List ℕ) (here : List ℕ → Bool) where
  -- `here` decides matches of `re` at the beginning.
  abbrev Decides : Type 0
  Decides = (text : List ℕ) → (here text ≡ true) ↔ Here re text

  star_sound :
      (c s : ℕ) (text : List ℕ)
      → s ≡ b'*'
      → Decides
      → matchstar here c text ≡ true
      → Here (c ∷ s ∷ re) text
  unfolding matchstar
  star_sound c s [] e d h = star_none e ((d []).0 h)
  star_sound c s (t ∷ ts) e d h = elim (Bool-cases (here (t ∷ ts))) [
    | inl now ↦ star_none e ((d (t ∷ ts)).0 now)
    | inr not_yet ↦ star_more e (ground arith) (star_sound c s ts e d (ground arith))
  ]

  star_complete :
      (c s : ℕ) (text : List ℕ)
      → Decides
      → Here (c ∷ s ∷ re) text
      → s ≡ b'*'
      → matchstar here c text ≡ true
  unfolding matchstar
  star_complete c s [] d (star_none e h) star = (d []).1 h
  star_complete c s (t ∷ ts) d (star_none e h) star = ground (arith, (d (t ∷ ts)).1 h)
  star_complete c s (t ∷ ts) d (star_more e a h) star =
      ground (arith, star_complete c s ts d h star)
  star_complete c s (t ∷ ts) d (char ns ne a h) star = absurd (ns star)

  char_sound :
      (c : ℕ) (text : List ℕ)
      → ¬ Starred re
      → ((c ≡ b'$') → re ≢ [])
      → Decides
      → matchchar here c text ≡ true
      → Here (c ∷ re) text
  unfolding matchchar
  char_sound c [] ns ne d h = cc
  char_sound c (t ∷ ts) ns ne d h = char ns ne (ground arith) ((d ts).0 (ground arith))

  match_from_sound : (text : List ℕ) → Decides → match_from here text ≡ true → Somewhere re text
  unfolding match_from
  match_from_sound [] d h = at ((d []).0 h)
  match_from_sound (t ∷ ts) d h = elim (Bool-cases (here (t ∷ ts))) [
    | inl now ↦ at ((d (t ∷ ts)).0 now)
    | inr not_yet ↦ later (match_from_sound ts d (ground arith))
  ]

  match_from_complete : (text : List ℕ) → Decides → Somewhere re text → match_from here text ≡ true
  unfolding match_from
  match_from_complete [] d (at h) = (d []).1 h
  match_from_complete (t ∷ ts) d (at h) = ground (arith, (d (t ∷ ts)).1 h)
  match_from_complete (t ∷ ts) d (later h) = ground (arith, match_from_complete ts d h)

char_complete :
    (re : List ℕ) (here : List ℕ → Bool) (c : ℕ) (text : List ℕ)
    → ¬ Starred re
    → ((c ≡ b'$') → re ≢ [])
    → Decides re here
    → Here (c ∷ re) text
    → matchchar here c text ≡ true
unfolding matchchar
char_complete re here c text ns ne d (star_none e h) = absurd (ns e)
char_complete re here c text ns ne d (star_more e a h) = absurd (ns e)
char_complete re here c text ns ne d (ending e) = absurd (ne e refl)
char_complete re here c (t ∷ ts) ns ne d (char ns2 ne2 a h) = ground (arith, (d ts).1 h)

end_sound : (c : ℕ) (text : List ℕ) → c ≡ b'$' → is_end text ≡ true → Here (c ∷ []) text
end_sound c [] e h = ending e
end_sound c (t ∷ ts) e h = cc

end_complete : (c : ℕ) (text : List ℕ) → c ≡ b'$' → Here (c ∷ []) text → is_end text ≡ true
end_complete c [] e h = refl
end_complete c (t ∷ ts) e (char ns ne a h) = absurd (ne e refl)

matchhere-Here : (re : List ℕ) → Decides re (matchhere re)
unfolding matchhere
matchhere-Here [] text = (λ h. done, λ h. refl)
matchhere-Here (c ∷ []) text = elim (ℕ_discrete c b'$') [
  | yes dollar ↦ (
    λ h. end_sound c text dollar (ground arith),
    λ h. ground (arith, end_complete c text dollar h),
  )
  | no other ↦ (
    λ h.
        char_sound [] (matchhere []) c text (λ s. s) (λ e. absurd (other e)) (matchhere-Here [])
          (ground arith),
    λ h. ground (
      arith,
      char_complete [] (matchhere []) c text (λ s. s) (λ e. absurd (other e)) (matchhere-Here []) h,
    ),
  )
]
matchhere-Here (c ∷ s ∷ re) text = elim (ℕ_discrete s b'*') [
  | yes star ↦ (
    λ h. star_sound re (matchhere re) c s text star (matchhere-Here re) (ground arith),
    λ h. ground (arith, star_complete re (matchhere re) c s text (matchhere-Here re) h star),
  )
  | no other ↦ (
    λ h.
        char_sound (s ∷ re) (matchhere (s ∷ re)) c text other (λ e. λ f. cc)
          (matchhere-Here (s ∷ re)) (ground arith),
    λ h. ground (
      arith,
      char_complete (s ∷ re) (matchhere (s ∷ re)) c text other (λ e. λ f. cc)
          (matchhere-Here (s ∷ re)) h,
    ),
  )
]

match_from-Somewhere :
    (re text : List ℕ) → (match_from (matchhere re) text ≡ true) ↔ Somewhere re text
match_from-Somewhere re text = (
  match_from_sound re (matchhere re) text (matchhere-Here re),
  match_from_complete re (matchhere re) text (matchhere-Here re),
)

-- The matcher returns true exactly when the pattern matches the text: somewhere, or at its
-- beginning when the pattern begins with `^`; for every pattern and text.
pub match_decides : (re text : List ℕ) → (match re text ≡ true) ↔ Matches re text
unfolding match
match_decides [] text = match_from-Somewhere [] text
match_decides (c ∷ re) text = elim (ℕ_discrete c b'^') [
  | yes caret ↦ (
    λ h. inl (caret, (matchhere-Here re text).0 (ground arith)),
    λ h. elim h [
      | inl p ↦ ground (arith, (matchhere-Here re text).1 (p.1))
      | inr p ↦ absurd (p.0 caret)
    ],
  )
  | no other ↦ (
    λ h. inr (other, (match_from-Somewhere (c ∷ re) text).0 (ground arith)),
    λ h. elim h [
      | inl p ↦ absurd (other (p.0))
      | inr p ↦ ground (arith, (match_from-Somewhere (c ∷ re) text).1 (p.1))
    ],
  )
]
