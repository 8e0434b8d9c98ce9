-- ===== src/Grep.antt =====
-- xv6/grep.c: the matcher. A C string is the list of its characters before the NUL, so `*text` is 0
-- exactly when the list is empty. `matchstar` gets the match of the rest of the pattern as a
-- function, since `matchhere` calls it on a shorter pattern.

pub mod Meaning
pub mod Decides
mod Tests
use cs537_sp2021_dis.Base.{ℕ, Bool, true, false, ◌&&◌, ◌||◌, List, [], ◌∷◌, ◌==◌, if◌then◌else◌}

-- The pattern character `c` stands for `t`.
abbrev pub accepts : ℕ → ℕ → Bool
accepts c t = c == b'.' || c == t

pub matchstar : (List ℕ → Bool) → ℕ → List ℕ → Bool
matchstar here c [] = here []
matchstar here c (t ∷ ts) = here (t ∷ ts) || ((t == c || c == b'.') && matchstar here c ts)

-- The last case of `matchhere`: one character, and then the rest of the pattern.
pub matchchar : (List ℕ → Bool) → ℕ → List ℕ → Bool
matchchar here c [] = false
matchchar here c (t ∷ ts) = accepts c t && here ts

abbrev pub is_end : List ℕ → Bool
is_end [] = true
is_end (t ∷ ts) = false

pub matchhere : List ℕ → List ℕ → Bool
matchhere [] text = true
matchhere (c ∷ []) text = if c == b'$' then is_end text else matchchar (matchhere []) c text
matchhere (c ∷ s ∷ re) text =
    if s == b'*' then matchstar (matchhere re) c text else matchchar (matchhere (s ∷ re)) c text

-- The loop of `match`: every suffix of the text, the empty one too.
pub match_from : (List ℕ → Bool) → List ℕ → Bool
match_from here [] = here []
match_from here (t ∷ ts) = here (t ∷ ts) || match_from here ts

pub match : List ℕ → List ℕ → Bool
match [] text = match_from (matchhere []) text
match (c ∷ re) text = if c == b'^' then matchhere re text else match_from (matchhere (c ∷ re)) text
