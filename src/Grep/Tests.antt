-- ===== src/Grep/Tests.antt =====
-- Runs of the matcher, and the instance of its theorem.
use cs537_sp2021_dis.Base.{◌≡◌, ◌↔◌, refl, true, false, [], ◌∷◌}
use cs537_sp2021_dis.Grep.{matchstar, matchchar, matchhere, match_from, match}
use cs537_sp2021_dis.Grep.Meaning.{Matches}
use cs537_sp2021_dis.Grep.Decides.{match_decides}

-- `b*c$` and `^c`, matched on `abbc`.
starred : match (b'b' ∷ b'*' ∷ b'c' ∷ b'$' ∷ []) (b'a' ∷ b'b' ∷ b'b' ∷ b'c' ∷ []) ≡ true
unfolding match match_from matchhere matchstar matchchar
starred = refl

anchored : match (b'^' ∷ b'c' ∷ []) (b'a' ∷ b'b' ∷ b'b' ∷ b'c' ∷ []) ≡ false
unfolding match match_from matchhere matchstar matchchar
anchored = refl

match_decides_example :
    (match (b'b' ∷ b'*' ∷ b'c' ∷ []) (b'a' ∷ b'c' ∷ []) ≡ true)
    ↔ Matches (b'b' ∷ b'*' ∷ b'c' ∷ []) (b'a' ∷ b'c' ∷ [])
match_decides_example = match_decides (b'b' ∷ b'*' ∷ b'c' ∷ []) (b'a' ∷ b'c' ∷ [])
