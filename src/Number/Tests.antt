-- ===== src/Number/Tests.antt =====
-- Runs of `printint` and `atoi`, and the instance of the theorem.
use cs537_sp2021_dis.Base.{ℕ, ◌≡◌, refl, true, false, some, List, [], ◌∷◌, arith}
use cs537_sp2021_dis.Number.{put_digits, put_sign, printint, atoi_from, atoi}
use cs537_sp2021_dis.Number.RoundTrip.{IsText, printint-IsText}

prints_hex : printint 255 16 false ≡ some (b'F' ∷ b'F' ∷ [])
unfolding printint put_digits put_sign
prints_hex = refl

reads_up_to_letter : atoi (b'4' ∷ b'2' ∷ b'x' ∷ []) ≡ 42
unfolding atoi atoi_from
reads_up_to_letter = refl

-- The number -7.
printint-IsText_example :
    (text : List ℕ) × (printint 4294967289 10 true ≡ some text) × IsText 4294967289 text
printint-IsText_example = printint-IsText 4294967289 (omega arith)
