-- ===== src/Path/Tests.antt =====
-- A path with more slashes than it needs, and the instance of the theorem.
use cs537_sp2021_dis.Base.{◌≡◌, List, [], ◌∷◌, length, map, arith, ◌+◌}
use cs537_sp2021_dis.Path.Elements.{Elem, print_path, IsPath, elements, short_name, elements-print}

-- `///a//bb/`
abbrev sample : List Elem
sample =
    record { slashes = 3; name = b'a' ∷ [] } ∷ record { slashes = 2; name = b'b' ∷ b'b' ∷ [] } ∷ []

sample-IsPath : IsPath sample
sample-IsPath = ground arith

elements-print_example :
    elements (length (print_path sample 1) + 1) (print_path sample 1) ≡ map short_name sample
elements-print_example = elements-print sample 1 sample-IsPath
