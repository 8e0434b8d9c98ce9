-- ===== src/Path.antt =====
-- xv6/fs.c: the elements of a path. A path is the list of its characters before the NUL, and a name the
-- list of the characters that are copied, with a NUL behind them if they are fewer than DIRSIZ.
pub mod Elements
mod Tests
use cs537_sp2021_dis.Base.{ℕ, Option, none, some, List, [], ◌∷◌, take, ◌==◌, if◌then◌else◌}

-- xv6/fs.h
abbrev pub dirsiz : ℕ
dirsiz = 14

-- `while(*path == '/') path++;`
pub skip_slashes : List ℕ → List ℕ
skip_slashes [] = []
skip_slashes (c ∷ path) = if c == b'/' then skip_slashes path else c ∷ path

-- `while(*path != '/' && *path != 0) path++;`: what is passed, and the path behind it.
pub span_elem : List ℕ → List ℕ × List ℕ
span_elem [] = ([], [])
span_elem (c ∷ path) =
    if c == b'/' then ([], c ∷ path) else (c ∷ (span_elem path).0, (span_elem path).1)

-- At the first character that is no slash: the name, and the rest of the path.
pub elem_at : List ℕ → Option (List ℕ × List ℕ)
elem_at [] = none
elem_at (c ∷ r) = some (take dirsiz (span_elem (c ∷ r)).0, skip_slashes (span_elem (c ∷ r)).1)

pub skipelem : List ℕ → Option (List ℕ × List ℕ)
skipelem path = elem_at (skip_slashes path)
