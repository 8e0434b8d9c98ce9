-- ===== src/Path/Elements.antt =====
-- Paths of names: what `skipelem` takes from them.
use cs537_sp2021_dis.Base.{
  ℕ, zero, suc, ◌+◌, ◌≤◌, ◌<◌, ◌≡◌, ◌≢◌, refl, ◌∙◌, ap, true, false, Option, none, some, List, [],
  ◌∷◌, ◌++◌, map, take, length, length-append, All, arith, ◌==◌,
}
use cs537_sp2021_dis.Path.{dirsiz, skip_slashes, span_elem, elem_at, skipelem}

-- A name, and the slashes in front of it.
pub record Elem : Type 0 where
  pub slashes : ℕ
  pub name : List ℕ

abbrev pub print_slashes : ℕ → List ℕ → List ℕ
print_slashes zero k = k
print_slashes (suc n) k = b'/' ∷ print_slashes n k

-- The names with their slashes, and `n` slashes at the end.
abbrev pub print_path : List Elem → ℕ → List ℕ
print_path [] n = print_slashes n []
print_path (e ∷ es) n = print_slashes e.slashes (e.name ++ print_path es n)

abbrev pub IsName : List ℕ → Type 0
IsName w = (w ≢ []) × All (λ c. (c == b'/') ≡ false) w

-- There is a slash between two names.
abbrev pub IsPath : List Elem → Type 0
IsPath [] = Unit
IsPath (e ∷ es) = IsName e.name × (All (λ (f : Elem). 0 < f.slashes) es × IsPath es)

slashes_skip : (n : ℕ) (k : List ℕ) → skip_slashes (print_slashes n k) ≡ skip_slashes k
unfolding skip_slashes
slashes_skip zero k = refl
slashes_skip (suc n) k = slashes_skip n k

-- A path begins with no slash once they are skipped.
abbrev stripped : List Elem → ℕ → List ℕ
stripped [] n = []
stripped (e ∷ es) n = e.name ++ print_path es n

name_skip : (w k : List ℕ) → IsName w → skip_slashes (w ++ k) ≡ w ++ k
unfolding skip_slashes
name_skip [] k h = absurd (h.0 refl)
name_skip (c ∷ w) k h = rw h.1.0 refl

nil_skip : skip_slashes [] ≡ []
unfolding skip_slashes
nil_skip = refl

path_skip : (es : List Elem) (n : ℕ) → IsPath es → skip_slashes (print_path es n) ≡ stripped es n
path_skip [] n h = slashes_skip n [] ∙ nil_skip
path_skip (e ∷ es) n h =
    slashes_skip e.slashes (e.name ++ print_path es n) ∙ name_skip e.name (print_path es n) h.0

-- The name ends at a slash, or at the end.
abbrev EndsName : List ℕ → Type 0
EndsName [] = Unit
EndsName (c ∷ k) = (c == b'/') ≡ true

slashes-EndsName : (m : ℕ) (k : List ℕ) → 0 < m → EndsName (print_slashes m k)
slashes-EndsName zero k h = absurd (omega (arith, h))
slashes-EndsName (suc m) k h = refl

path-EndsName :
    (es : List Elem) (n : ℕ) → All (λ (f : Elem). 0 < f.slashes) es → EndsName (print_path es n)
path-EndsName [] zero h = tt
path-EndsName [] (suc n) h = refl
path-EndsName (e ∷ es) n h = slashes-EndsName e.slashes (e.name ++ print_path es n) h.0

span_elem-name :
    (w k : List ℕ) → All (λ c. (c == b'/') ≡ false) w → EndsName k → span_elem (w ++ k) ≡ (w, k)
unfolding span_elem
span_elem-name [] [] h ends = refl
span_elem-name [] (c ∷ k) h ends = rw ends refl
span_elem-name (c ∷ w) k h ends =
    rw h.0 (ap (λ (p : List ℕ × List ℕ). (c ∷ p.0, p.1)) (span_elem-name w k h.1 ends))

skipelem-none : (path : List ℕ) → skip_slashes path ≡ [] → skipelem path ≡ none
unfolding skipelem elem_at
skipelem-none path e = ap elem_at e

skipelem-some :
    (path w k : List ℕ) (c : ℕ) (r : List ℕ)
    → skip_slashes path ≡ c ∷ r
    → span_elem (c ∷ r) ≡ (w, k)
    → skipelem path ≡ some (take dirsiz w, skip_slashes k)
unfolding skipelem elem_at
skipelem-some path w k c r e1 e2 =
    ap elem_at e1 ∙ ap (λ (p : List ℕ × List ℕ). some (take dirsiz p.0, skip_slashes p.1)) e2

skipelem_name :
    (path w k : List ℕ)
    → IsName w
    → EndsName k
    → skip_slashes path ≡ w ++ k
    → skipelem path ≡ some (take dirsiz w, skip_slashes k)
skipelem_name path [] k h ends e = absurd (h.0 refl)
skipelem_name path (c ∷ w) k h ends e =
    skipelem-some path (c ∷ w) k c (w ++ k) e (span_elem-name (c ∷ w) k h.1 ends)

after_elem : (List ℕ → List (List ℕ)) → Option (List ℕ × List ℕ) → List (List ℕ)
after_elem more none = []
after_elem more (some (w, path)) = w ∷ more path

-- `while((path = skipelem(path, name)) != 0)`: the names, for at most so many rounds.
pub elements : ℕ → List ℕ → List (List ℕ)
elements zero path = []
elements (suc fuel) path = after_elem (elements fuel) (skipelem path)

stripped_skip : (es : List Elem) (n : ℕ) → IsPath es → skip_slashes (stripped es n) ≡ stripped es n
stripped_skip [] n h = nil_skip
stripped_skip (e ∷ es) n h = name_skip e.name (print_path es n) h.0

abbrev pub short_name : Elem → List ℕ
short_name e = take dirsiz e.name

elements-stripped :
    (es : List Elem) (n fuel : ℕ) (path : List ℕ)
    → IsPath es
    → length es < fuel
    → skip_slashes path ≡ stripped es n
    → elements fuel path ≡ map short_name es
unfolding elements after_elem
elements-stripped es n zero path h enough e = absurd (omega (arith, enough))
elements-stripped [] n (suc fuel) path h enough e =
    ap (after_elem (elements fuel)) (skipelem-none path e)
elements-stripped (x ∷ es) n (suc fuel) path h enough e =
    let rest = skip_slashes (print_path es n) in
    let again = path_skip es n h.1.1 in
    ap (after_elem (elements fuel))
      (skipelem_name path x.name (print_path es n) h.0 (path-EndsName es n h.1.0) e)
    ∙ ap (◌∷◌ (short_name x)) (
        elements-stripped es n fuel rest h.1.1 (omega (arith, enough))
          (ap skip_slashes again ∙ stripped_skip es n h.1.1))

length-slashes : (m : ℕ) (k : List ℕ) → length k ≤ length (print_slashes m k)
length-slashes zero k = omega arith
length-slashes (suc m) k = omega (arith, length-slashes m k)

length-name : (w k : List ℕ) → IsName w → length k + 1 ≤ length (w ++ k)
length-name [] k h = absurd (h.0 refl)
length-name (c ∷ w) k h = omega (arith, length-append {0} w k)

length-path : (es : List Elem) (n : ℕ) → IsPath es → length es ≤ length (print_path es n)
length-path [] n h = omega arith
length-path (e ∷ es) n h = omega (
  arith,
  length-path es n h.1.1,
  length-name e.name (print_path es n) h.0,
  length-slashes e.slashes (e.name ++ print_path es n),
)

-- A path is names with any number of slashes before the first and after the last, and at least one
-- slash between two names. `skipelem`, called again and again on what it returns, gives the names in
-- their order, each cut to DIRSIZ characters, and then 0; as many rounds as the path has characters,
-- and one more, are enough.
pub elements-print :
    (es : List Elem) (n : ℕ)
    → IsPath es
    → elements (length (print_path es n) + 1) (print_path es n) ≡ map short_name es
elements-print es n h =
    elements-stripped es n (length (print_path es n) + 1) (print_path es n) h
      (omega (arith, length-path es n h)) (path_skip es n h)
