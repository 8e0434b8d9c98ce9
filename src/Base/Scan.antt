-- ===== src/Base/Scan.antt =====
-- Loops over a table: the first index that passes a test, and a change to every entry.
use Prim.Native.Nat.{ℕ, zero, suc, ◌<◌}
use mathlib.Core.Path.{◌≡◌}
use mathlib.Core.Logic.{inl, inr}
use mathlib.Core.Bool.{Bool, true, false}
use mathlib.Core.Option.{Option, none, some}
use native.Mathlib.Omega.{arith}
use cs537_sp2021_dis.Base.Tests.{ltb, if◌then◌else◌, Bool-cases}
use cs537_sp2021_dis.Base.Arrays.{update}
use cs537_sp2021_dis.Base.Loops.{for_upto}

-- `for (i = 0; i < n; i++) if (test(i)) goto found;`
unfoldable pub find_first : (ℕ → Bool) → ℕ → Option ℕ
find_first test zero = none
find_first test (suc n) = elim (find_first test n) [
  | some i ↦ some i
  | none ↦ if test n then some n else none
]

-- What the loop finds.
abbrev pub Finds : (ℕ → Bool) → ℕ → Option ℕ → Type 0
Finds test n (some i) = (i < n) × (test i ≡ true) × ((j : ℕ) → j < i → test j ≡ false)
Finds test n none = (j : ℕ) → j < n → test j ≡ false

Finds-suc :
    (test : ℕ → Bool) (n : ℕ) (r : Option ℕ)
    → Finds test n r
    → Finds test (suc n) (elim r [ some i ↦ some i | none ↦ if test n then some n else none ])
Finds-suc test n (some i) f = (omega (arith, f.0), f.1, f.2)
Finds-suc test n none f = elim (Bool-cases (test n)) [
  | inl hit ↦ rw hit (omega arith, hit, f)
  | inr miss ↦ rw miss (λ j below. ground (arith, f j))
]

pub find_first-Finds : (test : ℕ → Bool) (n : ℕ) → Finds test n (find_first test n)
unfolding find_first
find_first-Finds test zero = λ j below. absurd (omega arith)
find_first-Finds test (suc n) = Finds-suc test n (find_first test n) (find_first-Finds test n)

-- `for (i = 0; i < n; i++) a[i] = f(a[i]);`
abbrev pub each {ℓ} : {A : Type ℓ} → ℕ → (A → A) → (ℕ → A) → ℕ → A
each n f a = for_upto n (λ i b. update b i (f (b i))) a

pub each-at {ℓ} :
    {A : Type ℓ} (n : ℕ) (f : A → A) (a : ℕ → A) (j : ℕ)
    → each n f a j ≡ (if ltb j n then f (a j) else a j)
unfolding for_upto
each-at zero f a j = ground arith
each-at (suc n) f a j = ground (arith, each-at n f a j, each-at n f a n)
