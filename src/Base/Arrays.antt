-- ===== src/Base/Arrays.antt =====
-- C arrays and tables as functions of the index: a write changes one entry.
use Prim.Native.Nat.{ℕ}
use mathlib.Core.Path.{◌≡◌, fun_ext}
use mathlib.Core.Logic.{◌≢◌}
use native.Mathlib.Omega.{arith}
use cs537_sp2021_dis.Base.Tests.{◌==◌, if◌then◌else◌}

-- `a[i] = v`
abbrev pub update {ℓ} : {A : Type ℓ} → (ℕ → A) → ℕ → A → ℕ → A
update a i v j = if i == j then v else a j

pub update_self {ℓ} : {A : Type ℓ} (a : ℕ → A) (i : ℕ) (v : A) → update a i v i ≡ v
update_self a i v = ground arith

pub update_ne {ℓ} : {A : Type ℓ} (a : ℕ → A) (i j : ℕ) (v : A) → i ≢ j → update a i v j ≡ a j
update_ne a i j v h = ground arith

pub update-update {ℓ} :
    {A : Type ℓ} (a : ℕ → A) (i : ℕ) (v w : A) → update (update a i v) i w ≡ update a i w
update-update a i v w = fun_ext λ j. ground arith
