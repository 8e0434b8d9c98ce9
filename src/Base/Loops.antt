-- ===== src/Base/Loops.antt =====
-- `for (i = 0; i < n; i++)` with a body that changes a state, and its invariant rule.
use Prim.Native.Nat.{ℕ, zero, suc, ◌<◌}
use native.Mathlib.Omega.{arith}

-- The rounds 0, 1, ..., n - 1 in this order.
unfoldable pub for_upto {ℓ} : {S : Type ℓ} → ℕ → (ℕ → S → S) → S → S
for_upto zero body s = s
for_upto (suc n) body s = body n (for_upto n body s)

pub for_upto_inv {ℓ κ} :
    {S : Type ℓ} (P : ℕ → S → Type κ) (body : ℕ → S → S) (n : ℕ)
    → ((i : ℕ) (s : S) → i < n → P i s → P (suc i) (body i s))
    → (s : S) → P 0 s
    → P n (for_upto n body s)
unfolding for_upto
for_upto_inv P body zero keep s h = h
for_upto_inv P body (suc n) keep s h =
    keep n (for_upto n body s) (omega arith)
      (for_upto_inv P body n (λ i t lt. keep i t (omega arith)) s h)
