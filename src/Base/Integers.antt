-- ===== src/Base/Integers.antt =====
-- Signed results over the native numbers, under the library's names.
use Prim.Native.Nat.{ℕ, ◌-◌}
use cs537_sp2021_dis.Base.Tests.{ltb, if◌then◌else◌}

pub data ℤ : Type 0 where
  pos negsuc : ℕ → ℤ

-- The difference of two numbers.
infix 60 ◌⊖◌
abbrev pub ◌⊖◌ : ℕ → ℕ → ℤ
a ⊖ b = if ltb a b then negsuc (b - a - 1) else pos (a - b)
