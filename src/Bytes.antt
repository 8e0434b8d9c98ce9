-- ===== src/Bytes.antt =====
-- Bits of a byte and little-endian integers in a region of bytes, as the casts and masks of the C code
-- have them.
pub mod Laws
use cs537_sp2021_dis.Base.{ℕ, zero, suc, ◌+◌, ◌*◌, ◌/◌, ◌%◌, Bool, true, false, ◌==◌, update}

-- `(v & (1 << k)) != 0`
unfoldable pub bit : ℕ → ℕ → Bool
bit zero v = v % 2 == 1
bit (suc k) v = bit k (v / 2)

-- `v | (1 << k)`
unfoldable pub set_bit : ℕ → ℕ → ℕ
set_bit zero v = v / 2 * 2 + 1
set_bit (suc k) v = set_bit k (v / 2) * 2 + v % 2

-- `v & ~(1 << k)`
unfoldable pub clear_bit : ℕ → ℕ → ℕ
clear_bit zero v = v / 2 * 2
clear_bit (suc k) v = clear_bit k (v / 2) * 2 + v % 2

-- `*(ushort*)(b + o)` and `*(uint*)(b + o)`
unfoldable pub get_half : (ℕ → ℕ) → ℕ → ℕ
get_half b o = b o + b (o + 1) * 256

unfoldable pub put_half : (ℕ → ℕ) → ℕ → ℕ → ℕ → ℕ
put_half b o v = update (update b o (v % 256)) (o + 1) (v / 256 % 256)

unfoldable pub get_word : (ℕ → ℕ) → ℕ → ℕ
get_word b o = b o + b (o + 1) * 256 + b (o + 2) * 65536 + b (o + 3) * 16777216

unfoldable pub put_word : (ℕ → ℕ) → ℕ → ℕ → ℕ → ℕ
put_word b o v =
    update
      (update (update (update b o (v % 256)) (o + 1) (v / 256 % 256)) (o + 2) (v / 65536 % 256))
      (o + 3) (v / 16777216 % 256)
