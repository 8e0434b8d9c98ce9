-- ===== src/Bytes/Laws.antt =====
-- Reading what was written.
use cs537_sp2021_dis.Base.{
  ℕ, zero, suc, ◌+◌, ◌*◌, ◌/◌, ◌%◌, ◌^◌, ◌≤◌, ◌<◌, ◌≡◌, ◌⊎◌, true, false, arith, ◌==◌,
  if◌then◌else◌,
}
use cs537_sp2021_dis.Bytes.{bit, set_bit, clear_bit, get_half, put_half, get_word, put_word}

pub bit-set_bit : (k j v : ℕ) → bit k (set_bit j v) ≡ (if j == k then true else bit k v)
unfolding bit set_bit
bit-set_bit zero zero v = ground arith
bit-set_bit zero (suc j) v = ground arith
bit-set_bit (suc k) zero v =
    let e : (v / 2 * 2 + 1) / 2 ≡ v / 2 = omega arith in simp e (ground arith)
bit-set_bit (suc k) (suc j) v =
    let e : (set_bit j (v / 2) * 2 + v % 2) / 2 ≡ set_bit j (v / 2) = omega arith in
    simp e (ground (arith, bit-set_bit k j (v / 2)))

pub bit-clear_bit : (k j v : ℕ) → bit k (clear_bit j v) ≡ (if j == k then false else bit k v)
unfolding bit clear_bit
bit-clear_bit zero zero v = ground arith
bit-clear_bit zero (suc j) v = ground arith
bit-clear_bit (suc k) zero v = let e : v / 2 * 2 / 2 ≡ v / 2 = omega arith in simp e (ground arith)
bit-clear_bit (suc k) (suc j) v =
    let e : (clear_bit j (v / 2) * 2 + v % 2) / 2 ≡ clear_bit j (v / 2) = omega arith in
    simp e (ground (arith, bit-clear_bit k j (v / 2)))

pub get_word-put_word : (b : ℕ → ℕ) (o v : ℕ) → v < 2 ^ 32 → get_word (put_word b o v) o ≡ v
unfolding get_word put_word
get_word-put_word b o v h = ground (arith, h)

pub get_half-put_half : (b : ℕ → ℕ) (o v : ℕ) → v < 2 ^ 16 → get_half (put_half b o v) o ≡ v
unfolding get_half put_half
get_half-put_half b o v h = ground (arith, h)

pub put_word-outside : (b : ℕ → ℕ) (o v a : ℕ) → (a < o) ⊎ (o + 4 ≤ a) → put_word b o v a ≡ b a
unfolding put_word
put_word-outside b o v a h = ground (arith, h)

pub put_half-outside : (b : ℕ → ℕ) (o v a : ℕ) → (a < o) ⊎ (o + 2 ≤ a) → put_half b o v a ≡ b a
unfolding put_half
put_half-outside b o v a h = ground (arith, h)

pub get_word-same :
    (b c : ℕ → ℕ) (o : ℕ) → ((a : ℕ) → o ≤ a → a < o + 4 → c a ≡ b a) → get_word c o ≡ get_word b o
unfolding get_word
get_word-same b c o h = ground (
  arith,
  h o (omega arith) (omega arith),
  h (o + 1) (omega arith) (omega arith),
  h (o + 2) (omega arith) (omega arith),
  h (o + 3) (omega arith) (omega arith),
)

pub get_word-put_word_apart :
    (b : ℕ → ℕ) (o p v : ℕ) → (o + 4 ≤ p) ⊎ (p + 4 ≤ o) → get_word (put_word b p v) o ≡ get_word b o
get_word-put_word_apart b o p v h =
    get_word-same b (put_word b p v) o
      (λ a lo hi. put_word-outside b p v a (omega (arith, h, lo, hi)))
