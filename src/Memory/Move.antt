-- ===== src/Memory/Move.antt =====
-- `memmove` copies a region as it was before the call, however the two regions overlap.
use cs537_sp2021_dis.Base.{
  ℕ, zero, suc, ◌+◌, ◌-◌, ◌≤◌, ◌<◌, ◌≡◌, ◌&&◌, arith, ltb, leb, if◌then◌else◌, update, Bool-cases,
  inl, inr,
}
use cs537_sp2021_dis.Memory.{copy_down, copy_up, memmove}

-- The byte at `a` once the `n` bytes at `src` are copied to `dst`.
abbrev pub copied : (ℕ → ℕ) → ℕ → ℕ → ℕ → ℕ → ℕ
copied mem dst src n a = if leb dst a && ltb a (dst + n) then mem (src + (a - dst)) else mem a

-- Upwards, what is written is not read again: the region to write does not begin inside the source.
copy_up_lem :
    (n : ℕ) (mem : ℕ → ℕ) (d s a : ℕ)
    → (s < d → s + n ≤ d)
    → copy_up mem d s n a ≡ copied mem d s n a
unfolding copy_up
copy_up_lem zero mem d s a h = ground arith
copy_up_lem (suc n) mem d s a h =
    ground
      (arith, copy_up_lem n (update mem d (mem s)) (d + 1) (s + 1) a (λ l. omega (arith, h)), h)

copy_down_lem :
    (n : ℕ) (mem : ℕ → ℕ) (d s a : ℕ)
    → s < d
    → copy_down mem (d + n) (s + n) n a ≡ copied mem d s n a
unfolding copy_down
copy_down_lem zero mem d s a h = ground arith
copy_down_lem (suc n) mem d s a h =
    let ed : d + suc n - 1 ≡ d + n = omega arith in
    let es : s + suc n - 1 ≡ s + n = omega arith in
    let rest = copy_down_lem n (update mem (d + n) (mem (s + n))) d s a h in
    simp (ed, es) (ground (arith, rest, h))

-- After `memmove` the destination holds what the source held before the call, and every other byte
-- is what it was; for all regions, with any overlap.
pub memmove_lem : (mem : ℕ → ℕ) (dst src n a : ℕ) → memmove mem dst src n a ≡ copied mem dst src n a
unfolding memmove
memmove_lem mem dst src n a = elim (Bool-cases (ltb src dst && ltb dst (src + n))) [
  | inl down ↦ ground (arith, down, copy_down_lem n mem dst src a (ground (arith, down)))
  | inr up ↦ ground (arith, up, copy_up_lem n mem dst src a (λ l. ground (arith, up, l)))
]
