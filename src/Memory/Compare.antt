-- ===== src/Memory/Compare.antt =====
-- `memcmp` and `strncmp` return the difference at the first place where the regions differ.
use cs537_sp2021_dis.Base.{
  ℕ, zero, suc, ◌+◌, ◌<◌, ◌≡◌, ◌≢◌, refl, ◌⊎◌, inl, inr, arith, ℕ_discrete, ℤ, pos, ◌⊖◌,
}
use cs537_sp2021_dis.Memory.{memcmp, strncmp}

-- The `n` bytes at `p` and at `q` are the same.
abbrev pub Agree : (ℕ → ℕ) → ℕ → ℕ → ℕ → Type 0
Agree mem p q n = (j : ℕ) → j < n → mem (p + j) ≡ mem (q + j)

abbrev pub Compares : (ℕ → ℕ) → ℕ → ℕ → ℕ → ℤ → Type 0
Compares mem p q n r =
    (Agree mem p q n × (r ≡ pos 0))
    ⊎ ((i : ℕ) × (i < n)
        × Agree mem p q i
        × (mem (p + i) ≢ mem (q + i))
        × (r ≡ mem (p + i) ⊖ mem (q + i)))

Agree-suc :
    (mem : ℕ → ℕ) (p q n : ℕ) → mem p ≡ mem q → Agree mem (p + 1) (q + 1) n → Agree mem p q (suc n)
Agree-suc mem p q n e h zero l = ground (arith, e)
Agree-suc mem p q n e h (suc j) l = ground (arith, h j (omega (arith, l)))

-- `memcmp` gives 0 when the `n` bytes agree, and else the difference of the first two that do not.
pub memcmp-Compares : (mem : ℕ → ℕ) (p q n : ℕ) → Compares mem p q n (memcmp mem p q n)
unfolding memcmp
memcmp-Compares mem p q zero = inl (λ j l. absurd (omega (arith, l)), refl)
memcmp-Compares mem p q (suc n) = elim (ℕ_discrete (mem p) (mem q)) [
  | no other ↦ inr (
    0,
    omega arith,
    λ j l. absurd (omega (arith, l)),
    ground (arith, other),
    ground (arith, other),
  )
  | yes same ↦ elim (memcmp-Compares mem (p + 1) (q + 1) n) [
    | inl h ↦ inl (Agree-suc mem p q n same h.0, ground (arith, same, h.1))
    | inr h ↦ inr (
      suc h.0,
      omega (arith, h.1),
      Agree-suc mem p q h.0 same h.2,
      ground (arith, h.3),
      ground (arith, same, h.4),
    )
  ]
]

-- No byte of the `n` at `p` is NUL.
abbrev pub NoNul : (ℕ → ℕ) → ℕ → ℕ → Type 0
NoNul mem p n = (j : ℕ) → j < n → mem (p + j) ≢ 0

pub NoNul-suc : (mem : ℕ → ℕ) (p n : ℕ) → mem p ≢ 0 → NoNul mem (p + 1) n → NoNul mem p (suc n)
NoNul-suc mem p n ne h zero l = ground (arith, ne)
NoNul-suc mem p n ne h (suc j) l = ground (arith, h j (omega (arith, l)))

abbrev pub StringCompares : (ℕ → ℕ) → ℕ → ℕ → ℕ → ℤ → Type 0
StringCompares mem p q n r =
    (Agree mem p q n × NoNul mem p n × (r ≡ pos 0))
    ⊎ ((i : ℕ) × (i < n)
        × Agree mem p q i
        × NoNul mem p i
        × ((mem (p + i) ≡ 0) ⊎ (mem (p + i) ≢ mem (q + i)))
        × (r ≡ mem (p + i) ⊖ mem (q + i)))

strncmp_stop :
    (mem : ℕ → ℕ) (p q n : ℕ)
    → ((mem p ≡ 0) ⊎ (mem p ≢ mem q))
    → StringCompares mem p q (suc n) (strncmp mem p q (suc n))
unfolding strncmp
strncmp_stop mem p q n stop = inr (
  0,
  omega arith,
  λ j l. absurd (omega (arith, l)),
  λ j l. absurd (omega (arith, l)),
  ground (arith, stop),
  ground (arith, stop),
)

-- `strncmp` gives 0 when the `n` bytes agree and none is NUL, and else the difference of the two
-- bytes at the first place where the strings differ or end, which is one of the first `n`.
pub strncmp-StringCompares :
    (mem : ℕ → ℕ) (p q n : ℕ) → StringCompares mem p q n (strncmp mem p q n)
unfolding strncmp
strncmp-StringCompares mem p q zero =
    inl (λ j l. absurd (omega (arith, l)), λ j l. absurd (omega (arith, l)), refl)
strncmp-StringCompares mem p q (suc n) = elim (ℕ_discrete (mem p) 0) [
  | yes end ↦ strncmp_stop mem p q n (inl end)
  | no more ↦ elim (ℕ_discrete (mem p) (mem q)) [
    | no other ↦ strncmp_stop mem p q n (inr other)
    | yes same ↦ elim (strncmp-StringCompares mem (p + 1) (q + 1) n) [
      | inl h ↦ inl (
        Agree-suc mem p q n same h.0,
        NoNul-suc mem p n more h.1,
        ground (arith, same, more, h.2),
      )
      | inr (i, below, agree, no_nul, stop, result) ↦ inr (
        suc i,
        omega (arith, below),
        Agree-suc mem p q i same agree,
        NoNul-suc mem p i more no_nul,
        ground (arith, stop),
        ground (arith, same, more, result),
      )
    ]
  ]
]
