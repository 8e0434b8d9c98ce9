-- ===== src/Memory/Copy.antt =====
-- What `safestrcpy` and `strncpy` leave in memory, and `strlen`.
use cs537_sp2021_dis.Base.{
  ℕ, zero, suc, ◌+◌, ◌≤◌, ◌<◌, ◌≡◌, ◌≢◌, refl, ◌⊎◌, inl, inr, some, arith, ℕ_discrete, update,
}
use cs537_sp2021_dis.Memory.{copy_string, safestrcpy, strlen_from}
use cs537_sp2021_dis.Memory.Compare.{NoNul, NoNul-suc}

-- The string at `s` has `len` bytes before its NUL.
abbrev pub IsString : (ℕ → ℕ) → ℕ → ℕ → Type 0
IsString mem s len = NoNul mem s len × (mem (s + len) ≡ 0)

-- The bytes from `t` on, up to `n`, lie outside the buffer of `n` bytes at `s`.
abbrev pub Apart : ℕ → ℕ → ℕ → Type 0
Apart s t n = (s + n ≤ t) ⊎ (t + n ≤ s)

-- With `n` as what the loop has left, `i` bytes of the string at `t` are copied to `s`; a NUL
-- follows, and what is outside the buffer stays.
abbrev pub Copies : (ℕ → ℕ) → ℕ → ℕ → ℕ → (ℕ → ℕ) → Type 0
Copies mem s t n mem' =
    (i : ℕ) × (i ≤ n)
    × ((j : ℕ) → j < i → mem' (s + j) ≡ mem (t + j))
    × IsString mem' s i
    × ((i ≡ n) ⊎ (mem (t + i) ≡ 0))
    × ((a : ℕ) → (a < s) ⊎ (s + n < a) → mem' a ≡ mem a)

copy_string_end :
    (mem : ℕ → ℕ) (s t n : ℕ)
    → mem t ≡ 0
    → copy_string mem s t (suc n) ≡ update (update mem s 0) (s + 1) 0
unfolding copy_string
copy_string_end mem s t n end = ground (arith, end)

copy_string_next :
    (mem : ℕ → ℕ) (s t n : ℕ)
    → mem t ≢ 0
    → copy_string mem s t (suc n) ≡ copy_string (update mem s (mem t)) (s + 1) (t + 1) n
unfolding copy_string
copy_string_next mem s t n more = ground (arith, more)

Copies-end :
    (mem : ℕ → ℕ) (s t n : ℕ)
    → mem t ≡ 0
    → Copies mem s t (suc n) (update (update mem s 0) (s + 1) 0)
Copies-end mem s t n end = (
  0,
  omega arith,
  λ j l. absurd (omega (arith, l)),
  (λ j l. absurd (omega (arith, l)), ground arith),
  inr (ground (arith, end)),
  λ a out. ground (arith, out),
)

same_next :
    (mem mem' : ℕ → ℕ) (s t i : ℕ)
    → mem' s ≡ mem t
    → ((j : ℕ) → j < i → mem' (s + 1 + j) ≡ mem (t + 1 + j))
    → (j : ℕ) → j < suc i
    → mem' (s + j) ≡ mem (t + j)
same_next mem mem' s t i e h zero l = ground (arith, e)
same_next mem mem' s t i e h (suc j) l = ground (arith, h j (omega (arith, l)))

Copies-next :
    (mem mem' : ℕ → ℕ) (s t n : ℕ)
    → Apart s t (suc n + 1)
    → mem t ≢ 0
    → Copies (update mem s (mem t)) (s + 1) (t + 1) n mem'
    → Copies mem s t (suc n) mem'
Copies-next mem mem' s t n apart more (i, most, same, is, stop, rest) =
    let first : mem' s ≡ mem t = ground (arith, rest s (omega arith)) in
    (
      suc i,
      omega (arith, most),
      same_next mem mem' s t i first (λ j l. ground (arith, apart, most, l, same j l)),
      (NoNul-suc mem' s i (ground (arith, first, more)) is.0, ground (arith, is.1)),
      ground (arith, stop, apart, most),
      λ a out. ground (arith, out, rest a (omega (arith, out))),
    )

copy_string-zero : (mem : ℕ → ℕ) (s t : ℕ) → copy_string mem s t zero ≡ update mem s 0
unfolding copy_string
copy_string-zero mem s t = refl

Copies-zero : (mem : ℕ → ℕ) (s t : ℕ) → Copies mem s t zero (update mem s 0)
Copies-zero mem s t = (
  0,
  omega arith,
  λ j l. absurd (omega (arith, l)),
  (λ j l. absurd (omega (arith, l)), ground arith),
  inl refl,
  λ a out. ground (arith, out),
)

copy_string-Copies :
    (mem : ℕ → ℕ) (s t n : ℕ) → Apart s t (n + 1) → Copies mem s t n (copy_string mem s t n)
copy_string-Copies mem s t zero apart = rw (copy_string-zero mem s t) (Copies-zero mem s t)
copy_string-Copies mem s t (suc n) apart = elim (ℕ_discrete (mem t) 0) [
  | yes end ↦ rw (copy_string_end mem s t n end) (Copies-end mem s t n end)
  | no more ↦
      let mem1 = update mem s (mem t) in
      rw (copy_string_next mem s t n more) (
        Copies-next mem (copy_string mem1 (s + 1) (t + 1) n) s t n apart more
          (copy_string-Copies mem1 (s + 1) (t + 1) n (omega (arith, apart))))
]

-- With a buffer of `n + 1` bytes that the string to copy does not overlap, `safestrcpy` copies the
-- bytes before the NUL, or the first `n` of them, puts a NUL behind them, inside the buffer, and
-- changes nothing outside the buffer.
pub safestrcpy-Copies :
    (mem : ℕ → ℕ) (s t n : ℕ) → Apart s t (n + 1) → Copies mem s t n (safestrcpy mem s t (suc n))
unfolding safestrcpy
safestrcpy-Copies mem s t n apart = copy_string-Copies mem s t n apart

strlen_from_lem :
    (fuel : ℕ) (mem : ℕ → ℕ) (s n len : ℕ)
    → IsString mem s len
    → n ≤ len
    → len < n + fuel
    → strlen_from fuel mem s n ≡ some len
unfolding strlen_from
strlen_from_lem zero mem s n len is below enough = absurd (omega (arith, below, enough))
strlen_from_lem (suc fuel) mem s n len is below enough = elim (ℕ_discrete n len) [
  | yes end ↦ ground (arith, end, is.1)
  | no more ↦
      let rest =
        strlen_from_lem fuel mem s (n + 1) len is (omega (arith, below, more))
          (omega (arith, enough)) in
      ground (arith, rest, is.0 n (omega (arith, below, more)))
]

-- `strlen` returns, and gives the length of the string; it takes one round for each byte and one
-- for the NUL.
pub strlen-IsString :
    (mem : ℕ → ℕ) (s len : ℕ) → IsString mem s len → strlen_from (len + 1) mem s 0 ≡ some len
strlen-IsString mem s len is = strlen_from_lem (len + 1) mem s 0 len is (omega arith) (omega arith)
