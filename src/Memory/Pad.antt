-- ===== src/Memory/Pad.antt =====
-- What `strncpy` leaves in memory.
use cs537_sp2021_dis.Base.{
  ℕ, zero, suc, ◌+◌, ◌-◌, ◌≤◌, ◌≡◌, ◌≢◌, refl, ◌⊎◌, inl, inr, ◌&&◌, ltb, leb, if◌then◌else◌, arith,
  ℕ_discrete, update,
}
use cs537_sp2021_dis.Memory.{pad, strncpy}
use cs537_sp2021_dis.Memory.Compare.{NoNul, NoNul-suc}
use cs537_sp2021_dis.Memory.Copy.{Apart}

pad_lem :
    (n : ℕ) (mem : ℕ → ℕ) (s a : ℕ)
    → pad mem s n a ≡ (if leb s a && ltb a (s + n) then 0 else mem a)
unfolding pad
pad_lem zero mem s a = ground arith
pad_lem (suc n) mem s a = ground (arith, pad_lem n (update mem s 0) (s + 1) a)

-- `i` bytes of the string at `t` are copied to `s`, up to its NUL or the end of the buffer; the rest
-- of the buffer is NUL, and what is outside the buffer stays.
abbrev pub Pads : (ℕ → ℕ) → ℕ → ℕ → ℕ → (ℕ → ℕ) → Type 0
Pads mem s t n mem' =
    (i : ℕ) × (i ≤ n)
    × NoNul mem t i
    × ((i ≡ n) ⊎ (mem (t + i) ≡ 0))
    × ((a : ℕ)
        → mem' a ≡ (
            if leb s a && ltb a (s + n)
            then (if ltb a (s + i) then mem (t + (a - s)) else 0)
            else mem a))

strncpy_end :
    (mem : ℕ → ℕ) (s t n : ℕ) → mem t ≡ 0 → strncpy mem s t (suc n) ≡ pad (update mem s 0) (s + 1) n
unfolding strncpy
strncpy_end mem s t n end = ground (arith, end)

strncpy_next :
    (mem : ℕ → ℕ) (s t n : ℕ)
    → mem t ≢ 0
    → strncpy mem s t (suc n) ≡ strncpy (update mem s (mem t)) (s + 1) (t + 1) n
unfolding strncpy
strncpy_next mem s t n more = ground (arith, more)

strncpy-zero : (mem : ℕ → ℕ) (s t : ℕ) → strncpy mem s t zero ≡ mem
unfolding strncpy
strncpy-zero mem s t = refl

Pads-end :
    (mem : ℕ → ℕ) (s t n : ℕ) → mem t ≡ 0 → Pads mem s t (suc n) (pad (update mem s 0) (s + 1) n)
Pads-end mem s t n end = (
  0,
  omega arith,
  λ j l. absurd (omega (arith, l)),
  inr (ground (arith, end)),
  λ a. ground (arith, pad_lem n (update mem s 0) (s + 1) a),
)

Pads-next :
    (mem mem' : ℕ → ℕ) (s t n : ℕ)
    → Apart s t (suc n)
    → mem t ≢ 0
    → Pads (update mem s (mem t)) (s + 1) (t + 1) n mem'
    → Pads mem s t (suc n) mem'
Pads-next mem mem' s t n apart more (i, most, no_nul, stop, bytes) = (
  suc i,
  omega (arith, most),
  NoNul-suc mem t i more (λ j l. ground (arith, apart, most, l, no_nul j l)),
  ground (arith, stop, apart, most),
  λ a. ground (arith, apart, most, bytes a),
)

-- With a buffer of `n` bytes that the string to copy does not overlap, `strncpy` fills the buffer
-- with the bytes before the NUL, or the first `n` of them, and then with NULs, and changes nothing
-- outside the buffer; there is no NUL when the string has `n` bytes or more.
pub strncpy-Pads : (mem : ℕ → ℕ) (s t n : ℕ) → Apart s t n → Pads mem s t n (strncpy mem s t n)
strncpy-Pads mem s t zero apart =
    rw (strncpy-zero mem s t)
      (0, omega arith, λ j l. absurd (omega (arith, l)), inl refl, λ a. ground arith)
strncpy-Pads mem s t (suc n) apart = elim (ℕ_discrete (mem t) 0) [
  | yes end ↦ rw (strncpy_end mem s t n end) (Pads-end mem s t n end)
  | no more ↦
      let mem1 = update mem s (mem t) in
      rw (strncpy_next mem s t n more) (
        Pads-next mem (strncpy mem1 (s + 1) (t + 1) n) s t n apart more
          (strncpy-Pads mem1 (s + 1) (t + 1) n (omega (arith, apart))))
]
