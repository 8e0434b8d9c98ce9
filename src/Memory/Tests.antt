-- ===== src/Memory/Tests.antt =====
-- The string `hi` at the address 100, and the instances of the theorems.
use cs537_sp2021_dis.Base.{ℕ, zero, suc, ◌≡◌, refl, inr, some, arith, ◌==◌, if◌then◌else◌, negsuc}
use cs537_sp2021_dis.Memory.{
  copy_down, memmove, memcmp, strncmp, strncpy, copy_string, safestrcpy, strlen_from,
}
use cs537_sp2021_dis.Memory.Move.{copied, memmove_lem}
use cs537_sp2021_dis.Memory.Compare.{
  Compares, StringCompares, memcmp-Compares, strncmp-StringCompares, NoNul,
}
use cs537_sp2021_dis.Memory.Copy.{Copies, safestrcpy-Copies, strlen-IsString}
use cs537_sp2021_dis.Memory.Pad.{Pads, strncpy-Pads}

abbrev hi : ℕ → ℕ
hi a = if a == 100 then b'h' else if a == 101 then b'i' else 0

-- The regions overlap, and the copy goes down.
moves_over_itself : memmove hi 101 100 2 102 ≡ b'i'
unfolding memmove copy_down
moves_over_itself = refl

memmove_lem_example : memmove hi 101 100 2 102 ≡ copied hi 101 100 2 102
memmove_lem_example = memmove_lem hi 101 100 2 102

compares_less : memcmp hi 100 101 2 ≡ negsuc 0
unfolding memcmp
compares_less = refl

memcmp-Compares_example : Compares hi 100 101 2 (memcmp hi 100 101 2)
memcmp-Compares_example = memcmp-Compares hi 100 101 2

strncmp-StringCompares_example : StringCompares hi 100 102 5 (strncmp hi 100 102 5)
strncmp-StringCompares_example = strncmp-StringCompares hi 100 102 5

-- A buffer of two bytes holds one byte of the string.
copies_cut : safestrcpy hi 200 100 2 201 ≡ 0
unfolding safestrcpy copy_string
copies_cut = refl

safestrcpy-Copies_example : Copies hi 200 100 1 (safestrcpy hi 200 100 2)
safestrcpy-Copies_example = safestrcpy-Copies hi 200 100 1 (inr (omega arith))

strncpy-Pads_example : Pads hi 200 100 2 (strncpy hi 200 100 2)
strncpy-Pads_example = strncpy-Pads hi 200 100 2 (inr (omega arith))

hi-NoNul : NoNul hi 100 2
hi-NoNul zero l = λ e. cc
hi-NoNul (suc zero) l = λ e. cc
hi-NoNul (suc (suc j)) l = absurd (omega (arith, l))

strlen-IsString_example : strlen_from 3 hi 100 0 ≡ some 2
strlen-IsString_example = strlen-IsString hi 100 2 (hi-NoNul, refl)
