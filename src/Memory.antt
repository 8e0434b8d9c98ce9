-- ===== src/Memory.antt =====
-- xv6/string.c on memory: a function from the address to the byte. Addresses do not
-- wrap: no region ends above 2 ^ 32. `memcpy` is `memmove`.
pub mod Move
pub mod Compare
pub mod Copy
pub mod Pad
mod Tests
use cs537_sp2021_dis.Base.{
  ℕ, zero, suc, ◌+◌, ◌-◌, Bool, true, false, not, ◌&&◌, Option, none, some, ltb, ◌==◌,
  if◌then◌else◌, update, ℤ, pos, ◌⊖◌,
}

-- `while(n-- > 0) *--d = *--s;`
pub copy_down : (ℕ → ℕ) → ℕ → ℕ → ℕ → ℕ → ℕ
copy_down mem d s zero = mem
copy_down mem d s (suc n) = copy_down (update mem (d - 1) (mem (s - 1))) (d - 1) (s - 1) n

-- `while(n-- > 0) *d++ = *s++;`
pub copy_up : (ℕ → ℕ) → ℕ → ℕ → ℕ → ℕ → ℕ
copy_up mem d s zero = mem
copy_up mem d s (suc n) = copy_up (update mem d (mem s)) (d + 1) (s + 1) n

pub memmove : (ℕ → ℕ) → ℕ → ℕ → ℕ → ℕ → ℕ
memmove mem dst src n =
    if ltb src dst && ltb dst (src + n)
    then copy_down mem (dst + n) (src + n) n
    else copy_up mem dst src n

pub memcmp : (ℕ → ℕ) → ℕ → ℕ → ℕ → ℤ
memcmp mem s1 s2 zero = pos 0
memcmp mem s1 s2 (suc n) =
    let rest = memcmp mem (s1 + 1) (s2 + 1) n in
    if not (mem s1 == mem s2) then mem s1 ⊖ mem s2 else rest

pub strncmp : (ℕ → ℕ) → ℕ → ℕ → ℕ → ℤ
strncmp mem p q zero = pos 0
strncmp mem p q (suc n) =
    let rest = strncmp mem (p + 1) (q + 1) n in
    if not (mem p == 0) && (mem p == mem q) then rest else mem p ⊖ mem q

-- `while(n-- > 0) *s++ = 0;`
pub pad : (ℕ → ℕ) → ℕ → ℕ → ℕ → ℕ
pad mem s zero = mem
pad mem s (suc n) = pad (update mem s 0) (s + 1) n

pub strncpy : (ℕ → ℕ) → ℕ → ℕ → ℕ → ℕ → ℕ
strncpy mem s t zero = mem
strncpy mem s t (suc n) =
    let mem' = update mem s (mem t) in
    let rest = strncpy mem' (s + 1) (t + 1) n in if mem t == 0 then pad mem' (s + 1) n else rest

-- The loop of `safestrcpy` with the store after it; `n` is what is left for the loop.
pub copy_string : (ℕ → ℕ) → ℕ → ℕ → ℕ → ℕ → ℕ
copy_string mem s t zero = update mem s 0
copy_string mem s t (suc n) =
    let mem' = update mem s (mem t) in
    let rest = copy_string mem' (s + 1) (t + 1) n in
    if mem t == 0 then update mem' (s + 1) 0 else rest

pub safestrcpy : (ℕ → ℕ) → ℕ → ℕ → ℕ → ℕ → ℕ
safestrcpy mem s t zero = mem
safestrcpy mem s t (suc n) = copy_string mem s t n

-- The loop of `strlen` from the index `n`.
pub strlen_from : ℕ → (ℕ → ℕ) → ℕ → ℕ → Option ℕ
strlen_from zero mem s n = none
strlen_from (suc fuel) mem s n =
    let rest = strlen_from fuel mem s (n + 1) in if mem (s + n) == 0 then some n else rest
