-- ===== src/Vm/Flags.antt =====
-- The bits of a page table entry.
use cs537_sp2021_dis.Base.{
  ℕ, zero, suc, ◌+◌, ◌/◌, ◌%◌, ◌^◌, ◌<◌, ◌≡◌, sym, ap, ◌∙◌, true, ◌||◌, ◌==◌, if◌then◌else◌, arith,
}
use cs537_sp2021_dis.Bytes.{bit}
use cs537_sp2021_dis.Kalloc.{pgsize}
use cs537_sp2021_dis.Vm.{bit_or, pte_addr, present}
use cs537_sp2021_dis.Vm.Maps.{pte_of}

-- The lowest bit, and the others.
bit_or-low : (n a b : ℕ) → bit_or (suc n) a b % 2 ≡ (if a % 2 == 1 || b % 2 == 1 then 1 else 0)
unfolding bit_or
bit_or-low n a b = ground arith

bit_or-half : (n a b : ℕ) → bit_or (suc n) a b / 2 ≡ bit_or n (a / 2) (b / 2)
unfolding bit_or
bit_or-half n a b = ground arith

pub bit_or-bit : (k n a b : ℕ) → k < n → bit k (bit_or n a b) ≡ (bit k a || bit k b)
unfolding bit
bit_or-bit k zero a b lt = absurd (omega (arith, lt))
bit_or-bit zero (suc n) a b lt = ground (arith, bit_or-low n a b)
bit_or-bit (suc k) (suc n) a b lt =
    ap (bit k) (bit_or-half n a b) ∙ bit_or-bit k n (a / 2) (b / 2) (omega (arith, lt))

-- `v >> k`
unfoldable shift : ℕ → ℕ → ℕ
shift zero v = v
shift (suc k) v = shift k (v / 2)

shift_page : (v : ℕ) → shift 12 v ≡ v / 4096
unfolding shift
shift_page v = omega arith

shift-bit_or : (k n a b : ℕ) → shift k (bit_or (k + n) a b) ≡ bit_or n (shift k a) (shift k b)
unfolding shift
shift-bit_or zero n a b = ap (λ m. bit_or m a b) (omega arith)
shift-bit_or (suc k) n a b =
    let e : suc k + n ≡ suc (k + n) = omega arith in
    ap (λ m. shift k (bit_or m a b / 2)) e
    ∙ ap (shift k) (bit_or-half (k + n) a b)
    ∙ shift-bit_or k n (a / 2) (b / 2)

bit_or-zero : (n a : ℕ) → a < 2 ^ n → bit_or n a 0 ≡ a
unfolding bit_or
bit_or-zero zero a lt = omega (arith, lt)
bit_or-zero (suc n) a lt = ground (arith, bit_or-zero n (a / 2) (omega (arith, lt)))

-- The page of an entry.
or_page : (a b : ℕ) → b < pgsize → bit_or 32 a b / 4096 ≡ bit_or 20 (a / 4096) 0
or_page a b lt =
    sym (shift_page (bit_or 32 a b))
    ∙ shift-bit_or 12 20 a b
    ∙ ap (λ x. bit_or 20 x (shift 12 b)) (shift_page a)
    ∙ ap (bit_or 20 (a / 4096)) (shift_page b ∙ omega (arith, lt))

pub pte_addr-pte_of :
    (pa perm : ℕ) → pa % pgsize ≡ 0 → pa < 2 ^ 32 → perm < pgsize → pte_addr (pte_of pa perm) ≡ pa
pte_addr-pte_of pa perm al lt lp =
    let inner = or_page pa perm lp ∙ bit_or-zero 20 (pa / 4096) (omega (arith, lt)) in
    let outer =
      or_page (bit_or 32 pa perm) 1 (omega arith)
      ∙ bit_or-zero 20 (bit_or 32 pa perm / 4096) (omega (arith, inner, lt)) in
    omega (arith, inner, outer, al)

pub pte_of-bit : (k pa perm : ℕ) → k < 12 → bit k perm ≡ true → bit k (pte_of pa perm) ≡ true
pte_of-bit k pa perm lt h =
    bit_or-bit k 32 (bit_or 32 pa perm) 1 (omega (arith, lt))
    ∙ ap (λ b. b || bit k 1) (bit_or-bit k 32 pa perm (omega (arith, lt)))
    ∙ ground (arith, h)

pub pte_of-present : (pa perm : ℕ) → present (pte_of pa perm) ≡ true
pte_of-present pa perm = ground (arith, bit_or-low 31 (bit_or 32 pa perm) 1)
