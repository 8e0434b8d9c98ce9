-- ===== src/Fs/Balloc.antt =====
-- `balloc` takes the first free block, and `bfree` gives a block back.
use cs537_sp2021_dis.Base.{
  ℕ, zero, suc, ◌+◌, ◌-◌, ◌*◌, ◌/◌, ◌%◌, ◌≤◌, ◌<◌, ◌≡◌, ◌≢◌, refl, ◌∙◌, sym, ap, subst, subst₂, ◌⊎◌,
  inl, inr, true, false, not, Bool-cases, Option, none, some, arith, ltb, ◌==◌, if◌then◌else◌,
  update_ne, dec_lt, Finds, find_first-Finds,
}
use cs537_sp2021_dis.Fs.{
  Fs, bpb, bblock, Result, returns, panics, bind, bzero, stored, with_bit, without_bit, is_marked,
  mark, unmark, free_bit, balloc_from, balloc, used, bfree,
}
use cs537_sp2021_dis.Fs.Bitmap.{
  nmeta, IsFs, Refuses, logged_write, logged_last, marked, unmarked, Extends, Extends-trans,
  stored-Extends, used-marked, used-unmarked, used-stored,
}

-- The blocks that are not of the bitmap.
abbrev pub Apart : Fs → ℕ → Type 0
Apart s c = (c < s.bmapstart) ⊎ (nmeta s ≤ c)

-- A call of `balloc`: a block of the data that was free is in use and 0 now, the others are as they
-- were, and what changed is logged; it panics when no block is free, or `log_write` does.
abbrev pub Allocates : Fs → Result ℕ → Type 0
Allocates s (returns b t) =
    (nmeta s ≤ b)
    × (b < s.size)
    × (used s b ≡ false)
    × ((j : ℕ) → j < s.size → used t j ≡ (if b == j then true else used s j))
    × ((i : ℕ) → t.blocks b i ≡ 0)
    × ((c : ℕ) → c ≢ b → Apart s c → t.blocks c ≡ s.blocks c)
    × Extends s t
Allocates s (panics t) = ((t ≡ s) × ((j : ℕ) → j < s.size → used s j ≡ true)) ⊎ Refuses t

marked-Extends : (s : Fs) (c bi : ℕ) → Extends s (marked s c bi)
marked-Extends s c bi = stored-Extends s c _

unmarked-Extends : (s : Fs) (c bi : ℕ) → Extends s (unmarked s c bi)
unmarked-Extends s c bi = stored-Extends s c _

marked-same : (s : Fs) (b bi c : ℕ) → c ≢ b → (marked s b bi).blocks c ≡ s.blocks c
marked-same s b bi c ne = ground (arith, ne)

unmarked-same : (s : Fs) (b bi c : ℕ) → c ≢ b → (unmarked s b bi).blocks c ≡ s.blocks c
unmarked-same s b bi c ne = ground (arith, ne)

found-Allocates :
    (s : Fs) (b : ℕ)
    → IsFs s
    → b < s.size
    → used s b ≡ false
    → Allocates s (returns b (stored (marked s (bblock s b) (b % bpb)) b (λ i. 0)))
found-Allocates s b v lt free =
    let m = marked s (bblock s b) (b % bpb) in
    let ext = marked-Extends s (bblock s b) (b % bpb) in
    let above : nmeta s ≤ b = elim (dec_lt b (nmeta s)) [
      | yes low ↦ cc (v.meta_used b low)
      | no high ↦ omega (arith, high)
    ] in
    let above_m : nmeta m ≤ b = omega (arith, above, ext.size, ext.bmapstart) in
    (
      above,
      lt,
      free,
      λ j l. used-stored m b (λ i. 0) j above_m (omega (arith, l, ext.size)) ∙ used-marked s b j,
      λ i. ground arith,
      λ c ne out.
          update_ne m.blocks b c (λ i. 0) (λ e. ne (sym e))
          ∙ marked-same s (bblock s b) (b % bpb) c (omega (arith, out, lt)),
      Extends-trans ext (stored-Extends m b (λ i. 0)),
    )

free_bit-Finds :
    (s : Fs) (b : ℕ)
    → Finds
        (λ bi. not (is_marked s (bblock s b) bi))
        (if ltb (s.size - b) bpb then s.size - b else bpb)
        (free_bit s b)
unfolding free_bit
free_bit-Finds s b =
    find_first-Finds (λ bi. not (is_marked s (bblock s b) bi))
      (if ltb (s.size - b) bpb then s.size - b else bpb)

-- What the loop comes to at the block `b`, by what is found in its block of the bitmap.
step : ℕ → Fs → ℕ → Option ℕ → Result ℕ
step fuel s b (some bi) =
    bind (mark s (bblock s b) bi) λ x t. bind (bzero t (b + bi)) λ y u. returns (b + bi) u
step fuel s b none = balloc_from fuel s (b + bpb)

balloc_from-step :
    (fuel : ℕ) (s : Fs) (b : ℕ)
    → b < s.size
    → balloc_from (suc fuel) s b ≡ step fuel s b (free_bit s b)
unfolding balloc_from step
balloc_from-step fuel s b lt = ground (arith, lt)

balloc_from-end : (fuel : ℕ) (s : Fs) (b : ℕ) → s.size ≤ b → balloc_from fuel s b ≡ panics s
unfolding balloc_from
balloc_from-end zero s b le = refl
balloc_from-end (suc fuel) s b le = ground (arith, le)

step_found :
    (fuel : ℕ) (s : Fs) (b bi : ℕ)
    → IsFs s
    → b % bpb ≡ 0
    → bi < bpb
    → b + bi < s.size
    → not (is_marked s (bblock s b) bi) ≡ true
    → Allocates s (step fuel s b (some bi))
unfolding step mark
step_found fuel s b bi v e lt size free =
    let block : (b + bi) / bpb ≡ b / bpb = omega (arith, e, lt) in
    let offset : (b + bi) % bpb ≡ bi = omega (arith, e, lt) in
    let found =
      subst₂ (λ c k. Allocates s (returns (b + bi) (stored (marked s c k) (b + bi) (λ i. 0))))
        (ap (λ q. q + s.bmapstart) block) offset
        (found-Allocates s (b + bi) v size (simp (block, offset) (ground (arith, free)))) in
    logged_write (Allocates s) s (bblock s b) (with_bit (s.blocks (bblock s b)) bi)
      (λ x t. bind (bzero t (b + bi)) λ y u. returns (b + bi) u) (λ t full. inr full)
      (logged_write (Allocates s) (marked s (bblock s b) bi) (b + bi) (λ i. 0)
        (λ y u. returns (b + bi) u) (λ t full. inr full) found)

step-none :
    (fuel : ℕ) (s : Fs) (b : ℕ)
    → Allocates s (balloc_from fuel s (b + bpb))
    → Allocates s (step fuel s b none)
unfolding step
step-none fuel s b h = h

none_used :
    (s : Fs) (b j : ℕ)
    → b % bpb ≡ 0
    → Finds
        (λ bi. not (is_marked s (bblock s b) bi))
        (if ltb (s.size - b) bpb then s.size - b else bpb)
        none
    → b ≤ j
    → j < b + bpb
    → j < s.size
    → used s j ≡ true
none_used s b j e h lo hi lt =
    let block : j / bpb ≡ b / bpb = omega (arith, e, lo, hi) in
    let offset : j % bpb ≡ j - b = omega (arith, e, lo, hi) in
    simp (block, offset) (ground (arith, h (j - b) (ground (arith, lo, hi, lt))))

step-Allocates :
    (fuel : ℕ) (s : Fs) (b : ℕ)
    → IsFs s
    → b % bpb ≡ 0
    → b < s.size
    → (((j : ℕ) → j < b + bpb → j < s.size → used s j ≡ true)
        → Allocates s (balloc_from fuel s (b + bpb)))
    → ((j : ℕ) → j < b → j < s.size → used s j ≡ true)
    → (r : Option ℕ)
    → Finds
        (λ bi. not (is_marked s (bblock s b) bi))
        (if ltb (s.size - b) bpb then s.size - b else bpb)
        r
    → Allocates s (step fuel s b r)
step-Allocates fuel s b v e lt next before (some bi) found =
    step_found fuel s b bi v e (ground (arith, found.0)) (ground (arith, found.0)) found.1
step-Allocates fuel s b v e lt next before none found = step-none fuel s b (
    next λ j hi l. elim (dec_lt j b) [
      | yes low ↦ before j low l
      | no high ↦ none_used s b j e found (omega (arith, high)) hi l
    ])

balloc_from-Allocates :
    (fuel : ℕ) (s : Fs) (b : ℕ)
    → IsFs s
    → b % bpb ≡ 0
    → s.size ≤ b + fuel * bpb
    → ((j : ℕ) → j < b → j < s.size → used s j ≡ true)
    → Allocates s (balloc_from fuel s b)
balloc_from-Allocates zero s b v e enough before =
    subst (Allocates s) (sym (balloc_from-end zero s b (omega (arith, enough))))
      (inl (refl, λ j l. before j (omega (arith, l, enough)) l))
balloc_from-Allocates (suc fuel) s b v e enough before = elim (dec_lt b s.size) [
  | no out ↦
      subst (Allocates s) (sym (balloc_from-end (suc fuel) s b (omega (arith, out))))
        (inl (refl, λ j l. before j (omega (arith, out, l)) l))
  | yes lt ↦ subst (Allocates s) (sym (balloc_from-step fuel s b lt)) (
      step-Allocates fuel s b v e lt
        (λ all.
          balloc_from-Allocates fuel s (b + bpb) v (omega (arith, e)) (omega (arith, enough)) all)
        before (free_bit s b) (free_bit-Finds s b))
]

-- On a file system whose metadata is marked as in use, `balloc` gives a block of the data that was
-- free; it is marked, and it alone, and is 0; the other blocks, but for the bitmap, are as they were,
-- and what changed is logged. It panics only when no block is free, and then nothing has changed, or
-- where `log_write` panics: when the log has no room, or no transaction is open.
pub balloc-Allocates : (s : Fs) → IsFs s → Allocates s (balloc s)
unfolding balloc
balloc-Allocates s v =
    balloc_from-Allocates (s.size / bpb + 1) s 0 v refl (omega arith)
      (λ j l. absurd (omega (arith, l)))

pub Allocates-IsFs : (s t : Fs) (b : ℕ) → IsFs s → Allocates s (returns b t) → IsFs t
Allocates-IsFs s t b v (above, size, free, marked, zeroed, same, ext) =
    let metas : nmeta t ≡ nmeta s = omega (arith, ext.size, ext.bmapstart) in
    record {
      inodes = omega (arith, v.inodes, ext.inodestart, ext.ninodes, ext.bmapstart);
      meta_used = λ c h.
          let low : c < nmeta s = omega (arith, h, metas) in
          marked c (omega (arith, low, v.meta_size)) ∙ ground (arith, v.meta_used c low);
      meta_size = omega (arith, metas, v.meta_size, ext.size);
    }

-- A call of `bfree` on the block `b`: it is free, and it alone; a free block is a panic, and a panic of
-- `log_write` is one.
abbrev pub Frees : Fs → ℕ → Result (Unit {0}) → Type 0
Frees s b (returns x t) =
    (used s b ≡ true)
    × ((j : ℕ) → used t j ≡ (if b == j then false else used s j))
    × ((c : ℕ) → (b < s.size) → Apart s c → t.blocks c ≡ s.blocks c)
    × Extends s t
Frees s b (panics t) = ((t ≡ s) × (used s b ≡ false)) ⊎ Refuses t

pub bfree-Frees : (s : Fs) (b : ℕ) → Frees s b (bfree s b)
unfolding bfree unmark
bfree-Frees s b = elim (Bool-cases (used s b)) [
  | inl h ↦ rw h (
      logged_last (Frees s b) s (bblock s b) (without_bit (s.blocks (bblock s b)) (b % bpb))
        (λ t full. inr full)
        (
          h,
          used-unmarked s b,
          λ c lt out. unmarked-same s (bblock s b) (b % bpb) c (omega (arith, out, lt)),
          unmarked-Extends s (bblock s b) (b % bpb),
        ))
  | inr h ↦ rw h (inl (refl, h))
]
