-- ===== src/Inode/Free.antt =====
-- The loops of itrunc: each frees the blocks of its slots.
use cs537_sp2021_dis.Base.{
  ℕ, zero, suc, ◌*◌, ◌<◌, ◌≡◌, ◌≢◌, refl, ◌∙◌, sym, ap, inl, inr, Bool, true, false, not, ◌&&◌,
  ◌||◌, Bool-cases, arith, ltb, ◌==◌, if◌then◌else◌, update,
}
use cs537_sp2021_dis.Bytes.{get_word}
use cs537_sp2021_dis.Fs.{Fs, Result, returns, panics, bind, used, bfree}
use cs537_sp2021_dis.Fs.Bitmap.{Refuses, Extends, Extends-refl, Extends-trans}
use cs537_sp2021_dis.Fs.Balloc.{Apart, Frees, bfree-Frees}
use cs537_sp2021_dis.Inode.{Inode, free_slot, free_direct, free_indirect}

-- Whether `j` is one of the blocks `f 0`, ..., `f (n - 1)`; 0 is no block.
unfoldable pub among : ℕ → (ℕ → ℕ) → ℕ → Bool
among zero f j = false
among (suc n) f j = among n f j || not (f n == 0) && f n == j

pub among_at : (n : ℕ) (f : ℕ → ℕ) (k : ℕ) → k < n → f k ≢ 0 → among n f (f k) ≡ true
unfolding among
among_at zero f k lt ne = absurd (omega (arith, lt))
among_at (suc n) f k lt ne = elim (Bool-cases (k == n)) [
  | inl last ↦ let e : k ≡ n = ground (arith, last) in ground (arith, ap f e, ne)
  | inr before ↦
      let below : k < n = ground (arith, lt, before) in ground (arith, among_at n f k below ne)
]

pub among_none : (n : ℕ) (f : ℕ → ℕ) (j : ℕ) → ((k : ℕ) → k < n → f k ≢ j) → among n f j ≡ false
unfolding among
among_none zero f j h = refl
among_none (suc n) f j h =
    ground (arith, among_none n f j (λ k lt. h k (omega (arith, lt))), h n (omega arith))

-- The blocks of `gone` are free, and the others as they were.
pub record Freed (s : Fs) (gone : ℕ → Bool) (t : Fs) : Type 0 where
  pub marks : (j : ℕ) → used t j ≡ (if gone j then false else used s j)
  pub blocks : (c : ℕ) → Apart s c → t.blocks c ≡ s.blocks c
  pub ext : Extends s t

-- Blocks that can be freed one after the other.
pub record Blocks (s : Fs) (n : ℕ) (f : ℕ → ℕ) : Type 0 where
  pub in_use : (k : ℕ) → k < n → f k ≢ 0 → used s (f k) ≡ true
  pub high : (k : ℕ) → k < n → f k ≢ 0 → f k < s.size
  pub distinct : (i k : ℕ) → i < n → k < n → f i ≢ 0 → f i ≡ f k → i ≡ k

abbrev pub FreesAll : Fs → (ℕ → Bool) → Result (Unit {0}) → Type 0
FreesAll s gone (returns x t) = Freed s gone t
FreesAll s gone (panics t) = Refuses t

pub Blocks-suc : (s : Fs) (n : ℕ) (f : ℕ → ℕ) → Blocks s (suc n) f → Blocks s n f
Blocks-suc s n f h = record {
  in_use = λ k lt. h.in_use k (omega (arith, lt));
  high = λ k lt. h.high k (omega (arith, lt));
  distinct = λ i k li lk. h.distinct i k (omega (arith, li)) (omega (arith, lk));
}

Freed-refl : (s : Fs) → Freed s (λ j. false) s
Freed-refl s = record { marks = λ j. refl; blocks = λ c h. refl; ext = Extends-refl s }

pub none_gone : (s : Fs) (f : ℕ → ℕ) → Freed s (among 0 f) s
unfolding among
none_gone s f = Freed-refl s

-- One more block.
Freed-one :
    (s t : Fs) (gone : ℕ → Bool) (b : ℕ) (r : Result (Unit {0}))
    → Freed s gone t
    → used s b ≡ true
    → gone b ≡ false
    → b < s.size
    → Frees t b r
    → FreesAll s (λ j. gone j || b == j) r
Freed-one s t gone b (returns x u) h was other lt (now, marks, blocks, ext) = record {
  marks = λ j. ground (arith, marks j, h.marks j);
  blocks = λ c out.
      blocks c (omega (arith, lt, h.ext.size)) (omega (arith, out, h.ext.size, h.ext.bmapstart))
      ∙ h.blocks c out;
  ext = Extends-trans h.ext ext;
}
Freed-one s t gone b (panics u) h was other lt (inr full) = full
Freed-one s t gone b (panics u) h was other lt (inl (e, free)) =
    absurd (ground (arith, free, h.marks b, was, other))

-- The next slot.
pub next_gone :
    (s : Fs) (n : ℕ) (f : ℕ → ℕ) → Blocks s (suc n) f → f n ≢ 0 → among n f (f n) ≡ false
next_gone s n f h ne = among_none n f (f n) (λ k lt e.
    absurd (omega (arith, lt, h.distinct n k (omega arith) (omega (arith, lt)) ne (sym e))))

pub Freed-same :
    (s t : Fs) (gone gone' : ℕ → Bool)
    → ((j : ℕ) → gone j ≡ gone' j)
    → Freed s gone t
    → Freed s gone' t
Freed-same s t gone gone' e h = record {
  marks = λ j. ground (arith, e j, h.marks j);
  blocks = h.blocks;
  ext = h.ext;
}

FreesAll-same :
    (s : Fs) (gone gone' : ℕ → Bool) (r : Result (Unit {0}))
    → ((j : ℕ) → gone j ≡ gone' j)
    → FreesAll s gone r
    → FreesAll s gone' r
FreesAll-same s gone gone' (returns x t) e h = Freed-same s t gone gone' e h
FreesAll-same s gone gone' (panics t) e h = h

-- `if(f[n]) bfree(f[n])`
Freed-next :
    (s t : Fs) (n : ℕ) (f : ℕ → ℕ)
    → Blocks s (suc n) f
    → Freed s (among n f) t
    → FreesAll s (among (suc n) f) (if f n == 0 then returns tt t else bfree t (f n))
unfolding among
Freed-next s t n f h freed = elim (Bool-cases (f n == 0)) [
  | inl z ↦
      rw z record {
        marks = λ j. ground (arith, freed.marks j);
        blocks = freed.blocks;
        ext = freed.ext;
      }
  | inr ne ↦
      let nonzero : f n ≢ 0 = ground (arith, ne) in
      let one =
        Freed-one s t (among n f) (f n) (bfree t (f n)) freed (h.in_use n (omega arith) nonzero)
          (next_gone s n f h nonzero) (h.high n (omega arith) nonzero) (bfree-Frees t (f n)) in
      rw ne (
        FreesAll-same s (λ j. among n f j || f n == j) (among (suc n) f) (bfree t (f n))
          (λ j. ground (arith, ne)) one)
]

free_indirect-then :
    (s : Fs) (n : ℕ) (a : ℕ → ℕ) (r : Result (Unit {0}))
    → Blocks s (suc n) (λ k. get_word a (4 * k))
    → FreesAll s (among n (λ k. get_word a (4 * k))) r
    → FreesAll s (among (suc n) (λ k. get_word a (4 * k))) (
        bind r
          λ x t. let addr = get_word a (4 * n) in if addr == 0 then returns tt t else bfree t addr)
free_indirect-then s n a (returns x t) h freed = Freed-next s t n (λ k. get_word a (4 * k)) h freed
free_indirect-then s n a (panics t) h freed = freed

pub free_indirect-FreesAll :
    (s : Fs) (n : ℕ) (a : ℕ → ℕ)
    → Blocks s n (λ k. get_word a (4 * k))
    → FreesAll s (among n (λ k. get_word a (4 * k))) (free_indirect n a s)
unfolding free_indirect
free_indirect-FreesAll s zero a h = none_gone s (λ k. get_word a (4 * k))
free_indirect-FreesAll s (suc n) a h =
    free_indirect-then s n a (free_indirect n a s) h
      (free_indirect-FreesAll s n a (Blocks-suc s n (λ k. get_word a (4 * k)) h))

-- The direct slots below `n` are empty.
abbrev pub FreesSlots : Fs → Inode → ℕ → Result Inode → Type 0
FreesSlots s ip n (returns ip' t) =
    Freed s (among n ip.addrs) t
    × ((k : ℕ) → ip'.addrs k ≡ (if ltb k n then 0 else ip.addrs k))
    × (ip' ≡ record ip { addrs = ip'.addrs })
FreesSlots s ip n (panics t) = Refuses t

-- One slot, with its block.
abbrev pub Clears : Fs → Inode → (ℕ → Bool) → ℕ → Result Inode → Type 0
Clears s ip gone n (returns ip' t) =
    Freed s gone t
    × ((k : ℕ) → ip'.addrs k ≡ (if k == n then 0 else ip.addrs k))
    × (ip' ≡ record ip { addrs = ip'.addrs })
Clears s ip gone n (panics t) = Refuses t

Clears-block :
    (s : Fs) (ip : Inode) (gone : ℕ → Bool) (n : ℕ) (r : Result (Unit {0}))
    → FreesAll s gone r
    → Clears s ip gone n (bind r λ x t. returns (record ip { addrs = update ip.addrs n 0 }) t)
Clears-block s ip gone n (returns x t) h = (h, λ k. ground arith, refl)
Clears-block s ip gone n (panics t) h = h

-- `t` is the state in which the slot is freed.
pub free_slot-Clears :
    (s t : Fs) (ip : Inode) (gone : ℕ → Bool) (n : ℕ)
    → Freed s gone t
    → ((ip.addrs n ≢ 0)
        → (used s (ip.addrs n) ≡ true) × (gone (ip.addrs n) ≡ false) × (ip.addrs n < s.size))
    → Clears s ip (λ j. gone j || not (ip.addrs n == 0) && ip.addrs n == j) n (free_slot n t ip)
unfolding free_slot
free_slot-Clears s t ip gone n freed h = elim (Bool-cases (ip.addrs n == 0)) [
  | inl z ↦ rw z (
    record { marks = λ j. ground (arith, freed.marks j); blocks = freed.blocks; ext = freed.ext },
    λ k. ground (arith, z),
    refl,
  )
  | inr ne ↦
      let (was, other, lt) = h (ground (arith, ne)) in
      rw ne (
        Clears-block s ip (λ j. gone j || true && ip.addrs n == j) n (bfree t (ip.addrs n))
          (Freed-one s t gone (ip.addrs n) (bfree t (ip.addrs n)) freed was other lt
            (bfree-Frees t (ip.addrs n))))
]

-- A slot more is empty.
slots-then :
    (s : Fs) (ip ip' : Inode) (n : ℕ) (r : Result Inode)
    → ((k : ℕ) → ip'.addrs k ≡ (if ltb k n then 0 else ip.addrs k))
    → ip' ≡ record ip { addrs = ip'.addrs }
    → ip'.addrs n ≡ ip.addrs n
    → Clears s ip' (λ j. among n ip.addrs j || not (ip'.addrs n == 0) && ip'.addrs n == j) n r
    → FreesSlots s ip (suc n) r
unfolding among
slots-then s ip ip' n (returns ip2 t) empty fields same (freed, cleared, fields2) = (
  Freed-same s t (λ j. among n ip.addrs j || not (ip'.addrs n == 0) && ip'.addrs n == j)
      (among (suc n) ip.addrs) (λ j. ap (λ x. among n ip.addrs j || not (x == 0) && x == j) same)
      freed,
  λ k. cleared k ∙ ground (arith, empty k),
  fields2 ∙ ap (λ (x : Inode). record x { addrs = ip2.addrs }) fields,
)
slots-then s ip ip' n (panics t) empty fields same h = h

direct-then :
    (s : Fs) (ip : Inode) (n : ℕ) (r : Result Inode)
    → Blocks s (suc n) ip.addrs
    → FreesSlots s ip n r
    → FreesSlots s ip (suc n) (bind r λ ip' t. free_slot n t ip')
direct-then s ip n (panics t) h slots = slots
direct-then s ip n (returns ip' t) h (freed, empty, fields) =
    let same : ip'.addrs n ≡ ip.addrs n = empty n ∙ ground arith in
    slots-then s ip ip' n (free_slot n t ip') empty fields same (
      free_slot-Clears s t ip' (among n ip.addrs) n freed (λ ne.
        let nonzero : ip.addrs n ≢ 0 = λ z. ne (same ∙ z) in
        (
          ap (used s) same ∙ h.in_use n (omega arith) nonzero,
          ap (among n ip.addrs) same ∙ next_gone s n ip.addrs h nonzero,
          omega (arith, same, h.high n (omega arith) nonzero),
        )))

pub free_direct-FreesSlots :
    (s : Fs) (ip : Inode) (n : ℕ) → Blocks s n ip.addrs → FreesSlots s ip n (free_direct n s ip)
unfolding free_direct
free_direct-FreesSlots s ip zero h = (none_gone s ip.addrs, λ k. ground arith, refl)
free_direct-FreesSlots s ip (suc n) h =
    direct-then s ip n (free_direct n s ip) h
      (free_direct-FreesSlots s ip n (Blocks-suc s n ip.addrs h))
