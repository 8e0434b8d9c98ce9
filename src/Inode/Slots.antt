-- ===== src/Inode/Slots.antt =====
-- The block numbers of an inode: the slots 0 to 11 are direct, 12 is the indirect block, and those
-- from 13 on are the entries of that block.
use cs537_sp2021_dis.Base.{
  ℕ, ◌-◌, ◌*◌, ◌^◌, ◌≤◌, ◌<◌, ◌≡◌, ◌≢◌, ◌∙◌, sym, ap, ◌⊎◌, true, false, arith, ltb, ◌==◌,
  if◌then◌else◌, ℕ_discrete,
}
use cs537_sp2021_dis.Bytes.{get_word}
use cs537_sp2021_dis.Fs.{Fs, Result, returns, panics, used}
use cs537_sp2021_dis.Fs.Bitmap.{nmeta, IsFs, Refuses, Extends}
use cs537_sp2021_dis.Fs.Balloc.{Apart}
use cs537_sp2021_dis.Inode.{Inode}

abbrev pub slots : ℕ
slots = 141

abbrev pub slot : Fs → Inode → ℕ → ℕ
slot s ip i =
    if ltb i 13
    then ip.addrs i
    else if ip.addrs 12 == 0
    then 0
    else get_word (s.blocks (ip.addrs 12)) (4 * (i - 13))

-- A slot is empty, or holds a block of the data that is in use; no block is in two slots.
pub record IsFile (s : Fs) (ip : Inode) : Type 0 where
  pub fs : IsFs s
  pub word : s.size < 2 ^ 32
  pub low : (i : ℕ) → i < slots → slot s ip i ≢ 0 → nmeta s ≤ slot s ip i
  pub high : (i : ℕ) → i < slots → slot s ip i ≢ 0 → slot s ip i < s.size
  pub in_use : (i : ℕ) → i < slots → slot s ip i ≢ 0 → used s (slot s ip i) ≡ true
  pub distinct :
      (i j : ℕ) → i < slots → j < slots → slot s ip i ≢ 0 → slot s ip i ≡ slot s ip j → i ≡ j

-- The slot `i` gets the new block `b`, and the other slots are as they were.
pub record Sets (s : Fs) (ip : Inode) (i b : ℕ) (t : Fs) (ip' : Inode) : Type 0 where
  pub slots_lem : (k : ℕ) → k < slots → slot t ip' k ≡ (if i == k then b else slot s ip k)
  pub above : nmeta s ≤ b
  pub below : b < s.size
  pub unused : used s b ≡ false
  pub marked : (j : ℕ) → j < s.size → used t j ≡ (if b == j then true else used s j)
  pub valid : IsFs t
  pub ext : Extends s t

-- What `bmap` and its parts do for the slot `i`: it holds the block `b`.
pub record MapsTo (s : Fs) (ip : Inode) (i b : ℕ) (t : Fs) (ip' : Inode) : Type 0 where
  pub file : IsFile t ip'
  pub nonzero : b ≢ 0
  pub here : slot t ip' i ≡ b
  pub others : (k : ℕ) → k < slots → k ≢ i → k ≢ 12 → slot t ip' k ≡ slot s ip k
  pub kept : (k : ℕ) → k < slots → slot s ip k ≢ 0 → slot t ip' k ≡ slot s ip k
  pub fields : ip' ≡ record ip { addrs = ip'.addrs }
  pub still_used : (c : ℕ) → c < s.size → used s c ≡ true → used t c ≡ true
  pub frame :
      (c : ℕ)
      → c < s.size
      → used s c ≡ true
      → Apart s c
      → c ≢ slot s ip 12
      → t.blocks c ≡ s.blocks c
  pub new : slot s ip i ≡ 0 → (used s b ≡ false) × ((k : ℕ) → t.blocks b k ≡ 0)
  pub old : slot s ip i ≢ 0 → (t ≡ s) × (ip' ≡ ip)
  pub fresh :
      (k : ℕ)
      → k < slots
      → slot t ip' k ≢ 0
      → (slot t ip' k ≡ slot s ip k) ⊎ (used s (slot t ip' k) ≡ false)
  pub ext : Extends s t

-- A panic: the disk is full, or `log_write` panics.
abbrev pub Stuck : Fs → Type 0
Stuck t = ((j : ℕ) → j < t.size → used t j ≡ true) ⊎ Refuses t

-- A result: the slot holds a block, or there is a panic.
abbrev pub Maps : Fs → Inode → ℕ → Result (ℕ × Inode) → Type 0
Maps s ip i (returns (b, ip') t) = MapsTo s ip i b t ip'
Maps s ip i (panics t) = Stuck t

module _ (s t : Fs) (ip ip' : Inode) (i b : ℕ) (v : IsFile s ip) (empty : slot s ip i ≡ 0) where
  Sets-nmeta : Sets s ip i b t ip' → nmeta t ≡ nmeta s
  Sets-nmeta h = omega (arith, h.ext.size, h.ext.bmapstart)

  Sets-low : Sets s ip i b t ip' → (k : ℕ) → k < slots → slot t ip' k ≢ 0 → nmeta t ≤ slot t ip' k
  Sets-low h k lt ne = elim (ℕ_discrete i k) [
    | yes same ↦
        let e : slot t ip' k ≡ b = h.slots_lem k lt ∙ ground (arith, same) in
        omega (arith, e, h.above, Sets-nmeta h)
    | no other ↦
        let e : slot t ip' k ≡ slot s ip k = h.slots_lem k lt ∙ ground (arith, other) in
        omega (arith, e, v.low k lt (λ z. ne (e ∙ z)), Sets-nmeta h)
  ]

  Sets-high : Sets s ip i b t ip' → (k : ℕ) → k < slots → slot t ip' k ≢ 0 → slot t ip' k < t.size
  Sets-high h k lt ne = elim (ℕ_discrete i k) [
    | yes same ↦
        let e : slot t ip' k ≡ b = h.slots_lem k lt ∙ ground (arith, same) in
        omega (arith, e, h.below, h.ext.size)
    | no other ↦
        let e : slot t ip' k ≡ slot s ip k = h.slots_lem k lt ∙ ground (arith, other) in
        omega (arith, e, v.high k lt (λ z. ne (e ∙ z)), h.ext.size)
  ]

  Sets-in_use :
      Sets s ip i b t ip' → (k : ℕ) → k < slots → slot t ip' k ≢ 0 → used t (slot t ip' k) ≡ true
  Sets-in_use h k lt ne = elim (ℕ_discrete i k) [
    | yes same ↦
        let e : slot t ip' k ≡ b = h.slots_lem k lt ∙ ground (arith, same) in
        ap (used t) e ∙ h.marked b h.below ∙ ground arith
    | no other ↦
        let e : slot t ip' k ≡ slot s ip k = h.slots_lem k lt ∙ ground (arith, other) in
        let was = v.in_use k lt (λ z. ne (e ∙ z)) in
        ap (used t) e ∙ h.marked (slot s ip k) (v.high k lt (λ z. ne (e ∙ z))) ∙ ground (arith, was)
  ]

  -- The new block is in no other slot.
  Sets-new : Sets s ip i b t ip' → (k : ℕ) → k < slots → slot s ip k ≢ 0 → slot s ip k ≢ b
  Sets-new h k lt ne e =
      let was = v.in_use k lt ne in
      let now : used s b ≡ true = ap (used s) (sym e) ∙ was in cc (now, h.unused)

  Sets-distinct :
      Sets s ip i b t ip'
      → (j k : ℕ) → j < slots
      → k < slots
      → slot t ip' j ≢ 0
      → slot t ip' j ≡ slot t ip' k
      → j ≡ k
  Sets-distinct h j k lj lk ne e =
      let ej = h.slots_lem j lj in
      let ek = h.slots_lem k lk in
      elim (ℕ_discrete i j) [
        | yes same_j ↦ elim (ℕ_discrete i k) [
          | yes same_k ↦ sym same_j ∙ same_k
          | no other_k ↦
              let bj : slot t ip' j ≡ b = ej ∙ ground (arith, same_j) in
              let bk : slot t ip' k ≡ slot s ip k = ek ∙ ground (arith, other_k) in
              absurd (Sets-new h k lk (λ z. ne (e ∙ bk ∙ z)) (sym bk ∙ sym e ∙ bj))
        ]
        | no other_j ↦
            let bj : slot t ip' j ≡ slot s ip j = ej ∙ ground (arith, other_j) in
            elim (ℕ_discrete i k) [
              | yes same_k ↦
                  let bk : slot t ip' k ≡ b = ek ∙ ground (arith, same_k) in
                  absurd (Sets-new h j lj (λ z. ne (bj ∙ z)) (sym bj ∙ e ∙ bk))
              | no other_k ↦
                  let bk : slot t ip' k ≡ slot s ip k = ek ∙ ground (arith, other_k) in
                  v.distinct j k lj lk (λ z. ne (bj ∙ z)) (sym bj ∙ e ∙ bk)
            ]
      ]

  pub Sets-IsFile : Sets s ip i b t ip' → IsFile t ip'
  Sets-IsFile h = record {
    fs = h.valid;
    word = omega (arith, v.word, h.ext.size);
    low = Sets-low h;
    high = Sets-high h;
    in_use = Sets-in_use h;
    distinct = Sets-distinct h;
  }
