-- ===== src/Contents/Write.antt =====
-- What `writei` does to the bytes of a file.
use cs537_sp2021_dis.Base.{
  ℕ, ◌+◌, ◌-◌, ◌*◌, ◌/◌, ◌%◌, ◌≤◌, ◌<◌, ◌≡◌, ◌≢◌, refl, ◌∙◌, sym, ap, ◌⊎◌, inl, inr, true, false,
  arith, update, update_ne, update_self, ℕ_discrete,
}
use cs537_sp2021_dis.Bytes.{get_word}
use cs537_sp2021_dis.Fs.{Fs, bsize, Result, returns, panics, used, stored}
use cs537_sp2021_dis.Fs.Bitmap.{Extends, Extends-refl, used-stored}
use cs537_sp2021_dis.Fs.Balloc.{Apart}
use cs537_sp2021_dis.Inode.{Inode}
use cs537_sp2021_dis.Inode.Slots.{slots, slot, IsFile, MapsTo, Stuck}
use cs537_sp2021_dis.Inode.Bmap.{slot_of}

-- The slot of the byte `o` of a file.
abbrev pub byte_slot : ℕ → ℕ
byte_slot o = slot_of (o / bsize)

-- The byte has a block.
abbrev pub HasBlock : Fs → Inode → ℕ → Type 0
HasBlock s ip o = slot s ip (byte_slot o) ≢ 0

abbrev pub content : Fs → Inode → ℕ → ℕ
content s ip o = s.blocks (slot s ip (byte_slot o)) (o % bsize)

-- The largest size of a file.
abbrev pub max_size : ℕ
max_size = 71680

pub byte_slot_lt : (o : ℕ) → o < max_size → byte_slot o < slots
byte_slot_lt o h = ground (arith, h)

pub byte_slot_ne : (o : ℕ) → byte_slot o ≢ 12
byte_slot_ne o = ground arith

pub byte_slot_same : (o p : ℕ) → byte_slot o ≡ byte_slot p → o / bsize ≡ p / bsize
byte_slot_same o p e = ground (arith, e)

-- A write to the block in the slot `i`, one of the contents.
module _ (s : Fs) (ip : Inode) (i : ℕ) (c : ℕ → ℕ) (v : IsFile s ip) (lt : i < slots) (ne : i ≢ 12)
    (filled : slot s ip i ≢ 0) where
  pub slot-write : (k : ℕ) → k < slots → slot (stored s (slot s ip i) c) ip k ≡ slot s ip k
  slot-write k l = elim (ℕ_discrete (ip.addrs 12) 0) [
    | yes none ↦ ground (arith, none)
    | no some ↦
        let other : slot s ip i ≢ slot s ip 12 =
          λ e. ne (v.distinct i 12 lt (omega arith) filled e) in
        let block = update_ne s.blocks (slot s ip i) (ip.addrs 12) c other in
        let word = ap (λ b. get_word b (4 * (k - 13))) block in ground (arith, some, word)
  ]

  pub used-write : (j : ℕ) → j < s.size → used (stored s (slot s ip i) c) j ≡ used s j
  used-write j l = used-stored s (slot s ip i) c j (v.low i lt filled) l

  pub write-IsFile : IsFile (stored s (slot s ip i) c) ip
  write-IsFile = record {
    fs = record {
      inodes = (v.fs).inodes;
      meta_used = λ m h. used-write m (omega (arith, h, (v.fs).meta_size)) ∙ (v.fs).meta_used m h;
      meta_size = (v.fs).meta_size;
    };
    word = v.word;
    low = λ k l n. let e = slot-write k l in omega (arith, e, v.low k l (λ z. n (e ∙ z)));
    high = λ k l n. let e = slot-write k l in omega (arith, e, v.high k l (λ z. n (e ∙ z)));
    in_use = λ k l n.
        let e = slot-write k l in
        let m : slot s ip k ≢ 0 = λ z. n (e ∙ z) in
        ap (used (stored s (slot s ip i) c)) e
        ∙ used-write (slot s ip k) (v.high k l m)
        ∙ v.in_use k l m;
    distinct = λ j k lj lk n e.
        let ej = slot-write j lj in
        let ek = slot-write k lk in v.distinct j k lj lk (λ z. n (ej ∙ z)) (sym ej ∙ e ∙ ek);
  }

  -- The bytes after the write, in the block and in the others.
  pub content-write_same :
      (o : ℕ) → byte_slot o ≡ i → content (stored s (slot s ip i) c) ip o ≡ c (o % bsize)
  content-write_same o same =
      ap (λ b. update s.blocks (slot s ip i) c b (o % bsize))
        (ap (slot (stored s (slot s ip i) c) ip) same ∙ slot-write i lt)
      ∙ ap (λ f. f (o % bsize)) (update_self s.blocks (slot s ip i) c)

  pub content-write_other :
      (o : ℕ)
      → o < max_size
      → HasBlock s ip o
      → byte_slot o ≢ i
      → content (stored s (slot s ip i) c) ip o ≡ content s ip o
  content-write_other o l h other =
      ap (λ b. update s.blocks (slot s ip i) c b (o % bsize))
        (slot-write (byte_slot o) (byte_slot_lt o l))
      ∙ ap (λ f. f (o % bsize))
          (update_ne s.blocks (slot s ip i) (slot s ip (byte_slot o)) c
            (λ e. other (sym (v.distinct i (byte_slot o) lt (byte_slot_lt o l) filled e))))

-- The bytes that `bmap` leaves as they were.
pub MapsTo-content :
    (s t : Fs) (ip ip' : Inode) (i b o : ℕ)
    → IsFile s ip
    → MapsTo s ip i b t ip'
    → o < max_size
    → HasBlock s ip o
    → content t ip' o ≡ content s ip o
MapsTo-content s t ip ip' i b o v m l h =
    let lt = byte_slot_lt o l in
    let ne : slot s ip (byte_slot o) ≢ slot s ip 12 =
      λ e. byte_slot_ne o (v.distinct (byte_slot o) 12 lt (omega arith) h e) in
    ap (λ c. t.blocks c (o % bsize)) (m.kept (byte_slot o) lt h)
    ∙ ap (λ f. f (o % bsize))
        (m.frame (slot s ip (byte_slot o)) (v.high (byte_slot o) lt h) (v.in_use (byte_slot o) lt h)
          (inr (v.low (byte_slot o) lt h)) ne)

-- The bytes of the file after a write of `n` bytes at `off`, and what the write leaves alone.
pub record WritesTo (s : Fs) (ip : Inode) (src : ℕ → ℕ) (off n : ℕ) (t : Fs) (ip' : Inode)
    : Type 0 where
  pub file : IsFile t ip'
  pub has_block :
      (o : ℕ) → o < max_size → HasBlock s ip o ⊎ ((off ≤ o) × (o < off + n)) → HasBlock t ip' o
  pub written : (o : ℕ) → off ≤ o → o < off + n → content t ip' o ≡ src (o - off)
  pub kept :
      (o : ℕ)
      → o < max_size
      → HasBlock s ip o
      → (o < off) ⊎ (off + n ≤ o)
      → content t ip' o ≡ content s ip o
  pub fields : ip' ≡ record ip { addrs = ip'.addrs }
  pub still_used : (c : ℕ) → c < s.size → used s c ≡ true → used t c ≡ true
  pub fresh :
      (k : ℕ)
      → k < slots
      → slot t ip' k ≢ 0
      → (slot t ip' k ≡ slot s ip k) ⊎ (used s (slot t ip' k) ≡ false)
  pub frame :
      (c : ℕ)
      → c < s.size
      → used s c ≡ true
      → Apart s c
      → c ≢ 0
      → ((k : ℕ) → k < slots → slot s ip k ≢ c)
      → t.blocks c ≡ s.blocks c
  pub ext : Extends s t

abbrev pub Writes : Fs → Inode → (ℕ → ℕ) → ℕ → ℕ → Result Inode → Type 0
Writes s ip src off n (returns ip' t) = WritesTo s ip src off n t ip'
Writes s ip src off n (panics t) = Stuck t

pub WritesTo-none :
    (s : Fs) (ip : Inode) (src : ℕ → ℕ) (off : ℕ) → IsFile s ip → WritesTo s ip src off 0 s ip
WritesTo-none s ip src off v = record {
  file = v;
  has_block = λ o l h. elim h [ inl b ↦ b | inr r ↦ absurd (omega (arith, r)) ];
  written = λ o lo hi. absurd (omega (arith, lo, hi));
  kept = λ o l h out. refl;
  fields = refl;
  still_used = λ c l h. h;
  fresh = λ k l n. inl refl;
  frame = λ c l h out n other. refl;
  ext = Extends-refl s;
}
