-- ===== src/Inode/Bmap.antt =====
-- `bmap` finds the block of a slot, or puts a new one there.
use cs537_sp2021_dis.Base.{
  ℕ, ◌+◌, ◌-◌, ◌*◌, ◌≤◌, ◌<◌, ◌≡◌, ◌≢◌, refl, ◌∙◌, sym, ap, subst, inl, inr, true, false,
  Bool-cases, arith, ltb, if◌then◌else◌, ℕ_discrete, dec_lt,
}
use cs537_sp2021_dis.Bytes.{get_word}
use cs537_sp2021_dis.Fs.{Fs, Result, returns, panics, bind, used}
use cs537_sp2021_dis.Fs.Bitmap.{Extends-trans}
use cs537_sp2021_dis.Inode.{Inode, direct, indirect, bmap}
use cs537_sp2021_dis.Inode.Slots.{slot, IsFile, MapsTo, Maps}
use cs537_sp2021_dis.Inode.Direct.{direct-Maps}
use cs537_sp2021_dis.Inode.Indirect.{indirect-Maps}

module _ (s : Fs) (ip : Inode) where
  -- The indirect block is there, and then the entry.
  -- Blocks in use other than the old indirect block are not the new one.
  other_ind :
      (ind c : ℕ) (t : Fs) (ip1 : Inode)
      → MapsTo s ip 12 ind t ip1
      → used s c ≡ true
      → c ≢ slot s ip 12
      → c ≢ slot t ip1 12
  other_ind ind c t ip1 m h a e = elim (ℕ_discrete (slot s ip 12) 0) [
    | yes empty ↦
        let free : used s ind ≡ false = (m.new empty).0 in cc (ap (used s) (e ∙ m.here), free, h)
    | no filled ↦ a (e ∙ m.kept 12 (omega arith) filled)
  ]

  still_unused :
      (b : ℕ) (t : Fs)
      → ((c : ℕ) → c < s.size → used s c ≡ true → used t c ≡ true)
      → b < s.size
      → used t b ≡ false
      → used s b ≡ false
  still_unused b t still size free = elim (Bool-cases (used s b)) [
    | inl was ↦ cc (still b size was, free)
    | inr unused ↦ unused
  ]

  entry-empty : (j : ℕ) → slot s ip 12 ≡ 0 → slot s ip (13 + j) ≡ 0
  entry-empty j e = ground (arith, e)

  MapsTo-then :
      (j ind b : ℕ) (t u : Fs) (ip1 ip2 : Inode)
      → IsFile s ip
      → j < 128
      → MapsTo s ip 12 ind t ip1
      → MapsTo t ip1 (13 + j) b u ip2
      → MapsTo s ip (13 + j) b u ip2
  MapsTo-then j ind b t u ip1 ip2 v lt m n = record {
    file = n.file;
    nonzero = n.nonzero;
    here = n.here;
    others = λ k l a c. n.others k l a c ∙ m.others k l c c;
    kept = λ k l a. let e = m.kept k l a in n.kept k l (λ z. a (sym e ∙ z)) ∙ e;
    fields = n.fields ∙ ap (λ (p : Inode). record p { addrs = ip2.addrs }) m.fields;
    still_used = λ c l h. n.still_used c (omega (arith, l, m.ext.size)) (m.still_used c l h);
    frame = λ c l h out a.
        n.frame c (omega (arith, l, m.ext.size)) (m.still_used c l h)
          (omega (arith, out, m.ext.size, m.ext.bmapstart)) (other_ind ind c t ip1 m h a)
        ∙ m.frame c l h out a;
    new = λ e.
        let empty = m.others (13 + j) (omega (arith, lt)) (omega arith) (omega arith) ∙ e in
        let (free, zeros) = n.new empty in
        let size : b < s.size =
          let high = n.file.high (13 + j) (omega (arith, lt)) (λ z. n.nonzero (sym n.here ∙ z)) in
          omega (arith, high, n.here, n.ext.size, m.ext.size) in
        (still_unused b t m.still_used size free, zeros);
    old = λ a.
        let (et, ei) = m.old (λ z. a (entry-empty j z)) in
        let same = m.kept (13 + j) (omega (arith, lt)) a in
        let (eu, e2) = n.old (λ z. a (sym same ∙ z)) in (eu ∙ et, e2 ∙ ei);
    fresh = λ k l z. elim (n.fresh k l z) [
      | inr free ↦ inr (
          still_unused (slot u ip2 k) t m.still_used
            (omega (arith, n.file.high k l z, n.ext.size, m.ext.size)) free)
      | inl same ↦ elim (m.fresh k l (λ e. z (same ∙ e))) [
        | inr free ↦ inr (ap (used s) same ∙ free)
        | inl was ↦ inl (same ∙ was)
      ]
    ];
    ext = Extends-trans m.ext n.ext;
  }

entry-after :
    (s : Fs) (ip : Inode) (j ind : ℕ) (t : Fs) (ip1 : Inode)
    → IsFile s ip
    → j < 128
    → MapsTo s ip 12 ind t ip1
    → (r : Result (ℕ × Inode)) → Maps t ip1 (13 + j) r
    → Maps s ip (13 + j) r
entry-after s ip j ind t ip1 v lt m (panics u) full = full
entry-after s ip j ind t ip1 v lt m (returns (b, ip2) u) n =
    MapsTo-then s ip j ind b t u ip1 ip2 v lt m n

-- The second half of `bmap`, by what the first gave.
indirect-after :
    (s : Fs) (ip : Inode) (j : ℕ) (r : Result (ℕ × Inode))
    → IsFile s ip
    → j < 128
    → Maps s ip 12 r
    → Maps s ip (13 + j) (bind r (λ (ind, ip') t. indirect ip' j ind t))
indirect-after s ip j (panics t) v lt full = full
indirect-after s ip j (returns (ind, ip') t) v lt m =
    entry-after s ip j ind t ip' v lt m (indirect ip' j ind t) (
      subst (λ c. Maps t ip' (13 + j) (indirect ip' j c t)) m.here
        (indirect-Maps t ip' m.file (λ z. m.nonzero (sym m.here ∙ z)) j lt))

-- The slot of the block `bn` of the file.
abbrev pub slot_of : ℕ → ℕ
slot_of bn = if ltb bn 12 then bn else 13 + (bn - 12)

-- On an inode whose slots hold different blocks of the data that are in use, `bmap` gives the block
-- in the slot of a block of the file; when the slot is empty, it puts a block of zeros there that
-- was free. It keeps every block in use, and the contents of all of them but the indirect block and
-- the bitmap; what it changes is logged. It panics only when the disk is full, or
-- where `log_write` panics.
pub bmap-Maps :
    (s : Fs) (ip : Inode) (bn : ℕ) → IsFile s ip → bn < 140 → Maps s ip (slot_of bn) (bmap s ip bn)
unfolding bmap
bmap-Maps s ip bn v lt = elim (dec_lt bn 12) [
  | yes low ↦
      let e : ltb bn 12 ≡ true = ground (arith, low) in
      rw e (direct-Maps s ip v bn (omega (arith, low)))
  | no high ↦
      let e : ltb bn 12 ≡ false = ground (arith, high) in
      let f : ltb (bn - 12) 128 ≡ true = ground (arith, high, lt) in
      rw (e, f)
        (indirect-after s ip (bn - 12) (direct s ip 12) v (omega (arith, high, lt))
          (direct-Maps s ip v 12 (omega arith)))
]

direct-filled :
    (s : Fs) (ip : Inode) (i : ℕ) → ip.addrs i ≢ 0 → direct s ip i ≡ returns (ip.addrs i, ip) s
unfolding direct
direct-filled s ip i h = ground (arith, h)

indirect-filled :
    (s : Fs) (ip : Inode) (j ind : ℕ)
    → get_word (s.blocks ind) (4 * j) ≢ 0
    → indirect ip j ind s ≡ returns (get_word (s.blocks ind) (4 * j), ip) s
unfolding indirect
indirect-filled s ip j ind h = ground (arith, h)

bmap-direct : (s : Fs) (ip : Inode) (bn : ℕ) → bn < 12 → bmap s ip bn ≡ direct s ip bn
unfolding bmap
bmap-direct s ip bn low = ground (arith, low)

bmap-indirect :
    (s : Fs) (ip : Inode) (bn : ℕ)
    → 12 ≤ bn
    → bn < 140
    → direct s ip 12 ≡ returns (ip.addrs 12, ip) s
    → bmap s ip bn ≡ indirect ip (bn - 12) (ip.addrs 12) s
unfolding bmap
bmap-indirect s ip bn high lt found =
    let e : ltb bn 12 ≡ false = ground (arith, high) in
    let f : ltb (bn - 12) 128 ≡ true = ground (arith, high, lt) in rw (e, f, found) refl

-- A block that is there is found, and nothing changes.
pub bmap-filled :
    (s : Fs) (ip : Inode) (bn : ℕ)
    → bn < 140
    → slot s ip (slot_of bn) ≢ 0
    → bmap s ip bn ≡ returns (slot s ip (slot_of bn), ip) s
bmap-filled s ip bn lt h = elim (dec_lt bn 12) [
  | yes low ↦
      let here : ip.addrs bn ≡ slot s ip (slot_of bn) = ground (arith, low) in
      bmap-direct s ip bn low
      ∙ direct-filled s ip bn (λ z. h (sym here ∙ z))
      ∙ ap (λ a. returns (a, ip) s) here
  | no high ↦
      let some_ind : ip.addrs 12 ≢ 0 = λ z. h (ground (arith, high, z)) in
      let place : slot_of bn - 13 ≡ bn - 12 = ground (arith, high) in
      let here : get_word (s.blocks (ip.addrs 12)) (4 * (bn - 12)) ≡ slot s ip (slot_of bn) =
        ground (arith, high, some_ind, place) in
      bmap-indirect s ip bn (omega (arith, high)) lt (direct-filled s ip 12 some_ind)
      ∙ indirect-filled s ip (bn - 12) (ip.addrs 12) (λ z. h (sym here ∙ z))
      ∙ ap (λ a. returns (a, ip) s) here
]
