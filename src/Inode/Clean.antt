-- ===== src/Inode/Clean.antt =====
-- The slots of an inode and the loops of itrunc: all blocks in the slots are freed, and no others.
use cs537_sp2021_dis.Base.{
  ℕ, ◌+◌, ◌-◌, ◌*◌, ◌≤◌, ◌<◌, ◌≡◌, ◌≢◌, ◌∙◌, sym, ap, ◌⊎◌, inl, inr, Bool, true, false, not, ◌&&◌,
  ◌||◌, arith, ltb, ◌==◌, if◌then◌else◌, ℕ_discrete,
}
use cs537_sp2021_dis.Bytes.{get_word}
use cs537_sp2021_dis.Fs.{Fs, used}
use cs537_sp2021_dis.Fs.Bitmap.{nmeta, Extends, Extends-trans}
use cs537_sp2021_dis.Fs.Balloc.{Apart}
use cs537_sp2021_dis.Inode.{Inode, free_slot}
use cs537_sp2021_dis.Inode.Slots.{slots, slot, IsFile}
use cs537_sp2021_dis.Inode.Free.{
  among, among_at, among_none, Freed, Blocks, Clears, free_slot-Clears,
}

-- The blocks in the slots are free now, and the others are as they were.
pub record Clean (s : Fs) (ip : Inode) (t : Fs) (ip' : Inode) : Type 0 where
  pub freed : (k : ℕ) → k < slots → slot s ip k ≢ 0 → used t (slot s ip k) ≡ false
  pub kept : (j : ℕ) → j ≢ 0 → ((k : ℕ) → k < slots → slot s ip k ≢ j) → used t j ≡ used s j
  pub empty : (k : ℕ) → k < 13 → ip'.addrs k ≡ 0
  pub blocks : (c : ℕ) → Apart s c → t.blocks c ≡ s.blocks c
  pub ext : Extends s t

module _ (s : Fs) (ip : Inode) (v : IsFile s ip) where
  slot-direct : (k : ℕ) → k < 13 → slot s ip k ≡ ip.addrs k
  slot-direct k lt = ground (arith, lt)

  slot-indirect :
      (k : ℕ) → ip.addrs 12 ≢ 0 → slot s ip (k + 13) ≡ get_word (s.blocks (ip.addrs 12)) (4 * k)
  slot-indirect k ne =
      let e : k + 13 - 13 ≡ k = omega arith in
      ground (arith, ne) ∙ ap (λ x. get_word (s.blocks (ip.addrs 12)) (4 * x)) e

  slot-absent : (k : ℕ) → 12 < k → ip.addrs 12 ≡ 0 → slot s ip k ≡ 0
  slot-absent k lt z = ground (arith, lt, z)

  -- The slots from `o` on, as one of the loops sees them.
  slots-Blocks :
      (o n : ℕ) (f : ℕ → ℕ)
      → o + n ≤ slots
      → ((k : ℕ) → k < n → f k ≡ slot s ip (k + o))
      → Blocks s n f
  slots-Blocks o n f le e = record {
    in_use = λ k lt ne.
        ap (used s) (e k lt) ∙ v.in_use (k + o) (omega (arith, lt, le)) (λ z. ne (e k lt ∙ z));
    high = λ k lt ne.
        omega (arith, e k lt, v.high (k + o) (omega (arith, lt, le)) (λ z. ne (e k lt ∙ z)));
    distinct = λ i k li lk ne same. omega (
      arith,
      v.distinct (i + o) (k + o) (omega (arith, li, le)) (omega (arith, lk, le))
          (λ z. ne (e i li ∙ z)) (sym (e i li) ∙ same ∙ e k lk),
    );
  }

  pub direct-Blocks : Blocks s 12 ip.addrs
  direct-Blocks =
      slots-Blocks 0 12 ip.addrs (omega arith)
        (λ k lt. sym (slot-direct k (omega (arith, lt))) ∙ ap (slot s ip) (omega arith))

  -- A block in a slot from 12 on is in no direct slot.
  not_direct :
      (i : ℕ) → 12 ≤ i → i < slots → slot s ip i ≢ 0 → among 12 ip.addrs (slot s ip i) ≡ false
  not_direct i le lt ne = among_none 12 ip.addrs (slot s ip i) (λ k lk e. absurd (
      omega (
        arith,
        le,
        lk,
        v.distinct i k lt (omega (arith, lk)) ne (sym e ∙ sym (slot-direct k (omega (arith, lk)))),
      )))

  is_direct : (k : ℕ) → k < 12 → slot s ip k ≢ 0 → among 12 ip.addrs (slot s ip k) ≡ true
  is_direct k lt ne =
      let e = slot-direct k (omega (arith, lt)) in
      ap (among 12 ip.addrs) e ∙ among_at 12 ip.addrs k lt (λ z. ne (e ∙ z))

  place : (k : ℕ) → (k < 12) ⊎ ((k ≡ 12) ⊎ (12 < k))
  place k = omega arith

  -- Without an indirect block.
  pub direct-Clean :
      (t : Fs) (ip' : Inode)
      → ip.addrs 12 ≡ 0
      → Freed s (among 12 ip.addrs) t
      → ((k : ℕ) → ip'.addrs k ≡ (if ltb k 12 then 0 else ip.addrs k))
      → Clean s ip t ip'
  direct-Clean t ip' z h empty = record {
    freed = λ k lt ne. elim (place k) [
      | inl low ↦ ground (arith, h.marks (slot s ip k), is_direct k low ne)
      | inr (inl e) ↦ absurd (ne (ap (slot s ip) e ∙ slot-direct 12 (omega arith) ∙ z))
      | inr (inr high) ↦ absurd (ne (slot-absent k high z))
    ];
    kept = λ j nz apart.
        let other =
          among_none 12 ip.addrs j
            (λ k lk e. apart k (omega (arith, lk)) (slot-direct k (omega (arith, lk)) ∙ e)) in
        ground (arith, h.marks j, other);
    empty = λ k lt. elim (ℕ_discrete k 12) [
      | yes e ↦ ap ip'.addrs e ∙ empty 12 ∙ ground (arith, z)
      | no ne ↦ empty k ∙ ground (arith, lt, ne)
    ];
    blocks = h.blocks;
    ext = h.ext;
  }

  -- With an indirect block: `s1` is the state after the direct slots, with the inode `ip1`.
  module _ (s1 : Fs) (ip1 : Inode) (ne : ip.addrs 12 ≢ 0) (h : Freed s (among 12 ip.addrs) s1)
      (same : ip1.addrs 12 ≡ ip.addrs 12) where
    abbrev ind : ℕ
    ind = ip.addrs 12

    abbrev pub entries : ℕ → ℕ
    entries k = get_word (s1.blocks ind) (4 * k)

    slot_ind : slot s ip 12 ≡ ind
    slot_ind = slot-direct 12 (omega arith)

    ind_nonzero : slot s ip 12 ≢ 0
    ind_nonzero z = ne (sym slot_ind ∙ z)

    entries-slot : (k : ℕ) → entries k ≡ slot s ip (k + 13)
    entries-slot k =
        let low : nmeta s ≤ ind = omega (arith, v.low 12 (omega arith) ind_nonzero, slot_ind) in
        ap (λ (b : ℕ → ℕ). get_word b (4 * k)) (h.blocks ind (inr low)) ∙ sym (slot-indirect k ne)

    still_used : (i : ℕ) → 12 ≤ i → i < slots → slot s ip i ≢ 0 → used s1 (slot s ip i) ≡ true
    still_used i le lt nz =
        ground (arith, h.marks (slot s ip i), not_direct i le lt nz, v.in_use i lt nz)

    pub entries-Blocks : Blocks s1 128 entries
    entries-Blocks =
        let b = slots-Blocks 13 128 entries (omega arith) (λ k lt. entries-slot k) in
        record {
          in_use = λ k lt nz.
              ap (used s1) (entries-slot k)
              ∙ still_used (k + 13) (omega arith) (omega (arith, lt))
                  (λ z. nz (entries-slot k ∙ z));
          high = λ k lt nz. omega (arith, b.high k lt nz, h.ext.size);
          distinct = b.distinct;
        }

    ind_apart : among 128 entries ind ≡ false
    ind_apart = among_none 128 entries ind (λ k lt e. absurd (
        omega (
          arith,
          v.distinct 12 (k + 13) (omega arith) (omega (arith, lt)) ind_nonzero
              (slot_ind ∙ sym e ∙ entries-slot k),
        )))

    -- The slot of the indirect block itself.
    abbrev pub gone : ℕ → Bool
    gone j = among 128 entries j || not (ip1.addrs 12 == 0) && ip1.addrs 12 == j

    pub cleared :
        (s2 : Fs) → Freed s1 (among 128 entries) s2 → Clears s1 ip1 gone 12 (free_slot 12 s2 ip1)
    cleared s2 freed = free_slot-Clears s1 s2 ip1 (among 128 entries) 12 freed λ nz. (
      ap (used s1) (same ∙ sym slot_ind) ∙ still_used 12 (omega arith) (omega arith) ind_nonzero,
      ap (among 128 entries) same ∙ ind_apart,
      omega (arith, same, slot_ind, v.high 12 (omega arith) ind_nonzero, h.ext.size),
    )

    pub indirect-Clean :
        (t : Fs) (ip' : Inode)
        → ((k : ℕ) → ip1.addrs k ≡ (if ltb k 12 then 0 else ip.addrs k))
        → Freed s1 gone t
        → ((k : ℕ) → ip'.addrs k ≡ (if k == 12 then 0 else ip1.addrs k))
        → Clean s ip t ip'
    indirect-Clean t ip' empty g last = record {
      freed = λ k lt nz. elim (place k) [
        | inl low ↦ ground (arith, g.marks (slot s ip k), h.marks (slot s ip k), is_direct k low nz)
        | inr (inl e) ↦
            let at_ind : slot s ip k ≡ ind = ap (slot s ip) e ∙ slot_ind in
            ap (used t) at_ind ∙ ground (arith, g.marks ind, same, ne)
        | inr (inr high) ↦
            let at_entry : entries (k - 13) ≡ slot s ip k =
              entries-slot (k - 13) ∙ ap (slot s ip) (omega (arith, high)) in
            let hit =
              among_at 128 entries (k - 13) (omega (arith, lt, high))
                (λ z. nz (sym at_entry ∙ z)) in
            ground (arith, g.marks (slot s ip k), sym (ap (among 128 entries) at_entry) ∙ hit)
      ];
      kept = λ j nz apart.
          let other1 =
            among_none 12 ip.addrs j
              (λ k lk e. apart k (omega (arith, lk)) (slot-direct k (omega (arith, lk)) ∙ e)) in
          let other2 =
            among_none 128 entries j
              (λ k lk e. apart (k + 13) (omega (arith, lk)) (sym (entries-slot k) ∙ e)) in
          let other3 : ip1.addrs 12 ≢ j = λ e. apart 12 (omega arith) (slot_ind ∙ sym same ∙ e) in
          ground (arith, g.marks j, h.marks j, other1, other2, other3);
      empty = λ k lt. last k ∙ ground (arith, empty k, lt);
      blocks =
          λ c out. g.blocks c (omega (arith, out, h.ext.size, h.ext.bmapstart)) ∙ h.blocks c out;
      ext = Extends-trans h.ext g.ext;
    }
