-- ===== src/Contents/Rounds.antt =====
-- The rounds of `writei`: one block at a time.
use cs537_sp2021_dis.Base.{
  ℕ, ◌+◌, ◌-◌, ◌/◌, ◌%◌, ◌≤◌, ◌<◌, ◌≡◌, ◌≢◌, ◌∙◌, sym, ap, ◌⊎◌, inl, inr, true, arith, update_ne,
  ℕ_discrete,
}
use cs537_sp2021_dis.Fs.{Fs, bsize, used, stored}
use cs537_sp2021_dis.Fs.Bitmap.{Extends-trans, stored-Extends}
use cs537_sp2021_dis.Fs.Balloc.{Apart}
use cs537_sp2021_dis.Inode.{Inode}
use cs537_sp2021_dis.Inode.Slots.{slots, slot, IsFile, MapsTo}
use cs537_sp2021_dis.Inode.Bmap.{slot_of}
use cs537_sp2021_dis.Contents.{copy_in}
use cs537_sp2021_dis.Contents.Write.{
  byte_slot, HasBlock, content, max_size, byte_slot_lt, byte_slot_ne, byte_slot_same, slot-write,
  used-write, write-IsFile, content-write_same, content-write_other, MapsTo-content, WritesTo,
}

-- One round: `bmap` gave the block in the slot of the byte `off`, and `m` bytes are put into it.
module _ (s t : Fs) (ip ip1 : Inode) (src : ℕ → ℕ) (off m : ℕ) (v : IsFile s ip)
    (top : off < max_size) (room : m ≤ bsize - off % bsize)
    (maps : MapsTo s ip (byte_slot off) (slot t ip1 (byte_slot off)) t ip1) where
  abbrev block : ℕ
  block = slot t ip1 (byte_slot off)

  abbrev round : Fs
  round = stored t block (copy_in (t.blocks block) (off % bsize) src m)

  inside : (o : ℕ) → off ≤ o → o < off + m → byte_slot o ≡ byte_slot off
  inside o lo hi = let e : o / bsize ≡ off / bsize = omega (arith, lo, hi, room) in ap slot_of e

  round-same :
      (o : ℕ)
      → byte_slot o ≡ byte_slot off
      → content round ip1 o ≡ copy_in (t.blocks block) (off % bsize) src m (o % bsize)
  round-same o same =
      content-write_same t ip1 (byte_slot off) (copy_in (t.blocks block) (off % bsize) src m)
        maps.file (byte_slot_lt off top) (byte_slot_ne off) maps.nonzero o same

  round-other :
      (o : ℕ)
      → o < max_size
      → HasBlock t ip1 o
      → byte_slot o ≢ byte_slot off
      → content round ip1 o ≡ content t ip1 o
  round-other o l h other =
      content-write_other t ip1 (byte_slot off) (copy_in (t.blocks block) (off % bsize) src m)
        maps.file (byte_slot_lt off top) (byte_slot_ne off) maps.nonzero o l h other

  round-slot : (k : ℕ) → k < slots → slot round ip1 k ≡ slot t ip1 k
  round-slot k l =
      slot-write t ip1 (byte_slot off) (copy_in (t.blocks block) (off % bsize) src m) maps.file
        (byte_slot_lt off top) (byte_slot_ne off) maps.nonzero k l

  round-written : (o : ℕ) → off ≤ o → o < off + m → content round ip1 o ≡ src (o - off)
  round-written o lo hi =
      let place : o % bsize - off % bsize ≡ o - off = omega (arith, lo, hi, room) in
      let at : copy_in (t.blocks block) (off % bsize) src m (o % bsize)
          ≡ src (o % bsize - off % bsize) =
        ground (arith, lo, hi, room) in
      round-same o (inside o lo hi) ∙ at ∙ ap src place

  round-kept :
      (o : ℕ)
      → o < max_size
      → HasBlock s ip o
      → (o < off) ⊎ (off + m ≤ o)
      → content round ip1 o ≡ content s ip o
  round-kept o l h out =
      let was = MapsTo-content s t ip ip1 (byte_slot off) block o v maps l h in
      let block_o = maps.kept (byte_slot o) (byte_slot_lt o l) h in
      elim (ℕ_discrete (byte_slot o) (byte_slot off)) [
        | no other ↦ round-other o l (λ z. h (sym block_o ∙ z)) other ∙ was
        | yes same ↦
            let e = byte_slot_same o off same in
            let at : copy_in (t.blocks block) (off % bsize) src m (o % bsize)
                ≡ t.blocks block (o % bsize) =
              ground (arith, out, e) in
            round-same o same ∙ at ∙ ap (λ i. t.blocks (slot t ip1 i) (o % bsize)) (sym same) ∙ was
      ]

  round-frame :
      (c : ℕ)
      → c < s.size
      → used s c ≡ true
      → Apart s c
      → c ≢ 0
      → ((k : ℕ) → k < slots → slot s ip k ≢ c)
      → round.blocks c ≡ s.blocks c
  round-frame c l h out n apart =
      let ne : block ≢ c = λ e.
        elim (maps.fresh (byte_slot off) (byte_slot_lt off top) maps.nonzero) [
          | inl same ↦ apart (byte_slot off) (byte_slot_lt off top) (sym same ∙ e)
          | inr free ↦ cc (e, free, h)
        ] in
      update_ne t.blocks block c (copy_in (t.blocks block) (off % bsize) src m) ne
      ∙ maps.frame c l h out (λ e. apart 12 (omega arith) (sym e))

  pub round-WritesTo : WritesTo s ip src off m round ip1
  round-WritesTo = record {
    file =
        write-IsFile t ip1 (byte_slot off) (copy_in (t.blocks block) (off % bsize) src m) maps.file
          (byte_slot_lt off top) (byte_slot_ne off) maps.nonzero;
    has_block = λ o l h z.
        let lt = byte_slot_lt o l in
        let empty = sym (round-slot (byte_slot o) lt) ∙ z in
        elim h [
          | inl was ↦ was (sym (maps.kept (byte_slot o) lt was) ∙ empty)
          | inr range ↦ maps.nonzero (ap (slot t ip1) (sym (inside o range.0 range.1)) ∙ empty)
        ];
    written = round-written;
    kept = round-kept;
    fields = maps.fields;
    still_used = λ c l h.
        used-write t ip1 (byte_slot off) (copy_in (t.blocks block) (off % bsize) src m) maps.file
          (byte_slot_lt off top) (byte_slot_ne off) maps.nonzero c (omega (arith, l, maps.ext.size))
        ∙ maps.still_used c l h;
    fresh = λ k l n.
        let e = round-slot k l in
        elim (maps.fresh k l (λ z. n (e ∙ z))) [
          | inl was ↦ inl (e ∙ was)
          | inr free ↦ inr (ap (used s) e ∙ free)
        ];
    frame = round-frame;
    ext =
        Extends-trans maps.ext
          (stored-Extends t block (copy_in (t.blocks block) (off % bsize) src m));
  }
