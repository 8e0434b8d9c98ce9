-- ===== src/Contents/Low.antt =====
-- Writes to the blocks before the bitmap leave every file as it is.
use cs537_sp2021_dis.Base.{
  ℕ, ◌-◌, ◌*◌, ◌%◌, ◌<◌, ◌≡◌, ◌≢◌, ◌∙◌, sym, ap, arith, update, update_ne, ℕ_discrete,
}
use cs537_sp2021_dis.Bytes.{get_word}
use cs537_sp2021_dis.Fs.{Fs, bsize, used, stored}
use cs537_sp2021_dis.Inode.{Inode}
use cs537_sp2021_dis.Inode.Slots.{slots, slot, IsFile}
use cs537_sp2021_dis.Contents.Write.{byte_slot, HasBlock, content, max_size, byte_slot_lt}

-- A write to a block before the bitmap, such as one of inodes.
module _ (s : Fs) (ip : Inode) (c : ℕ) (d : ℕ → ℕ) (v : IsFile s ip) (low : c < s.bmapstart) where
  low-ne : (i : ℕ) → i < slots → slot s ip i ≢ 0 → c ≢ slot s ip i
  low-ne i l ne e = absurd (omega (arith, e, v.low i l ne, low))

  pub low-slot : (k : ℕ) → k < slots → slot (stored s c d) ip k ≡ slot s ip k
  low-slot k l = elim (ℕ_discrete (ip.addrs 12) 0) [
    | yes empty ↦ ground (arith, empty)
    | no filled ↦
        let block = update_ne s.blocks c (ip.addrs 12) d (low-ne 12 (omega arith) filled) in
        let word = ap (λ b. get_word b (4 * (k - 13))) block in ground (arith, filled, word)
  ]

  low-used : (j : ℕ) → used (stored s c d) j ≡ used s j
  low-used j = ground (arith, low)

  pub low-IsFile : IsFile (stored s c d) ip
  low-IsFile = record {
    fs = record {
      inodes = (v.fs).inodes;
      meta_used = λ m h. low-used m ∙ (v.fs).meta_used m h;
      meta_size = (v.fs).meta_size;
    };
    word = v.word;
    low = λ k l n. let e = low-slot k l in omega (arith, e, v.low k l (λ z. n (e ∙ z)));
    high = λ k l n. let e = low-slot k l in omega (arith, e, v.high k l (λ z. n (e ∙ z)));
    in_use = λ k l n.
        let e = low-slot k l in
        ap (used (stored s c d)) e ∙ low-used (slot s ip k) ∙ v.in_use k l (λ z. n (e ∙ z));
    distinct = λ j k lj lk n e.
        let ej = low-slot j lj in
        v.distinct j k lj lk (λ z. n (ej ∙ z)) (sym ej ∙ e ∙ low-slot k lk);
  }

  pub low-content :
      (o : ℕ) → o < max_size → HasBlock s ip o → content (stored s c d) ip o ≡ content s ip o
  low-content o l h =
      let lt = byte_slot_lt o l in
      ap (λ b. update s.blocks c d b (o % bsize)) (low-slot (byte_slot o) lt)
      ∙ ap (λ f. f (o % bsize))
          (update_ne s.blocks c (slot s ip (byte_slot o)) d (low-ne (byte_slot o) lt h))
