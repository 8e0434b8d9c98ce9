-- ===== src/Contents/File.antt =====
-- A regular file as its bytes: what `writei` and `readi` do to them.
use cs537_sp2021_dis.Base.{
  ℕ, ◌+◌, ◌-◌, ◌%◌, ◌^◌, ◌≤◌, ◌<◌, ◌≡◌, ◌≢◌, refl, ◌∙◌, sym, ap, subst, ◌⊎◌, inl, inr, true, false,
  ◌&&◌, Bool-cases, arith, ltb, leb, ◌==◌, if◌then◌else◌, update_ne, update_self, Option, none,
  some, ◌||◌, dec_lt,
}
use cs537_sp2021_dis.Fs.{Fs, Result, returns, panics, bind, used, stored}
use cs537_sp2021_dis.Fs.Bitmap.{nmeta, logged_write, Extends, Extends-trans, stored-Extends}
use cs537_sp2021_dis.Inode.{Inode, iupdate}
use cs537_sp2021_dis.Inode.Slots.{slots, slot, IsFile, Stuck}
use cs537_sp2021_dis.Contents.{write_from, grow, overflows, writei}
use cs537_sp2021_dis.Inode.{t_dev, iblock, put_dinode, dinode_at}
use cs537_sp2021_dis.Inode.Dinode.{HasDinode, put_dinode-HasDinode}
use cs537_sp2021_dis.Contents.Write.{
  byte_slot, HasBlock, content, max_size, byte_slot_lt, WritesTo, Writes,
}
use cs537_sp2021_dis.Contents.Loop.{write_from-Writes}
use cs537_sp2021_dis.Contents.Low.{low-slot, low-IsFile, low-content}

-- A regular file without holes.
pub record IsRegular (s : Fs) (ip : Inode) : Type 0 where
  pub file : IsFile s ip
  pub regular : ip.type ≢ t_dev
  pub number : ip.inum < s.ninodes
  pub most : ip.size ≤ max_size
  pub full : (o : ℕ) → o < ip.size → HasBlock s ip o

-- The file after `n` bytes of `src` are written at `off`.
pub record Holds (s : Fs) (ip : Inode) (src : ℕ → ℕ) (off n : ℕ) (t : Fs) (ip' : Inode)
    : Type 0 where
  pub regular : IsRegular t ip'
  pub size : ip'.size ≡ (if ltb ip.size (off + n) then off + n else ip.size)
  pub bytes :
      (o : ℕ)
      → o < ip'.size
      → content t ip' o ≡ (if leb off o && ltb o (off + n) then src (o - off) else content s ip o)
  pub fields : ip' ≡ record ip { size = ip'.size; addrs = ip'.addrs }
  -- a file that grows has its new inode in the block of inodes
  pub on_disk : ip.size < off + n → HasDinode (t.blocks (iblock s ip.inum)) (dinode_at ip.inum) ip'
  pub frame :
      (c : ℕ)
      → c < s.size
      → used s c ≡ true
      → nmeta s ≤ c
      → ((k : ℕ) → k < slots → slot s ip k ≢ c)
      → t.blocks c ≡ s.blocks c
  pub ext : Extends s t

-- Results of `writei`: the write, -1 for a write that begins behind the end or ends above the largest
-- size, and a panic when the disk is full.
abbrev pub FileWrites : Fs → Inode → (ℕ → ℕ) → ℕ → ℕ → Result (Option ℕ × Inode) → Type 0
FileWrites s ip src off n (returns (some k, ip') t) =
    (k ≡ n) × (off ≤ ip.size) × (off + n ≤ max_size) × Holds s ip src off n t ip'
FileWrites s ip src off n (returns (none, ip') t) =
    (t ≡ s) × (ip' ≡ ip) × ((ip.size < off) ⊎ (max_size < off + n))
FileWrites s ip src off n (panics t) = Stuck t

-- The write has been made, but for the size.
module _ (s t : Fs) (ip ip1 : Inode) (src : ℕ → ℕ) (off n : ℕ) (v : IsRegular s ip)
    (begins : off ≤ ip.size) (ends : off + n ≤ max_size) (w : WritesTo s ip src off n t ip1) where
  written-bytes :
      (o : ℕ)
      → (o < ip.size) ⊎ (o < off + n)
      → o < max_size
      → content t ip1 o ≡ (if leb off o && ltb o (off + n) then src (o - off) else content s ip o)
  written-bytes o reached l = elim (dec_lt o off) [
    | yes before ↦
        let out : (leb off o && ltb o (off + n)) ≡ false = ground (arith, before) in
        rw out (w.kept o l (v.full o (omega (arith, before, begins))) (inl before))
    | no from ↦ elim (dec_lt o (off + n)) [
      | yes to ↦
          let in_range : (leb off o && ltb o (off + n)) ≡ true = ground (arith, from, to) in
          rw in_range (w.written o (omega (arith, from)) to)
      | no after ↦
          let out : (leb off o && ltb o (off + n)) ≡ false = ground (arith, after) in
          rw out
            (w.kept o l (v.full o (omega (arith, reached, after))) (inr (omega (arith, after))))
    ]
  ]

  same_size : ip1.size ≡ ip.size
  same_size = ap (λ (p : Inode). p.size) w.fields

  same_type : ip1.type ≡ ip.type
  same_type = ap (λ (p : Inode). p.type) w.fields

  same_inum : ip1.inum ≡ ip.inum
  same_inum = ap (λ (p : Inode). p.inum) w.fields

  covered : (o : ℕ) → o < max_size → (o < ip.size) ⊎ (o < off + n) → HasBlock t ip1 o
  covered o l h = elim (dec_lt o ip.size) [
    | yes old ↦ w.has_block o l (inl (v.full o old))
    | no more ↦ w.has_block o l (inr (omega (arith, more, begins), omega (arith, h, more)))
  ]

  -- The size stays.
  kept-Holds : off + n ≤ ip.size → Holds s ip src off n t ip1
  kept-Holds inside = record {
    regular = record {
      file = w.file;
      regular = λ e. v.regular (sym same_type ∙ e);
      number = omega (arith, same_inum, v.number, w.ext.ninodes);
      most = omega (arith, same_size, v.most);
      full = λ o h.
          covered o (omega (arith, h, same_size, v.most)) (inl (omega (arith, h, same_size)));
    };
    size = same_size ∙ ground (arith, inside);
    bytes = λ o h.
        written-bytes o (inl (omega (arith, h, same_size))) (omega (arith, h, same_size, v.most));
    fields = w.fields ∙ ap (λ (k : ℕ). record ip { size = k; addrs = ip1.addrs }) (sym same_size);
    on_disk = λ more. absurd (omega (arith, more, inside));
    frame = λ c l h low apart. w.frame c l h (inr low) (omega (arith, low)) apart;
    ext = w.ext;
  }

  -- The file grows: `iupdate` writes the inode with its new size.
  abbrev grown : Inode
  grown = record ip1 { size = off + n }

  abbrev grown_dinode : ℕ → ℕ
  grown_dinode = put_dinode (t.blocks (iblock t ip1.inum)) (dinode_at ip1.inum) grown

  abbrev updated : Fs
  updated = stored t (iblock t ip1.inum) grown_dinode

  inode_low : iblock t ip1.inum < t.bmapstart
  inode_low = omega (arith, ((w.file).fs).inodes, same_inum, v.number, w.ext.ninodes)

  grown-IsFile : IsFile t grown
  grown-IsFile = record {
    fs = (w.file).fs;
    word = (w.file).word;
    low = (w.file).low;
    high = (w.file).high;
    in_use = (w.file).in_use;
    distinct = (w.file).distinct;
  }

  grown-Holds : ip.size < off + n → Holds s ip src off n updated grown
  grown-Holds more =
      let d = put_dinode (t.blocks (iblock t ip1.inum)) (dinode_at ip1.inum) grown in
      let here : iblock s ip.inum ≡ iblock t ip1.inum =
        omega (arith, same_inum, w.ext.inodestart) in
      (record {
        regular = record {
          file = low-IsFile t grown (iblock t ip1.inum) d grown-IsFile inode_low;
          regular = λ e. v.regular (sym same_type ∙ e);
          number = omega (arith, same_inum, v.number, w.ext.ninodes);
          most = ends;
          full = λ o h z.
              let l : o < max_size = omega (arith, h, ends) in
              let e =
                low-slot t grown (iblock t ip1.inum) d grown-IsFile inode_low (byte_slot o)
                  (byte_slot_lt o l) in
              covered o l (inr h) (sym e ∙ z);
        };
        size = ground (arith, more);
        bytes = λ o h.
            let l : o < max_size = omega (arith, h, ends) in
            low-content t grown (iblock t ip1.inum) d grown-IsFile inode_low o l
              (covered o l (inr h))
            ∙ written-bytes o (inr h) l;
        fields = ap (λ (p : Inode). record p { size = off + n; addrs = ip1.addrs }) w.fields;
        on_disk = λ _.
            subst (λ k. HasDinode (updated.blocks (iblock s ip.inum)) (dinode_at k) grown) same_inum
              (subst (λ f. HasDinode f (dinode_at ip1.inum) grown)
                (sym (ap updated.blocks here ∙ update_self t.blocks (iblock t ip1.inum) d))
                (put_dinode-HasDinode (t.blocks (iblock t ip1.inum)) (dinode_at ip1.inum) grown));
        frame = λ c l h low apart.
            update_ne t.blocks (iblock t ip1.inum) c d
              (λ e. absurd (omega (arith, e, low, inode_low, w.ext.bmapstart)))
            ∙ w.frame c l h (inr low) (omega (arith, low)) apart;
        ext = Extends-trans w.ext (stored-Extends t (iblock t ip1.inum) d);
      })

  grow-FileWrites : FileWrites s ip src off n (grow ip1 (off + n) n t)
  unfolding grow iupdate
  grow-FileWrites = elim (dec_lt ip.size (off + n)) [
    | yes more ↦
        let e : (ltb 0 n && ltb ip1.size (off + n)) ≡ true =
          ground (arith, more, same_size, begins) in
        rw e (
          logged_write (FileWrites s ip src off n) t (iblock t ip1.inum) grown_dinode
            (λ x u. returns (some n, grown) u) (λ u full. inr full)
            (refl, begins, ends, grown-Holds more))
    | no inside ↦
        let e : (ltb 0 n && ltb ip1.size (off + n)) ≡ false = ground (arith, inside, same_size) in
        rw e (refl, begins, ends, kept-Holds (omega (arith, inside)))
  ]

-- The end of `writei`, by what its loop came to.
after-FileWrites :
    (s : Fs) (ip : Inode) (src : ℕ → ℕ) (off n : ℕ) (r : Result Inode)
    → IsRegular s ip
    → off ≤ ip.size
    → off + n ≤ max_size
    → Writes s ip src off n r
    → FileWrites s ip src off n (bind r λ ip' t. grow ip' (off + n) n t)
after-FileWrites s ip src off n (panics t) v begins ends full = full
after-FileWrites s ip src off n (returns ip1 t) v begins ends w =
    grow-FileWrites s t ip ip1 src off n v begins ends w

-- A write that would end above the largest size, also when `off + n` wraps around.
too_long :
    (devsw : ℕ → Option (ℕ → Option ℕ)) (s : Fs) (ip : Inode) (src : ℕ → ℕ) (off n : ℕ)
    → IsRegular s ip
    → off < 2 ^ 32
    → n < 2 ^ 32
    → off ≤ ip.size
    → max_size < off + n
    → FileWrites s ip src off n (writei devsw s ip src off n)
unfolding writei
too_long devsw s ip src off n v lo ln begins long =
    let file : (ip.type == t_dev) ≡ false = ground (arith, v.regular) in
    elim (Bool-cases (overflows off n)) [
      | inl over ↦
          let e : (ltb ip.size off || overflows off n) ≡ true = ground (arith, over) in
          rw (file, e) (refl, refl, inr long)
      | inr fits ↦
          let e : (ltb ip.size off || overflows off n) ≡ false = ground (arith, begins, fits) in
          let sum : (off + n) % 2 ^ 32 ≡ off + n = ground (arith, lo, ln, fits) in
          let f : ltb max_size ((off + n) % 2 ^ 32) ≡ true = ground (arith, long, sum) in
          rw (file, e, f) (refl, refl, inr long)
    ]

-- On a regular file without holes, `writei` of `n` bytes at `off` returns -1 and changes nothing when
-- `off` is behind the end or the write would end above the largest size; else it returns `n`, and the
-- file has the new bytes from `off` on and its old ones elsewhere, grows to hold them, and has no
-- holes; when it grows, its inode, with the new size, stands in its block by the layout of `struct
-- dinode`; blocks of the data that are in use by others keep their contents, and what changed is
-- logged. It panics only when the disk is full, or where `log_write` panics: when the write takes more
-- blocks than the log has room for, or no transaction is open.
pub writei-FileWrites :
    (devsw : ℕ → Option (ℕ → Option ℕ)) (s : Fs) (ip : Inode) (src : ℕ → ℕ) (off n : ℕ)
    → IsRegular s ip
    → off < 2 ^ 32
    → n < 2 ^ 32
    → FileWrites s ip src off n (writei devsw s ip src off n)
unfolding writei
writei-FileWrites devsw s ip src off n v lo ln =
    let file : (ip.type == t_dev) ≡ false = ground (arith, v.regular) in
    elim (dec_lt ip.size off) [
      | yes behind ↦
          let e : (ltb ip.size off || overflows off n) ≡ true = ground (arith, behind) in
          rw (file, e) (refl, refl, inl behind)
      | no begins ↦ elim (dec_lt max_size (off + n)) [
        | yes long ↦ too_long devsw s ip src off n v lo ln (omega (arith, begins)) long
        | no ends ↦
            let e : (ltb ip.size off || overflows off n) ≡ false = ground (arith, begins, ends) in
            let f : ltb max_size ((off + n) % 2 ^ 32) ≡ false = ground (arith, ends) in
            rw (file, e, f)
              (after-FileWrites s ip src off n (write_from n s ip src off n) v
                (omega (arith, begins)) (omega (arith, ends))
                (write_from-Writes n s ip src off n v.file (omega arith) (omega (arith, ends))))
      ]
    ]
