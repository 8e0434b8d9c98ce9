-- ===== src/Inode/Truncate.antt =====
-- itrunc: all blocks of an inode are freed, and no others.
use cs537_sp2021_dis.Base.{
  ℕ, ◌≤◌, ◌<◌, ◌≡◌, ◌≢◌, ◌⊎◌, ◌+◌, ◌∙◌, sym, ap, subst, inl, inr, Bool, false, Bool-cases, arith,
  ltb, ◌==◌, if◌then◌else◌, update, update_self, update_ne,
}
use cs537_sp2021_dis.Fs.{Fs, Result, returns, panics, bind, stored, used}
use cs537_sp2021_dis.Fs.Bitmap.{
  Refuses, logged_write, nmeta, Extends, Extends-trans, stored-Extends,
}
use cs537_sp2021_dis.Inode.{
  Inode, iblock, dinode_at, put_dinode, iupdate, free_slot, free_direct, free_indirect, itrunc,
}
use cs537_sp2021_dis.Inode.Slots.{slots, slot, IsFile}
use cs537_sp2021_dis.Inode.Free.{
  among, Freed, FreesAll, FreesSlots, Clears, free_indirect-FreesAll, free_direct-FreesSlots,
}
use cs537_sp2021_dis.Inode.Dinode.{HasDinode, put_dinode-HasDinode, put_dinode-outside}
use cs537_sp2021_dis.Inode.Clean.{
  Clean, direct-Blocks, direct-Clean, entries, entries-Blocks, gone, cleared, indirect-Clean,
}

-- After the loops.
abbrev Cleans : Fs → Inode → Result Inode → Type 0
Cleans s ip (returns ip' t) = Clean s ip t ip' × (ip' ≡ record ip { addrs = ip'.addrs })
Cleans s ip (panics t) = Refuses t

-- The inode is empty, on the disk too, its blocks are free, and the others are as they were.
pub record Truncated (s : Fs) (ip : Inode) (t : Fs) (ip' : Inode) : Type 0 where
  pub freed : (k : ℕ) → k < slots → slot s ip k ≢ 0 → used t (slot s ip k) ≡ false
  pub kept : (j : ℕ) → j ≢ 0 → ((k : ℕ) → k < slots → slot s ip k ≢ j) → used t j ≡ used s j
  pub empty : (k : ℕ) → k < slots → slot t ip' k ≡ 0
  pub fields : ip' ≡ record ip { addrs = ip'.addrs; size = 0 }
  -- the inode's block, as `struct dinode` is laid out
  pub on_disk : HasDinode (t.blocks (iblock s ip.inum)) (dinode_at ip.inum) ip'
  pub neighbours :
      (a : ℕ)
      → (a < dinode_at ip.inum) ⊎ (dinode_at ip.inum + 64 ≤ a)
      → t.blocks (iblock s ip.inum) a ≡ s.blocks (iblock s ip.inum) a
  pub others : (c : ℕ) → nmeta s ≤ c → t.blocks c ≡ s.blocks c
  pub ext : Extends s t

abbrev pub Truncates : Fs → Inode → Result Inode → Type 0
Truncates s ip (returns ip' t) = Truncated s ip t ip'
Truncates s ip (panics t) = Refuses t

-- A block before the bitmap.
used-stored_low :
    (t : Fs) (b : ℕ) (c : ℕ → ℕ) (j : ℕ) → b < t.bmapstart → used (stored t b c) j ≡ used t j
used-stored_low t b c j lt = ground (arith, lt)

module _ (s : Fs) (ip : Inode) (v : IsFile s ip) where
  last-Cleans :
      (s1 : Fs) (ip1 : Inode)
      → ip1 ≡ record ip { addrs = ip1.addrs }
      → (gone : ℕ → Bool) (r : Result Inode)
      → ((t : Fs) (ip' : Inode)
          → Freed s1 gone t
          → ((k : ℕ) → ip'.addrs k ≡ (if k == 12 then 0 else ip1.addrs k))
          → Clean s ip t ip')
      → Clears s1 ip1 gone 12 r
      → Cleans s ip r
  last-Cleans s1 ip1 fields gone (returns ip' t) clean (g, last, fields2) =
      (clean t ip' g last, fields2 ∙ ap (λ (x : Inode). record x { addrs = ip'.addrs }) fields)
  last-Cleans s1 ip1 fields gone (panics t) clean h = h

  indirect-Cleans :
      (s1 : Fs) (ip1 : Inode)
      → ((k : ℕ) → ip1.addrs k ≡ (if ltb k 12 then 0 else ip.addrs k))
      → ip1 ≡ record ip { addrs = ip1.addrs }
      → (same : ip1.addrs 12 ≡ ip.addrs 12) (r : Result (Unit {0}))
      → (ne : ip.addrs 12 ≢ 0) (h : Freed s (among 12 ip.addrs) s1)
      → FreesAll s1 (among 128 (entries s ip v s1 ip1 ne h same)) r
      → Cleans s ip (bind r λ x s2. free_slot 12 s2 ip1)
  indirect-Cleans s1 ip1 empty fields same (returns x s2) ne h freed =
      last-Cleans s1 ip1 fields (gone s ip v s1 ip1 ne h same) (free_slot 12 s2 ip1)
        (λ t ip' g last. indirect-Clean s ip v s1 ip1 ne h same t ip' empty g last)
        (cleared s ip v s1 ip1 ne h same s2 freed)
  indirect-Cleans s1 ip1 empty fields same (panics t) ne h freed = freed

  after_direct :
      (r : Result Inode)
      → FreesSlots s ip 12 r
      → Cleans s ip (
          bind r λ ip1 s1.
            if ip1.addrs 12 == 0
            then returns ip1 s1
            else bind (free_indirect 128 (s1.blocks (ip1.addrs 12)) s1) λ x s2. free_slot 12 s2 ip1)
  after_direct (panics t) h = h
  after_direct (returns ip1 s1) (h, empty, fields) =
      let same : ip1.addrs 12 ≡ ip.addrs 12 = empty 12 in
      elim (Bool-cases (ip1.addrs 12 == 0)) [
        | inl z ↦ rw z (direct-Clean s ip v s1 ip1 (ground (arith, same, z)) h empty, fields)
        | inr other ↦
            let ne : ip.addrs 12 ≢ 0 = ground (arith, same, other) in
            rw other (
              indirect-Cleans s1 ip1 empty fields same
                (free_indirect 128 (s1.blocks (ip1.addrs 12)) s1) ne h
                (subst
                  (λ b.
                    FreesAll s1 (among 128 (entries s ip v s1 ip1 ne h same))
                      (free_indirect 128 (s1.blocks b) s1))
                  (sym same)
                  (free_indirect-FreesAll s1 128 (s1.blocks (ip.addrs 12))
                    (entries-Blocks s ip v s1 ip1 ne h same))))
      ]

  module _ (li : ip.inum < s.ninodes) where
    stored_inode :
        (t : Fs) (ip' : Inode)
        → Clean s ip t ip'
        → ip' ≡ record ip { addrs = ip'.addrs }
        → Truncated s ip
            (stored t (iblock t ip'.inum) (
              put_dinode
                (t.blocks (iblock t ip'.inum))
                (dinode_at ip'.inum)
                (record ip' { size = 0 })))
            (record ip' { size = 0 })
    stored_inode t ip' h fields =
        let inum : ip'.inum ≡ ip.inum = ap (λ (x : Inode). x.inum) fields in
        let ip4 : Inode = record ip' { size = 0 } in
        let b = iblock t ip'.inum in
        let contents = put_dinode (t.blocks b) (dinode_at ip'.inum) ip4 in
        let below : b < s.bmapstart = omega (arith, inum, li, v.fs.inodes, h.ext.inodestart) in
        let here : iblock s ip.inum ≡ b = omega (arith, inum, h.ext.inodestart) in
        let written : update t.blocks b contents (iblock s ip.inum) ≡ contents =
          ap (update t.blocks b contents) here ∙ update_self t.blocks b contents in
        let marks : (j : ℕ) → used (stored t b contents) j ≡ used t j =
          λ j. used-stored_low t b contents j (omega (arith, below, h.ext.bmapstart)) in
        record {
          freed = λ k lt ne. marks (slot s ip k) ∙ h.freed k lt ne;
          kept = λ j nz apart. marks j ∙ h.kept j nz apart;
          empty = λ k lt. ground (arith, lt, h.empty k, h.empty 12);
          fields = ap (λ (x : Inode). record x { size = 0 }) fields;
          on_disk =
              subst
                (λ n. HasDinode (update t.blocks b contents (iblock s ip.inum)) (dinode_at n) ip4)
                inum
                (subst (λ f. HasDinode f (dinode_at ip'.inum) ip4) (sym written)
                  (put_dinode-HasDinode (t.blocks b) (dinode_at ip'.inum) ip4));
          neighbours = λ a out.
              ap (λ f. f a) written
              ∙ put_dinode-outside (t.blocks b) (dinode_at ip'.inum) ip4 a
                  (omega (arith, out, inum))
              ∙ ap (λ c. t.blocks c a) (sym here)
              ∙ ap (λ f. f a) (h.blocks (iblock s ip.inum) (inl (omega (arith, here, below))));
          others = λ c out.
              update_ne t.blocks b c contents (omega (arith, below, out)) ∙ h.blocks c (inr out);
          ext = Extends-trans h.ext (stored-Extends t b contents);
        }

    finish :
        (r : Result Inode)
        → Cleans s ip r
        → Truncates s ip (
            bind r λ ip3 s3.
              let ip4 : Inode = record ip3 { size = 0 } in
              bind (iupdate s3 ip4) λ y s4. returns ip4 s4)
    unfolding iupdate
    finish (returns ip' t) (h, fields) =
        let ip4 : Inode = record ip' { size = 0 } in
        logged_write (Truncates s ip) t (iblock t ip'.inum)
          (put_dinode (t.blocks (iblock t ip'.inum)) (dinode_at ip'.inum) ip4)
          (λ y s4. returns ip4 s4) (λ u full. full) (stored_inode t ip' h fields)
    finish (panics t) h = h

    parts :
        (r : Result Inode)
        → FreesSlots s ip 12 r
        → Truncates s ip (
            bind r λ ip1 s1.
              bind
                (if ip1.addrs 12 == 0
                  then returns ip1 s1
                  else bind
                      (free_indirect 128 (s1.blocks (ip1.addrs 12)) s1)
                      λ x s2. free_slot 12 s2 ip1)
                λ ip3 s3.
                  let ip4 : Inode = record ip3 { size = 0 } in
                  bind (iupdate s3 ip4) λ y s4. returns ip4 s4)
    parts (returns ip1 s1) h =
        finish
          (if ip1.addrs 12 == 0
            then returns ip1 s1
            else bind (free_indirect 128 (s1.blocks (ip1.addrs 12)) s1) λ x s2. free_slot 12 s2 ip1)
          (after_direct (returns ip1 s1) h)
    parts (panics t) h = h

-- `itrunc` on an inode of the file system whose slots hold different blocks of the data that are in use
-- panics only where `log_write` does: when the log has no room, or no transaction is open. Else every
-- block of the inode, the indirect block too, is free after it, and every other block but 0 is in use as
-- before; all slots are empty and the size is 0; the inode's fields stand so in its block, by the layout
-- of `struct dinode`, whose other inodes are as they were; no block of the data has changed, and what
-- changed is logged.
pub itrunc-Truncates :
    (s : Fs) (ip : Inode) → IsFile s ip → ip.inum < s.ninodes → Truncates s ip (itrunc s ip)
unfolding itrunc
itrunc-Truncates s ip v li =
    parts s ip v li (free_direct 12 s ip) (free_direct-FreesSlots s ip 12 (direct-Blocks s ip v))
