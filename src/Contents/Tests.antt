-- ===== src/Contents/Tests.antt =====
-- A small file system with one file of 100 bytes, and the instances of the theorems.
use cs537_sp2021_dis.Base.{
  ℕ, zero, suc, ◌+◌, ◌<◌, ◌≡◌, ◌≢◌, refl, true, false, ◌&&◌, none, some, arith, ◌==◌, ltb, leb,
  ◌||◌, if◌then◌else◌, ◌^◌, ◌-◌, ◌∙◌,
}
use cs537_sp2021_dis.Bytes.{bit}
use cs537_sp2021_dis.Log.{Log}
use cs537_sp2021_dis.Fs.{Fs, returns, used, balloc}
use cs537_sp2021_dis.Fs.Bitmap.{IsFs}
use cs537_sp2021_dis.Fs.Balloc.{Allocates, balloc-Allocates}
use cs537_sp2021_dis.Inode.Truncate.{Truncates, itrunc-Truncates}
use cs537_sp2021_dis.Inode.{itrunc}
use cs537_sp2021_dis.Inode.{Inode, bmap}
use cs537_sp2021_dis.Inode.Slots.{slot, IsFile, Maps}
use cs537_sp2021_dis.Inode.Bmap.{slot_of, bmap-Maps}
use cs537_sp2021_dis.Contents.{bytes, readi, writei}
use cs537_sp2021_dis.Contents.Write.{content}
use cs537_sp2021_dis.Contents.File.{IsRegular, FileWrites, writei-FileWrites}
use cs537_sp2021_dis.Contents.Read.{readi_lem}

-- A log of thirty blocks, empty, with one operation that is open.
abbrev one_op : Log
one_op = record {
  start = 20;
  size = 30;
  outstanding = 1;
  committing = false;
  dev = 1;
  n = 0;
  block = λ i. 0;
}

-- Block 4 is the bitmap; the blocks 0 to 5 are in use.
abbrev small_fs : Fs
small_fs = record {
  size = 20;
  ninodes = 8;
  inodestart = 2;
  bmapstart = 4;
  blocks = λ c i. if c == 4 && i == 0 then 63 else 0;
  logged = λ c. false;
  log = one_op;
}

abbrev small_file : Inode
small_file = record {
  inum = 1;
  type = 2;
  major = 0;
  minor = 0;
  nlink = 1;
  size = 100;
  addrs = λ i. if i == 0 then 5 else 0;
}

small_used : (b : ℕ) → b < 5 → used small_fs b ≡ true
unfolding bit
small_used zero l = refl
small_used (suc zero) l = refl
small_used (suc (suc zero)) l = refl
small_used (suc (suc (suc zero))) l = refl
small_used (suc (suc (suc (suc zero)))) l = refl
small_used (suc (suc (suc (suc (suc b))))) l = absurd (omega (arith, l))

small_fs-IsFs : IsFs small_fs
small_fs-IsFs = record { inodes = omega arith; meta_used = small_used; meta_size = omega arith }

only_slot : (i : ℕ) → slot small_fs small_file i ≢ 0 → (i ≡ 0) × (slot small_fs small_file i ≡ 5)
only_slot i h = ground (arith, h)

five_used : used small_fs 5 ≡ true
unfolding bit
five_used = refl

small_file-IsFile : IsFile small_fs small_file
small_file-IsFile = record {
  fs = small_fs-IsFs;
  word = omega arith;
  low = λ i l h. omega (arith, (only_slot i h).1);
  high = λ i l h. omega (arith, (only_slot i h).1);
  in_use = λ i l h. rw (only_slot i h).1 five_used;
  distinct = λ i j li lj h e.
      let zero_i = (only_slot i h).0 in
      let zero_j = (only_slot j (λ z. h (e ∙ z))).0 in omega (arith, zero_i, zero_j);
}

small_file-IsRegular : IsRegular small_fs small_file
small_file-IsRegular = record {
  file = small_file-IsFile;
  regular = λ e. cc;
  number = omega arith;
  most = omega arith;
  full = λ o l. ground (arith, l);
}

balloc-Allocates_example : Allocates small_fs (balloc small_fs)
balloc-Allocates_example = balloc-Allocates small_fs small_fs-IsFs

-- The block 20 of the file is an entry of the indirect block: both are new.
bmap-Maps_example : Maps small_fs small_file (slot_of 20) (bmap small_fs small_file 20)
bmap-Maps_example = bmap-Maps small_fs small_file 20 small_file-IsFile (omega arith)

-- A write that begins inside the file and ends in a new block.
writei-FileWrites_example :
    FileWrites small_fs small_file
      (λ i. i)
      90
      1000
      (writei (λ d. none) small_fs small_file (λ i. i) 90 1000)
writei-FileWrites_example =
    writei-FileWrites (λ d. none) small_fs small_file (λ i. i) 90 1000 small_file-IsRegular
      (omega arith) (omega arith)

readi_lem_example :
    readi (λ d. none) small_fs small_file 90 1000
    ≡ returns
        (
          (if ltb 100 90 || leb (2 ^ 32) (90 + 1000)
              then none
              else some (
                  bytes
                    (content small_fs small_file)
                    90
                    (if ltb (100 - 90) 1000 then 100 - 90 else 1000))),
          small_file,
        )
        small_fs
readi_lem_example =
    readi_lem (λ d. none) small_fs small_file 90 1000 small_file-IsRegular (omega arith)
      (omega arith)

itrunc-Truncates_example : Truncates small_fs small_file (itrunc small_fs small_file)
itrunc-Truncates_example = itrunc-Truncates small_fs small_file small_file-IsFile (omega arith)
