-- ===== src/Fs.antt =====
-- xv6/fs.c: blocks, inodes and their contents. The state has the superblock's fields, the contents of
-- the blocks as the buffer cache has them, byte by byte, the blocks that `log_write` has recorded, and
-- the log itself (Log), whose `log_write` panics when it has no room or no transaction is open.
-- Locks and `brelse` are left out: each function runs with its inode locked. A panic is `panics`, with
-- the state in which it comes. There is one device.
pub mod Bitmap
pub mod Logged
pub mod Balloc
use cs537_sp2021_dis.Base.{
  ℕ, zero, suc, ◌+◌, ◌-◌, ◌*◌, ◌/◌, ◌%◌, Bool, true, false, not, Option, none, some, ltb, leb, ◌||◌,
  ◌==◌, if◌then◌else◌, update, find_first,
}
use cs537_sp2021_dis.Bytes.{bit, set_bit, clear_bit}
use cs537_sp2021_dis.Log.{Log, log_size, record_block}

-- xv6/fs.h
abbrev pub bsize : ℕ
bsize = 512

abbrev pub bpb : ℕ
bpb = 4096

pub record Fs : Type 0 where
  pub size : ℕ
  pub ninodes : ℕ
  pub inodestart : ℕ
  pub bmapstart : ℕ
  pub blocks : ℕ → ℕ → ℕ
  pub logged : ℕ → Bool
  pub log : Log

-- `BBLOCK(b, sb)`
abbrev pub bblock : Fs → ℕ → ℕ
bblock s b = b / bpb + s.bmapstart

pub data Result {ℓ} (A : Type ℓ) : Type ℓ where
  returns : A → Fs → Result A
  panics : Fs → Result A

abbrev pub bind {ℓ κ} : {A : Type ℓ} {B : Type κ} → Result A → (A → Fs → Result B) → Result B
bind (returns a s) f = f a s
bind (panics s) f = panics s

-- The two panics of `log_write`.
abbrev pub refuses : Log → Bool
refuses l = leb log_size l.n || leb (l.size - 1) l.n || ltb l.outstanding 1

-- The block `b` with the contents `c`, which the log has recorded.
abbrev pub stored : Fs → ℕ → (ℕ → ℕ) → Fs
stored s b c = record s {
  blocks = update s.blocks b c;
  logged = update s.logged b true;
  log = record_block s.log b;
}

-- Give the buffer of block `b` the contents `c`, and `log_write` it.
abbrev pub write_logged : Fs → ℕ → (ℕ → ℕ) → Result (Unit {0})
write_logged s b c =
    if refuses s.log
    then panics (record s { blocks = update s.blocks b c })
    else returns tt (stored s b c)

abbrev pub bzero : Fs → ℕ → Result (Unit {0})
bzero s b = write_logged s b (λ i. 0)

-- The block of the bitmap `c`, at the bit `bi`: the byte with its bit tested, set, or cleared.
abbrev pub is_marked : Fs → ℕ → ℕ → Bool
is_marked s c bi = bit (bi % 8) (s.blocks c (bi / 8))

abbrev pub with_bit : (ℕ → ℕ) → ℕ → ℕ → ℕ
with_bit bp bi = update bp (bi / 8) (set_bit (bi % 8) (bp (bi / 8)))

abbrev pub without_bit : (ℕ → ℕ) → ℕ → ℕ → ℕ
without_bit bp bi = update bp (bi / 8) (clear_bit (bi % 8) (bp (bi / 8)))

pub mark : Fs → ℕ → ℕ → Result (Unit {0})
mark s c bi = write_logged s c (with_bit (s.blocks c) bi)

pub unmark : Fs → ℕ → ℕ → Result (Unit {0})
unmark s c bi = write_logged s c (without_bit (s.blocks c) bi)

-- The inner loop of `balloc` on the bits of the block of the bitmap for `b`.
pub free_bit : Fs → ℕ → Option ℕ
free_bit s b =
    find_first (λ bi. not (is_marked s (bblock s b) bi))
      (if ltb (s.size - b) bpb then s.size - b else bpb)

-- The outer loop, for at most `fuel` blocks of the bitmap.
pub balloc_from : ℕ → Fs → ℕ → Result ℕ
balloc_from zero s b = panics s
balloc_from (suc fuel) s b =
    let rest = balloc_from fuel s (b + bpb) in
    if ltb b s.size
    then elim (free_bit s b) [
      | some bi ↦
          bind (mark s (bblock s b) bi) λ x t. bind (bzero t (b + bi)) λ y u. returns (b + bi) u
      | none ↦ rest
    ]
    else panics s

pub balloc : Fs → Result ℕ
balloc s = balloc_from (s.size / bpb + 1) s 0

-- Whether the bit of the block `b` is set.
abbrev pub used : Fs → ℕ → Bool
used s b = is_marked s (bblock s b) (b % bpb)

pub bfree : Fs → ℕ → Result (Unit {0})
bfree s b = if used s b then unmark s (bblock s b) (b % bpb) else panics s
