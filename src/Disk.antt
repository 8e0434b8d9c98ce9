-- ===== src/Disk.antt =====
-- xv6/bio.c (bread, bwrite) and xv6/ide.c (iderw) as the log sees them: one disk, with the contents
-- that a buffer of each block has. Cached and stored contents are functions of the block number, so
-- a store is the state of a single device. A block is its 128 words of 32 bits.
--
-- The users of a buffer hold its lock: the panic of bwrite and brelse on a buffer that is not held is
-- left out. So are B_VALID and the recycling of clean buffers in bget, since the cache of a block is
-- what a read of it would return; Log/Dirty is about clean buffers.
--
-- `history` lists every state that the disk has been in, newest first; the power may fail at any of
-- them. A sector is written whole or not at all.
use cs537_sp2021_dis.Base.{ℕ, ◌≡◌, Bool, false, List, [], ◌∷◌, update, update_self}

abbrev pub Block : Type 0
Block = ℕ → ℕ

abbrev pub DiskImage : Type 0
DiskImage = ℕ → Block

pub record Store : Type 0 where
  pub cached : ℕ → Block
  pub dirty : ℕ → Bool
  pub disk : DiskImage
  pub history : List DiskImage

-- The data of the locked buffer that `bread` returns.
abbrev pub bread : Store → ℕ → Block
bread s b = s.cached b

-- The holder of a buffer writes its data.
abbrev pub fill : Store → ℕ → Block → Store
fill s b v = record s { cached = update s.cached b v }

-- `iderw` on a buffer with B_DIRTY set: the data reaches the disk and the flag is cleared.
abbrev pub bwrite : Store → ℕ → Store
bwrite s b =
    let d = update s.disk b (s.cached b) in
    record s { dirty = update s.dirty b false; disk = d; history = d ∷ s.history }

-- The machine comes up with an empty cache: the first `bread` of a block reads the disk.
abbrev pub boot : DiskImage → Store
boot d = record { cached = d; dirty = λ _. false; disk = d; history = d ∷ [] }

pub disk-bwrite-fill :
    (s : Store) (b : ℕ) (v : Block) → (bwrite (fill s b v) b).disk ≡ update s.disk b v
disk-bwrite-fill s b v = rw (update_self s.cached b v)
