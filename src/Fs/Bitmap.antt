-- ===== src/Fs/Bitmap.antt =====
-- The bitmap as the set of the blocks in use, and what `balloc` and `bfree` do to it.
use cs537_sp2021_dis.Base.{
  ℕ, ◌+◌, ◌/◌, ◌%◌, ◌≤◌, ◌<◌, ◌≡◌, refl, ◌∙◌, inl, inr, true, false, Bool-cases, arith, ◌==◌,
  if◌then◌else◌, update,
}
use cs537_sp2021_dis.Bytes.Laws.{bit-set_bit, bit-clear_bit}
use cs537_sp2021_dis.Fs.{
  Fs, bpb, bblock, Result, returns, panics, bind, refuses, stored, write_logged, with_bit,
  without_bit, used,
}

-- The blocks before the data: boot, superblock, log, inodes and bitmap.
abbrev pub nmeta : Fs → ℕ
nmeta s = s.bmapstart + s.size / bpb + 1

-- The inodes lie before the bitmap, and mkfs marks all of these blocks as in use.
pub record IsFs (s : Fs) : Type 0 where
  pub inodes : s.inodestart + s.ninodes / 8 < s.bmapstart
  pub meta_used : (b : ℕ) → b < nmeta s → used s b ≡ true
  pub meta_size : nmeta s ≤ s.size

-- The superblock is the same; what changed is logged, and the log keeps what it has.
pub record Extends (s t : Fs) : Type 0 where
  pub size : t.size ≡ s.size
  pub ninodes : t.ninodes ≡ s.ninodes
  pub inodestart : t.inodestart ≡ s.inodestart
  pub bmapstart : t.bmapstart ≡ s.bmapstart
  pub logged : (c : ℕ) → s.logged c ≡ true → t.logged c ≡ true
  pub same : (c : ℕ) → t.logged c ≡ false → (i : ℕ) → t.blocks c i ≡ s.blocks c i

pub Extends-refl : (s : Fs) → Extends s s
Extends-refl s = record {
  size = refl;
  ninodes = refl;
  inodestart = refl;
  bmapstart = refl;
  logged = λ c h. h;
  same = λ c h i. refl;
}

pub Extends-trans : {s t u : Fs} → Extends s t → Extends t u → Extends s u
Extends-trans {s} {t} {u} e f = record {
  size = f.size ∙ e.size;
  ninodes = f.ninodes ∙ e.ninodes;
  inodestart = f.inodestart ∙ e.inodestart;
  bmapstart = f.bmapstart ∙ e.bmapstart;
  logged = λ c h. f.logged c (e.logged c h);
  same = λ c h i. f.same c h i ∙ elim (Bool-cases (t.logged c)) [
    | inl was ↦ cc (f.logged c was)
    | inr not_yet ↦ e.same c not_yet i
  ];
}

pub stored-Extends : (s : Fs) (b : ℕ) (c : ℕ → ℕ) → Extends s (stored s b c)
stored-Extends s b c = record {
  size = refl;
  ninodes = refl;
  inodestart = refl;
  bmapstart = refl;
  logged = λ d h. ground (arith, h);
  same = λ d h i. ground (arith, h);
}

-- `log_write` would panic.
abbrev pub Refuses : Fs → Type 0
Refuses s = refuses s.log ≡ true

-- A write through the log: it panics, or the block is stored.
pub logged_write {ℓ κ} :
    {A : Type ℓ} (P : Result A → Type κ) (s : Fs) (b : ℕ) (c : ℕ → ℕ) (f : Unit {0} → Fs → Result A)
    → ((t : Fs) → Refuses t → P (panics t))
    → P (f tt (stored s b c))
    → P (bind (write_logged s b c) f)
logged_write P s b c f stops goes = elim (Bool-cases (refuses s.log)) [
  | inl full ↦ rw full (stops (record s { blocks = update s.blocks b c }) full)
  | inr room ↦ rw room goes
]

pub logged_last {κ} :
    (P : Result (Unit {0}) → Type κ) (s : Fs) (b : ℕ) (c : ℕ → ℕ)
    → ((t : Fs) → Refuses t → P (panics t))
    → P (returns tt (stored s b c))
    → P (write_logged s b c)
logged_last P s b c stops goes = elim (Bool-cases (refuses s.log)) [
  | inl full ↦ rw full (stops (record s { blocks = update s.blocks b c }) full)
  | inr room ↦ rw room goes
]

-- One bit of the bitmap.
abbrev pub marked : Fs → ℕ → ℕ → Fs
marked s c bi = stored s c (with_bit (s.blocks c) bi)

abbrev pub unmarked : Fs → ℕ → ℕ → Fs
unmarked s c bi = stored s c (without_bit (s.blocks c) bi)

pub used-marked :
    (s : Fs) (b j : ℕ)
    → used (marked s (bblock s b) (b % bpb)) j ≡ (if b == j then true else used s j)
used-marked s b j =
    ground (arith, bit-set_bit (j % bpb % 8) (b % bpb % 8) (s.blocks (bblock s b) (b % bpb / 8)))

pub used-unmarked :
    (s : Fs) (b j : ℕ)
    → used (unmarked s (bblock s b) (b % bpb)) j ≡ (if b == j then false else used s j)
used-unmarked s b j =
    ground (arith, bit-clear_bit (j % bpb % 8) (b % bpb % 8) (s.blocks (bblock s b) (b % bpb / 8)))

-- A write to a block of the data leaves the bitmap alone.
pub used-stored :
    (s : Fs) (b : ℕ) (c : ℕ → ℕ) (j : ℕ)
    → nmeta s ≤ b
    → j < s.size
    → used (stored s b c) j ≡ used s j
used-stored s b c j h lt = ground (arith, h, lt)
