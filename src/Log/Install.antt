-- ===== src/Log/Install.antt =====
-- A committed log, and what `install_trans` makes of it. `target` is the contents that the blocks
-- outside the log are to have.
use cs537_sp2021_dis.Base.{
  ℕ, suc, ◌+◌, ◌≤◌, ◌<◌, ◌≡◌, sym, ap, ◌∙◌, ◌≢◌, ◌⊎◌, inl, inr, arith, update, update_ne, All,
  for_upto_inv, Bool-cases, ◌==◌,
}
use mathlib.Core.Path.{subst}
use cs537_sp2021_dis.Disk.{DiskImage, Store, disk-bwrite-fill}
use cs537_sp2021_dis.Log.{Sys, install_block, install_trans}
use cs537_sp2021_dis.Log.Header.{Lists}

-- The block does not belong to the log.
abbrev pub Outside : ℕ → ℕ → ℕ → Type 0
Outside start size b = (b < start) ⊎ (start + size ≤ b)

-- An entry from `k` on is for the block.
abbrev pub Pending : ℕ → (ℕ → ℕ) → ℕ → ℕ → Type 0
Pending n block k b = (i : ℕ) × (k ≤ i) × (i < n) × (block i ≡ b)

-- The log has room for its entries, and all are for blocks outside of it other than the superblock.
pub record Layout (start size n : ℕ) (block : ℕ → ℕ) : Type 0 where
  pub fits : n < size
  pub homes : (i : ℕ) → i < n → Outside start size (block i)
  pub spared : (i : ℕ) → i < n → block i ≢ 1

-- The image `m` has a log of `n` entries, of which the first `k` are installed.
pub record Committed (start size n : ℕ) (block : ℕ → ℕ) (target : DiskImage) (k : ℕ) (m : DiskImage)
    : Type 0 where
  pub lists : Lists (m start) n block
  pub logged : (i : ℕ) → i < n → m (start + i + 1) ≡ target (block i)
  pub home : (b : ℕ) → Outside start size b → (m b ≡ target b) ⊎ Pending n block k b

module _ {start size n : ℕ} {block : ℕ → ℕ} (lay : Layout start size n block) where
  -- A home is not a block of the log.
  pub home_ne : (k c : ℕ) → k < n → start ≤ c → c ≤ start + n → block k ≢ c
  home_ne k c lt lo hi e = ground (arith, lay.fits, lay.homes k lt)

module _ {start size n : ℕ} {block : ℕ → ℕ} (lay : Layout start size n block)
    (target : DiskImage) where
  home_step :
      (k b : ℕ) (m : DiskImage)
      → k < n
      → m (start + k + 1) ≡ target (block k)
      → (m b ≡ target b) ⊎ Pending n block k b
      → (update m (block k) (m (start + k + 1)) b ≡ target b) ⊎ Pending n block (suc k) b
  home_step k b m lt e h = elim (Bool-cases (block k == b)) [
    | inl same ↦ let at : block k ≡ b = ground arith in inl (rw same (rw at at e))
    | inr other ↦ elim h [
      | inl done ↦ inl (rw other done)
      | inr (i, le, below, at) ↦ inr (i, ground arith, below, at)
    ]
  ]

  install_step :
      (k : ℕ) (m : DiskImage)
      → k < n
      → Committed start size n block target k m
      → Committed start size n block target (suc k) (update m (block k) (m (start + k + 1)))
  install_step k m lt c = record {
    lists =
        rw
          (update_ne m (block k) start (m (start + k + 1))
            (home_ne lay k start lt (omega arith) (omega arith)))
          c.lists;
    logged = λ i below.
        update_ne m (block k) (start + i + 1) (m (start + k + 1))
          (home_ne lay k (start + i + 1) lt (omega arith) (omega arith))
        ∙ c.logged i below;
    home = λ b out. home_step k b m lt (c.logged k lt) (c.home b out);
  }

  -- A committed image stays one when the installed entries are forgotten.
  pub Committed-again :
      (k : ℕ) (m : DiskImage)
      → Committed start size n block target k m
      → Committed start size n block target 0 m
  Committed-again k m c = record {
    lists = c.lists;
    logged = c.logged;
    home = λ b out. elim (c.home b out) [
      | inl done ↦ inl done
      | inr (i, le, below, at) ↦ inr (i, omega arith, below, at)
    ];
  }

  -- With every entry installed the blocks outside the log are as they are to be.
  pub Committed-all :
      (m : DiskImage)
      → Committed start size n block target n m
      → (b : ℕ) → Outside start size b
      → m b ≡ target b
  Committed-all m c b out = elim (c.home b out) [
    | inl done ↦ done
    | inr (i, le, below, at) ↦ absurd (omega arith)
  ]

-- The cache and the disk are both committed up to `k`, and the disk has always been `Good`.
pub record Installing (start size n : ℕ) (block : ℕ → ℕ) (target : DiskImage)
    (Good : DiskImage → Type 0) (k : ℕ) (s : Store) : Type 0 where
  pub in_cache : Committed start size n block target k s.cached
  pub on_disk : Committed start size n block target k s.disk
  pub always : All Good s.history

-- Where the committed images are good, `install_trans` installs all and passes good images only.
pub install_trans-Installing :
    (s : Sys) (target : DiskImage) (Good : DiskImage → Type 0)
    → Layout s.start s.size s.n s.block
    → ((m : DiskImage) → Committed s.start s.size s.n s.block target 0 m → Good m)
    → Installing s.start s.size s.n s.block target Good 0 s.store
    → Installing s.start s.size s.n s.block target Good s.n (install_trans s).store
unfolding install_trans
install_trans-Installing s target Good lay good h =
    for_upto_inv (Installing s.start s.size s.n s.block target Good) (install_block s.log) s.n round
      s.store h
  where
    round :
        (k : ℕ) (t : Store)
        → k < s.n
        → Installing s.start s.size s.n s.block target Good k t
        → Installing s.start s.size s.n s.block target Good (suc k) (install_block s.log k t)
    round k t lt i = record {
      in_cache = install_step lay target k t.cached lt i.in_cache;
      on_disk = subst (Committed s.start s.size s.n s.block target (suc k)) (sym e) stepped;
      always =
          (subst Good (sym e) (good _ (Committed-again lay target (suc k) _ stepped)), i.always);
    }
      where
        image : DiskImage
        image = update t.disk (s.block k) (t.disk (s.start + k + 1))

        e : (install_block s.log k t).disk ≡ image
        e =
            disk-bwrite-fill t (s.block k) (t.cached (s.start + k + 1))
            ∙ ap (update t.disk (s.block k)) (i.in_cache.logged k lt ∙ sym (i.on_disk.logged k lt))

        stepped : Committed s.start s.size s.n s.block target (suc k) image
        stepped = install_step lay target k t.disk lt i.on_disk
