-- ===== src/Log/Recover.antt =====
-- `recover_from_log` on any image that a crash may leave.
use mathlib.Core.Path.{subst}
use cs537_sp2021_dis.Base.{
  ℕ, ◌<◌, ◌≡◌, sym, ap, ◌∙◌, inl, inr, arith, update, update_self, update_ne, All,
}
use cs537_sp2021_dis.Disk.{Block, DiskImage, boot, disk-bwrite-fill}
use cs537_sp2021_dis.Log.{
  Log, Sys, head_block, read_head, install_trans, clear_head, write_head, recover_from_log,
}
use cs537_sp2021_dis.Log.Header.{head_block-Lists, read_entries}
use cs537_sp2021_dis.Log.Install.{
  Outside, Layout, Committed, Committed-all, Installing, install_trans-Installing,
}

-- The log is empty, and the blocks outside of it are as they are to be.
pub record Clean (start size : ℕ) (target m : DiskImage) : Type 0 where
  pub empty : m start 0 ≡ 0
  pub same : (b : ℕ) → Outside start size b → m b ≡ target b

-- The image has a log whose entries, once installed, give the target.
pub record Recoverable (start size : ℕ) (target m : DiskImage) : Type 0 where
  pub n : ℕ
  pub block : ℕ → ℕ
  pub layout : Layout start size n block
  pub committed : Committed start size n block target 0 m

pub Clean-Recoverable :
    {start size : ℕ} {target m : DiskImage}
    → 0 < size
    → Clean start size target m
    → Recoverable start size target m
Clean-Recoverable room c = record {
  n = 0;
  block = λ i. i;
  layout = record {
    fits = room;
    homes = λ i below. absurd (omega arith);
    spared = λ i below. absurd (omega arith);
  };
  committed = record {
    lists = record { count = c.empty; entry = λ i below. absurd (omega arith) };
    logged = λ i below. absurd (omega arith);
    home = λ b out. inl (c.same b out);
  };
}

-- Only the listed entries matter.
Committed-cong :
    {start size n n' k : ℕ} {block block' : ℕ → ℕ} {target m : DiskImage}
    → n ≡ n'
    → ((i : ℕ) → i < n → block i ≡ block' i)
    → Committed start size n block target k m
    → Committed start size n' block' target k m
Committed-cong {target} e same c = record {
  lists = record {
    count = c.lists.count ∙ e;
    entry = λ i below. c.lists.entry i (omega arith) ∙ same i (omega arith);
  };
  logged = λ i below. c.logged i (omega arith) ∙ ap target (same i (omega arith));
  home = λ b out. elim (c.home b out) [
    | inl done ↦ inl done
    | inr (i, le, below, at) ↦ inr (i, le, omega arith, sym (same i below) ∙ at)
  ];
}

Layout-cong :
    {start size n n' : ℕ} {block block' : ℕ → ℕ}
    → n ≡ n'
    → ((i : ℕ) → i < n → block i ≡ block' i)
    → Layout start size n block
    → Layout start size n' block'
Layout-cong {start} {size} e same lay = record {
  fits = omega (arith, lay.fits);
  homes = λ i below. subst (Outside start size) (same i (omega arith)) (lay.homes i (omega arith));
  spared = λ i below at. lay.spared i (omega arith) (same i (omega arith) ∙ at);
}

-- The last two steps of recovery, and of a commit: with all entries installed the header is
-- cleared, and the image is clean.
pub finish-Clean :
    (s : Sys) (target : DiskImage)
    → Layout s.start s.size s.n s.block
    → Committed s.start s.size s.n s.block target s.n s.disk
    → Clean s.start s.size target (write_head (clear_head s)).disk
unfolding write_head clear_head
finish-Clean s target lay c = subst (Clean s.start s.size target) (sym e) cleared
  where
    hb : Block
    hb = head_block (clear_head s).log (s.cached s.start)

    image : DiskImage
    image = update s.disk s.start hb

    e : (write_head (clear_head s)).disk ≡ image
    e = disk-bwrite-fill s.store s.start hb

    cleared : Clean s.start s.size target image
    cleared = record {
      empty =
          ap (λ (h : Block). h 0) (update_self s.disk s.start hb)
          ∙ (head_block-Lists (clear_head s).log (s.cached s.start)).count;
      same = λ b out.
          update_ne s.disk s.start b hb (ground (arith, lay.fits))
          ∙ Committed-all lay target s.disk c b out;
    }

abbrev pub booted : Log → DiskImage → Sys
booted l d = record { log = l; store = boot d }

-- Recovery makes every recoverable image clean, and so does a recovery that starts again after a
-- crash at any of its own writes.
pub record Recovers (start size : ℕ) (target : DiskImage) (s : Sys) : Type 0 where
  pub clean : Clean start size target s.disk
  pub always : All (Recoverable start size target) s.history

pub recover_from_log-Recovers :
    (l : Log) (target d : DiskImage)
    → Recoverable l.start l.size target d
    → Recovers l.start l.size target (recover_from_log (booted l d))
unfolding recover_from_log
recover_from_log-Recovers l target d r = record {
  clean = clean;
  always = (Clean-Recoverable (omega (arith, lay.fits)) clean, installed.always);
}
  where
    Good : DiskImage → Type 0
    Good = Recoverable l.start l.size target

    s : Sys
    s = read_head (booted l d)

    same : (i : ℕ) → i < r.n → r.block i ≡ s.block i
    same i below =
        sym (r.committed.lists.entry i below)
        ∙ sym (
            read_entries (d l.start) l.block (d l.start 0) i
              (omega (arith, r.committed.lists.count)))

    lay : Layout l.start l.size s.n s.block
    lay = Layout-cong (sym r.committed.lists.count) same r.layout

    committed : Committed l.start l.size s.n s.block target 0 d
    committed = Committed-cong (sym r.committed.lists.count) same r.committed

    good : (m : DiskImage) → Committed l.start l.size s.n s.block target 0 m → Good m
    good m c = record { n = s.n; block = s.block; layout = lay; committed = c }

    installed : Installing l.start l.size s.n s.block target Good s.n (install_trans s).store
    installed =
        install_trans-Installing s target Good lay good
          (record { in_cache = committed; on_disk = committed; always = (good d committed, tt) })

    clean : Clean l.start l.size target (write_head (clear_head (install_trans s))).disk
    clean = finish-Clean (install_trans s) target lay installed.on_disk
