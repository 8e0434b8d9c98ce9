-- ===== src/Log/Commit.antt =====
-- `commit`, disk write by disk write: which images it passes, and which it ends with.
use mathlib.Core.Path.{subst}
use cs537_sp2021_dis.Base.{
  dec_lt, ℕ, suc, ◌+◌, ◌<◌, ◌≡◌, refl, sym, ap, ◌∙◌, ◌⊎◌, inl, inr, arith, update, update_self,
  update_ne, All, All-map, for_upto_inv, lt→ltb,
}
use cs537_sp2021_dis.Disk.{Block, DiskImage, Store, disk-bwrite-fill}
use cs537_sp2021_dis.Log.{
  Sys, head_block, log_block, write_log, install_trans, clear_head, write_head, commit,
}
use cs537_sp2021_dis.Log.Header.{Lists, head_block-Lists}
use cs537_sp2021_dis.Log.Install.{
  Outside, Pending, Layout, Committed, Committed-all, Installing, install_trans-Installing,
}
use cs537_sp2021_dis.Log.Recover.{Clean, Recoverable, Clean-Recoverable, finish-Clean}

-- A transaction that may be committed: the log on the disk is empty, and outside of the log the
-- cache differs from the disk at the logged blocks only.
pub record Ready (s : Sys) : Type 0 where
  pub layout : Layout s.start s.size s.n s.block
  pub empty : s.disk s.start 0 ≡ 0
  pub pinned :
      (b : ℕ) → Outside s.start s.size b → (s.disk b ≡ s.cached b) ⊎ Pending s.n s.block 0 b

module _ (s : Sys) (Good : DiskImage → Type 0) (ready : Ready s) where
  -- After `k` rounds of `write_log`.
  record Logging (k : ℕ) (t : Store) : Type 0 where
    clean : Clean s.start s.size s.disk t.disk
    kept : (b : ℕ) → Outside s.start s.size b → t.cached b ≡ s.cached b
    on_disk : (i : ℕ) → i < k → t.disk (s.start + i + 1) ≡ s.cached (s.block i)
    in_cache : (i : ℕ) → i < k → t.cached (s.start + i + 1) ≡ s.cached (s.block i)
    always : All Good t.history

  module _ (good_old : (m : DiskImage) → Clean s.start s.size s.disk m → Good m) where
    log_round : (k : ℕ) (t : Store) → k < s.n → Logging k t → Logging (suc k) (log_block s.log k t)
    unfolding log_block
    log_round k t lt l = record {
      clean = subst (Clean s.start s.size s.disk) (sym e) still;
      kept = λ b out. ground (arith, l.kept b, ready.layout.fits);
      on_disk = λ i below.
          ap (λ (m : DiskImage). m (s.start + i + 1)) e ∙ ground (arith, l.on_disk i, from);
      in_cache = λ i below. ground (arith, l.in_cache i, from);
      always = (subst Good (sym e) (good_old image still), l.always);
    }
      where
        from : t.cached (s.block k) ≡ s.cached (s.block k)
        from = l.kept (s.block k) (ready.layout.homes k lt)

        image : DiskImage
        image = update t.disk (s.start + k + 1) (t.cached (s.block k))

        e : (log_block s.log k t).disk ≡ image
        e = disk-bwrite-fill t (s.start + k + 1) (t.cached (s.block k))

        still : Clean s.start s.size s.disk image
        still = record {
          empty = ground (arith, l.clean.empty);
          same = λ b out. ground (arith, l.clean.same b, ready.layout.fits);
        }

    write_log-Logging : All Good s.history → Logging s.n (write_log s).store
    unfolding write_log
    write_log-Logging old = for_upto_inv Logging (log_block s.log) s.n log_round s.store (record {
      clean = record { empty = ready.empty; same = λ b out. refl };
      kept = λ b out. refl;
      on_disk = λ i below. absurd (omega arith);
      in_cache = λ i below. absurd (omega arith);
      always = old;
    })

  -- The write of the header commits: it makes the log's entries count.
  module _
      (good_new : (m : DiskImage)
        → Committed s.start s.size s.n s.block s.cached 0 m
        → Good m) where
    head-Committed :
        (m : DiskImage) (hb : Block)
        → Lists hb s.n s.block
        → ((i : ℕ) → i < s.n → m (s.start + i + 1) ≡ s.cached (s.block i))
        → ((b : ℕ) → Outside s.start s.size b → (m b ≡ s.cached b) ⊎ Pending s.n s.block 0 b)
        → Committed s.start s.size s.n s.block s.cached 0 (update m s.start hb)
    head-Committed m hb lists logged home = record {
      lists = rw (update_self m s.start hb) lists;
      logged = λ i below. ground (arith, logged i below);
      home =
          λ b out. rw (update_ne m s.start b hb (ground (arith, ready.layout.fits))) (home b out);
    }

    write_head-Installing :
        (t : Store)
        → Logging s.n t
        → Installing s.start s.size s.n s.block s.cached Good 0
            (write_head (record s { store = t })).store
    unfolding write_head
    write_head-Installing t l = record {
      in_cache = head-Committed t.cached hb lists l.in_cache (λ b out. inl (l.kept b out));
      on_disk = subst (Committed s.start s.size s.n s.block s.cached 0) (sym e) committed;
      always = (subst Good (sym e) (good_new image committed), l.always);
    }
      where
        hb : Block
        hb = head_block s.log (t.cached s.start)

        lists : Lists hb s.n s.block
        lists = head_block-Lists s.log (t.cached s.start)

        image : DiskImage
        image = update t.disk s.start hb

        e : (write_head (record s { store = t })).disk ≡ image
        e = disk-bwrite-fill t s.start hb

        committed : Committed s.start s.size s.n s.block s.cached 0 image
        committed =
            head-Committed t.disk hb lists l.on_disk
              (λ b out. rw (l.clean.same b out) (ready.pinned b out))

-- A commit ends with the cached contents on the disk and an empty log, and every image that it
-- passes can be recovered to the old contents or to the new.
pub record Commits (s t : Sys) : Type 0 where
  pub clean : Clean s.start s.size s.cached t.disk
  pub kept : (b : ℕ) → Outside s.start s.size b → t.cached b ≡ s.cached b
  pub always :
      All
        (λ m. Recoverable s.start s.size s.disk m ⊎ Recoverable s.start s.size s.cached m)
        t.history

pub commit_lem :
    (s : Sys)
    → 0 < s.n
    → commit s ≡ write_head (clear_head (install_trans (write_head (write_log s))))
unfolding commit
commit_lem s some_blocks = rw (lt→ltb 0 s.n some_blocks)

-- A commit of an empty log does nothing.
pub commit_empty : (s : Sys) → s.n ≡ 0 → commit s ≡ s
unfolding commit
commit_empty s e = rw e

pub commit_fields :
    (s : Sys)
    → ((commit s).n ≡ 0)
      × ((commit s).outstanding ≡ s.outstanding)
      × ((commit s).size ≡ s.size)
      × ((commit s).start ≡ s.start)
unfolding write_log install_trans write_head clear_head
commit_fields s = elim (dec_lt 0 s.n) [
  | yes some_blocks ↦ rw (commit_lem s some_blocks) (refl, refl, refl, refl)
  | no none_logged ↦ rw (commit_empty s (omega arith)) (omega arith, refl, refl, refl)
]

pub commit-Commits :
    (s : Sys)
    → Ready s
    → 0 < s.n
    → All (Recoverable s.start s.size s.disk) s.history
    → Commits s (commit s)
unfolding commit
commit-Commits s ready some_blocks old =
    subst (Commits s) (sym (commit_lem s some_blocks)) (record {
      clean = clean;
      kept = λ b out.
          update_ne (install_trans headed).cached s.start b _ (ground (arith, ready.layout.fits))
          ∙ Committed-all ready.layout s.cached _ installed.in_cache b out;
      always = (inr (Clean-Recoverable (omega (arith, ready.layout.fits)) clean), installed.always);
    })
  where
    Good : DiskImage → Type 0
    Good m = Recoverable s.start s.size s.disk m ⊎ Recoverable s.start s.size s.cached m

    good_old : (m : DiskImage) → Clean s.start s.size s.disk m → Good m
    good_old m c = inl (Clean-Recoverable (omega (arith, ready.layout.fits)) c)

    good_new : (m : DiskImage) → Committed s.start s.size s.n s.block s.cached 0 m → Good m
    good_new m c = inr (record { n = s.n; block = s.block; layout = ready.layout; committed = c })

    headed : Sys
    headed = write_head (write_log s)

    installed : Installing s.start s.size s.n s.block s.cached Good s.n (install_trans headed).store
    installed = install_trans-Installing headed s.cached Good ready.layout good_new (
        write_head-Installing s Good ready good_new (write_log s).store
          (write_log-Logging s Good ready good_old (All-map _ Good (λ m r. inl r) s.history old)))

    clean : Clean s.start s.size s.cached (write_head (clear_head (install_trans headed))).disk
    clean = finish-Clean (install_trans headed) s.cached ready.layout installed.on_disk
