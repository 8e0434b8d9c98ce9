-- ===== src/Log/Crash.antt =====
-- What a crash leaves: `initlog` after a power failure at any disk write of `commit`, or of an
-- earlier recovery.
use mathlib.Core.Path.{subst₂}
use cs537_sp2021_dis.Base.{
  ℕ, ◌<◌, ◌≡◌, refl, sym, ap, ◌∙◌, ◌⊎◌, inl, inr, arith, All, All-map, dec_lt, some, [], ◌∷◌,
}
use cs537_sp2021_dis.Disk.{DiskImage}
use cs537_sp2021_dis.Log.{Log, Sys, recover_from_log, initlog, commit}
use cs537_sp2021_dis.Log.Recover.{
  Clean, Recoverable, Clean-Recoverable, booted, Recovers, recover_from_log-Recovers,
}
use cs537_sp2021_dis.Log.Commit.{Ready, Commits, commit-Commits, commit_empty}

-- The superblock, which stands before the log, gives the log's place and size.
pub record HasLog (start size : ℕ) (m : DiskImage) : Type 0 where
  pub before : 1 < start
  pub logstart : m 1 4 ≡ start
  pub nlog : m 1 3 ≡ size

-- Whatever was in memory, `initlog` succeeds on the image and leaves a clean disk.
pub Restarts : ℕ → ℕ → DiskImage → DiskImage → Type 0
Restarts start size target m =
    (dev : ℕ) (l : Log)
    → (t : Sys) × (initlog dev (booted l m) ≡ some t) × Clean start size target t.disk

Recoverable-super :
    {start size : ℕ} {target m : DiskImage}
    → HasLog start size target
    → Recoverable start size target m
    → m 1 ≡ target 1
Recoverable-super has r = elim (r.committed.home 1 (inl has.before)) [
  | inl same ↦ same
  | inr (i, le, below, at) ↦ absurd (r.layout.spared i below at)
]

-- The state in which `initlog` starts recovery.
abbrev restarted : ℕ → Log → DiskImage → Log
restarted dev l m = record l { start = m 1 4; size = m 1 3; dev = dev }

initlog_lem :
    (dev : ℕ) (l : Log) (m : DiskImage)
    → initlog dev (booted l m) ≡ some (recover_from_log (booted (restarted dev l m) m))
unfolding initlog
initlog_lem dev l m = refl

initlog-Recovers :
    {start size : ℕ} {target m : DiskImage} (dev : ℕ) (l : Log)
    → HasLog start size target
    → Recoverable start size target m
    → Recovers start size target (recover_from_log (booted (restarted dev l m) m))
initlog-Recovers {start} {size} {target} {m} dev l has r =
    subst₂ (λ st sz. Recovers st sz target (recover_from_log (booted (restarted dev l m) m))) st sz
      (recover_from_log-Recovers (restarted dev l m) target m
        (subst₂ (λ a b. Recoverable a b target m) (sym st) (sym sz) r))
  where
    st : m 1 4 ≡ start
    st = ap (λ (b : ℕ → ℕ). b 4) (Recoverable-super has r) ∙ has.logstart

    sz : m 1 3 ≡ size
    sz = ap (λ (b : ℕ → ℕ). b 3) (Recoverable-super has r) ∙ has.nlog

Recoverable-Restarts :
    {start size : ℕ} {target m : DiskImage}
    → HasLog start size target
    → Recoverable start size target m
    → Restarts start size target m
unfolding Restarts
Recoverable-Restarts {m} has r dev l =
    (_, initlog_lem dev l m, (initlog-Recovers dev l has r).clean)

Ready-super : (s : Sys) → Ready s → 1 < s.start → s.disk 1 ≡ s.cached 1
Ready-super s ready before = elim (ready.pinned 1 (inl before)) [
  | inl same ↦ same
  | inr (i, le, below, at) ↦ absurd (ready.layout.spared i below at)
]

-- A commit that starts a new history.
pub commit-result : (s : Sys) → Ready s → s.history ≡ s.disk ∷ [] → Commits s (commit s)
commit-result s ready fresh = elim (dec_lt 0 s.n) [
  | yes some_blocks ↦ commit-Commits s ready some_blocks (rw fresh (old_image, tt))
  | no none_logged ↦ rw (commit_empty s (omega arith)) (record {
    clean = record {
      empty = ready.empty;
      same = λ b out. elim (ready.pinned b out) [
        | inl same ↦ same
        | inr (i, le, below, at) ↦ absurd (omega arith)
      ];
    };
    kept = λ b out. refl;
    always = rw fresh (inl old_image, tt);
  })
]
  where
    old_image : Recoverable s.start s.size s.disk s.disk
    old_image =
        Clean-Recoverable (omega (arith, ready.layout.fits))
          (record { empty = ready.empty; same = λ b out. refl })

-- If the power fails at any disk write of a commit, the next `initlog` succeeds and leaves the disk
-- outside the log either as before the transaction or as the cache has it: where the log on the
-- disk was empty and the cache differed from the disk at the logged blocks only.
pub commit_atomic :
    (s : Sys)
    → Ready s
    → HasLog s.start s.size s.disk
    → s.history ≡ s.disk ∷ []
    → All
        (λ m. Restarts s.start s.size s.disk m ⊎ Restarts s.start s.size s.cached m)
        (commit s).history
commit_atomic s ready has fresh =
    All-map _ _
      (λ m r. elim r [
        | inl old ↦ inl (Recoverable-Restarts has old)
        | inr new ↦ inr (Recoverable-Restarts has_new new)
      ])
      (commit s).history (commit-result s ready fresh).always
  where
    has_new : HasLog s.start s.size s.cached
    has_new =
        let super = Ready-super s ready has.before in
        record {
          before = has.before;
          logstart = ap (λ (b : ℕ → ℕ). b 4) (sym super) ∙ has.logstart;
          nlog = ap (λ (b : ℕ → ℕ). b 3) (sym super) ∙ has.nlog;
        }

-- A power failure during recovery loses nothing. Let `m` be an image whose superblock gives the log's
-- place, and whose log, once it is installed, gives `target`: its header lists fewer blocks than the
-- log has, all outside the log and none the superblock, the log has `target`'s contents of each, and
-- every other block outside the log is as in `target`. Then `initlog` on `m` succeeds and leaves an
-- empty log and `target` outside it, and so it does again, with the same `target`, on every image that
-- the disk passes meanwhile.
pub recovery-Restarts :
    {start size : ℕ} {target : DiskImage} (dev : ℕ) (l : Log) (m : DiskImage)
    → HasLog start size target
    → Recoverable start size target m
    → (t : Sys) × (initlog dev (booted l m) ≡ some t)
      × Clean start size target t.disk
      × All (Restarts start size target) t.history
recovery-Restarts dev l m has r =
    let done = initlog-Recovers dev l has r in
    (
      _,
      initlog_lem dev l m,
      done.clean,
      All-map _ _ (λ m r. Recoverable-Restarts has r) _ done.always,
    )
