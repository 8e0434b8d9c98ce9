-- ===== src/Log/Tests.antt =====
-- One block in the log of a small disk: block 40 has been modified in the cache.
use mathlib.Core.Option.{get_or}
use cs537_sp2021_dis.Base.{
  ℕ, ◌≡◌, refl, ◌⊎◌, inl, inr, arith, false, All, List, [], ◌∷◌, update, Bool-cases, ◌==◌, none,
  some, for_upto,
}
use cs537_sp2021_dis.Disk.{Block, DiskImage, boot, fill}
use cs537_sp2021_dis.Log.{Log, Sys, commit, initlog, begin_op, log_write, record_block, find_block}
use cs537_sp2021_dis.Log.Install.{Outside}
use cs537_sp2021_dis.Log.Recover.{Clean, Recoverable, booted}
use cs537_sp2021_dis.Log.Commit.{Ready}
use cs537_sp2021_dis.Log.Crash.{HasLog, Restarts, commit_atomic, recovery-Restarts}
use cs537_sp2021_dis.Log.Transaction.{write_block, write_blocks, changed, transaction_atomic}
use cs537_sp2021_dis.Log.Reserve.{Reach, here, next, begins, log_write_reserved}
use cs537_sp2021_dis.Log.Durable.{commit_durable}
use cs537_sp2021_dis.Log.Dirty.{CleanMatches, write_blocks-CleanMatches}

abbrev zeros : Block
zeros w = 0

abbrev super : Block
super = update (update zeros 3 30) 4 2

abbrev image : DiskImage
image = update (λ _. zeros) 1 super

abbrev written : Block
written = update zeros 7 99

abbrev one_entry : Log
one_entry = record {
  start = 2;
  size = 30;
  outstanding = 0;
  committing = false;
  dev = 1;
  n = 1;
  block = λ _. 40;
}

abbrev one_block : Sys
one_block = record { log = one_entry; store = fill (boot image) 40 written }

one_block-Ready : Ready one_block
one_block-Ready = record {
  layout = record {
    fits = omega arith;
    homes = λ i below. inr (omega arith);
    spared = λ i below. omega arith;
  };
  empty = refl;
  pinned = λ b out. elim (Bool-cases (40 == b)) [
    | inl same ↦ inr (0, omega arith, omega arith, ground arith)
    | inr other ↦ inl (ground arith)
  ];
}

has_log : HasLog 2 30 image
has_log = record { before = omega arith; logstart = refl; nlog = refl }

commit_installs : (commit one_block).disk 40 7 ≡ 99
unfolding commit for_upto
commit_installs = refl

commit_atomic_example :
    All (λ m. Restarts 2 30 image m ⊎ Restarts 2 30 one_block.cached m) (commit one_block).history
commit_atomic_example = commit_atomic one_block one_block-Ready has_log refl

-- A committed transaction that is not yet installed: the header lists block 40, whose contents stand in
-- the first block of the log.
abbrev committed_image : DiskImage
committed_image = update (update image 2 (update (update zeros 0 1) 1 40)) 3 written

abbrev installed_image : DiskImage
installed_image = update image 40 written

committed-Recoverable : Recoverable 2 30 installed_image committed_image
committed-Recoverable = record {
  n = 1;
  block = λ _. 40;
  layout = record {
    fits = omega arith;
    homes = λ i below. inr (omega arith);
    spared = λ i below. omega arith;
  };
  committed = record {
    lists = record { count = refl; entry = λ i below. ground (arith, below) };
    logged = λ i below. ground (arith, below);
    home = λ b out. elim (Bool-cases (40 == b)) [
      | inl same ↦ inr (0, omega arith, omega arith, ground arith)
      | inr other ↦ inl (ground (arith, other, out))
    ];
  };
}

recovery-Restarts_example :
    (t : Sys) × (initlog 1 (booted one_entry committed_image) ≡ some t)
    × Clean 2 30 installed_image t.disk
    × All (Restarts 2 30 installed_image) t.history
recovery-Restarts_example =
    recovery-Restarts {start = 2} {size = 30} {target = installed_image} 1 one_entry committed_image
      (record { before = omega arith; logstart = refl; nlog = refl }) committed-Recoverable

abbrev idle_log : Log
idle_log = record one_entry { size = 31; n = 0 }

abbrev image31 : DiskImage
image31 = update image 1 (update super 3 31)

has_log31 : HasLog 2 31 image31
has_log31 = record { before = omega arith; logstart = refl; nlog = refl }

abbrev idle_sys : Sys
idle_sys = record { log = idle_log; store = boot image31 }

abbrev one_op : Sys
one_op = record idle_sys { log = record idle_log { outstanding = 1 } }

one_op-Reach : Reach idle_sys one_op (10 ∷ [])
unfolding begin_op
one_op-Reach = next here (begins one_op.log refl refl refl)

log_write_reserved_example : (t : Sys) × (log_write one_op 40 ≡ some t)
log_write_reserved_example =
    log_write_reserved 9 40 [] [] (refl, refl, refl) (omega arith) one_op-Reach

-- A log of the size that mkfs gives it is full one block before `begin_op` says so.
mkfs_log_full :
    log_write (record one_op { log = record (one_op.log) { size = 30; n = 29 } }) 40 ≡ none
unfolding log_write
mkfs_log_full = refl

abbrev two_changes : List (ℕ × Block)
two_changes = (40, written) ∷ (41, written) ∷ (40, zeros) ∷ []

one_op-Ready : Ready one_op
one_op-Ready = record {
  layout = record {
    fits = omega arith;
    homes = λ i below. absurd (omega arith);
    spared = λ i below. absurd (omega arith);
  };
  empty = refl;
  pinned = λ b out. inl refl;
}

abbrev changed_sys : Sys
changed_sys = get_or (write_blocks one_op two_changes) one_op

two_changes_run : write_blocks one_op two_changes ≡ some changed_sys
unfolding write_blocks write_block log_write record_block find_block
two_changes_run = refl

transaction_atomic_example :
    All
      (λ m. Restarts 2 31 image31 m ⊎ Restarts 2 31 (changed image31 two_changes) m)
      (commit changed_sys).history
transaction_atomic_example =
    transaction_atomic one_op changed_sys two_changes one_op-Ready
      (λ i j lt below. absurd (omega arith)) has_log31 refl (omega arith) two_changes_run

commit_durable_example :
    ((b : ℕ)
      → Outside 2 30 b
      → ((commit one_block).disk b ≡ one_block.cached b)
        × ((commit one_block).cached b ≡ one_block.cached b))
    × ((commit one_block).n ≡ 0)
    × Ready (commit one_block)
commit_durable_example = commit_durable one_block one_block-Ready refl

write_blocks-CleanMatches_example :
    CleanMatches changed_sys.store × CleanMatches (commit changed_sys).store
write_blocks-CleanMatches_example =
    write_blocks-CleanMatches one_op changed_sys two_changes (λ b clean. refl) two_changes_run
