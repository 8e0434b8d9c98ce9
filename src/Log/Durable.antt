-- ===== src/Log/Durable.antt =====
-- What a finished commit leaves: the basis of the next transaction.
use cs537_sp2021_dis.Base.{ℕ, ◌≡◌, sym, inl, arith, subst₂, [], ◌∷◌, ap, ◌∙◌}
use cs537_sp2021_dis.Log.{Sys, commit}
use cs537_sp2021_dis.Log.Install.{Outside}
use cs537_sp2021_dis.Log.Commit.{Ready, Commits, commit_fields}
use cs537_sp2021_dis.Log.Crash.{commit-result}

-- A commit puts the cached contents of every block outside the log on the disk, leaves them in the
-- cache, and empties the log in memory and on the disk, so that the next transaction can start:
-- where the log on the disk was empty, cache and disk differed at logged blocks only, and the
-- history of the disk is counted from the start of the commit.
pub commit_durable :
    (s : Sys)
    → Ready s
    → s.history ≡ s.disk ∷ []
    → ((b : ℕ)
        → Outside s.start s.size b
        → ((commit s).disk b ≡ s.cached b) × ((commit s).cached b ≡ s.cached b))
      × ((commit s).n ≡ 0)
      × Ready (commit s)
commit_durable s ready fresh = (
  λ b out. (c.clean.same b out, c.kept b out),
  f.0,
  record {
    layout = record {
      fits = ground (arith, f, ready.layout.fits);
      homes = λ i below. absurd (omega (arith, f.0));
      spared = λ i below. absurd (omega (arith, f.0));
    };
    empty = ap (λ (st : ℕ). (commit s).disk st 0) f.3 ∙ c.clean.empty;
    pinned = λ b out.
        let there : Outside s.start s.size b = subst₂ (λ st sz. Outside st sz b) f.3 f.2 out in
        inl (c.clean.same b there ∙ sym (c.kept b there));
  },
)
  where
    c : Commits s (commit s)
    c = commit-result s ready fresh

    f :
        ((commit s).n ≡ 0)
        × ((commit s).outstanding ≡ s.outstanding)
        × ((commit s).size ≡ s.size)
        × ((commit s).start ≡ s.start)
    f = commit_fields s
