-- ===== src/Sleeplock/Tests.antt =====
-- One process inside, and the instance of the theorem.
use cs537_sp2021_dis.Base.{ℕ, ◌≡◌, refl, true, false, update}
use cs537_sp2021_dis.Sleeplock.{initsleeplock, acquiresleep, holdingsleep}
use cs537_sp2021_dis.Sleeplock.Exclusion.{Users, Reach, start, next, enters, Reach-exclusive}

abbrev shell : ℕ
shell = 4

abbrev other : ℕ
other = 5

abbrev one_inside : Users
one_inside = record {
  lock = record { locked = true; pid = 4 };
  inside = update (λ p. false) 4 true;
}

one_inside-Reach : Reach one_inside
unfolding acquiresleep initsleeplock
one_inside-Reach = next start (enters 4 refl refl)

Reach-exclusive_example :
    (one_inside.inside shell ≡ true → one_inside.inside other ≡ true → shell ≡ other)
    × (one_inside.inside shell ≡ holdingsleep shell one_inside.lock)
Reach-exclusive_example = Reach-exclusive shell other one_inside-Reach
