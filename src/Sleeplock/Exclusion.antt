-- ===== src/Sleeplock/Exclusion.antt =====
-- At most one process holds the lock.
use cs537_sp2021_dis.Base.{ℕ, ◌≡◌, refl, ◌∙◌, sym, Bool, true, false, some, arith, update}
use cs537_sp2021_dis.Sleeplock.{SleepLock, initsleeplock, acquiresleep, releasesleep, holdingsleep}

-- The lock, and which processes are between an `acquiresleep` that returned and `releasesleep`.
pub record Users : Type 0 where
  pub lock : SleepLock
  pub inside : ℕ → Bool

pub data Step (s t : Users) : Type 0 where
  enters :
      (p : ℕ) → acquiresleep p s.lock ≡ some t.lock → t.inside ≡ update s.inside p true → Step s t
  leaves :
      (p : ℕ)
      → s.inside p ≡ true
      → t.lock ≡ releasesleep s.lock
      → t.inside ≡ update s.inside p false
      → Step s t

pub data Reach : Users → Type 0 where
  start : Reach (record { lock = initsleeplock; inside = λ p. false })
  next : {s t : Users} → Reach s → Step s t → Reach t

-- `holdingsleep` tells who is inside.
abbrev pub Exact : Users → Type 0
Exact s = (p : ℕ) → s.inside p ≡ holdingsleep p s.lock

enters-Exact :
    (s : Users) (l : SleepLock) (p : ℕ)
    → Exact s
    → acquiresleep p s.lock ≡ some l
    → (q : ℕ) → update s.inside p true q ≡ holdingsleep q l
unfolding acquiresleep holdingsleep
enters-Exact s l p exact e q = ground (arith, exact q, e)

leaves-Exact :
    (s : Users) (p : ℕ)
    → Exact s
    → s.inside p ≡ true
    → (q : ℕ) → update s.inside p false q ≡ holdingsleep q (releasesleep s.lock)
unfolding releasesleep holdingsleep
leaves-Exact s p exact h q = ground (arith, exact q, exact p, h)

Reach-Exact : {s : Users} → Reach s → Exact s
unfolding initsleeplock holdingsleep
Reach-Exact start = λ p. refl
Reach-Exact (next {s} {t} r (enters p e u)) = rw u (enters-Exact s t.lock p (Reach-Exact r) e)
Reach-Exact (next {s} {t} r (leaves p h e u)) = rw (e, u) (leaves-Exact s p (Reach-Exact r) h)

holding_unique :
    (lk : SleepLock) (p q : ℕ) → holdingsleep p lk ≡ true → holdingsleep q lk ≡ true → p ≡ q
unfolding holdingsleep
holding_unique lk p q hp hq = ground (arith, hp, hq)

-- However processes acquire the lock, and release it when they hold it: two processes that are both
-- inside are the same one, and `holdingsleep` is true exactly of a process that is inside.
pub Reach-exclusive :
    {s : Users} (p q : ℕ)
    → Reach s
    → (s.inside p ≡ true → s.inside q ≡ true → p ≡ q) × (s.inside p ≡ holdingsleep p s.lock)
Reach-exclusive {s} p q r =
    let exact = Reach-Exact r in
    (λ hp hq. holding_unique s.lock p q (sym (exact p) ∙ hp) (sym (exact q) ∙ hq), exact p)
