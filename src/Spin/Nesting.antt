-- ===== src/Spin/Nesting.antt =====
-- Calls that are matched: every `pushcli` with its `popcli`, every `acquire` with its `release`.
use cs537_sp2021_dis.Base.{
  ℕ, ◌<◌, ◌≡◌, refl, ◌∙◌, sym, Bool, true, false, Option, none, some, arith, ◌==◌, if◌then◌else◌,
  update, ap, update_self, subst,
}
use cs537_sp2021_dis.Spin.{
  Cpu, SpinLock, pushcli, popcli, holding, held_by, Acquired, panics, spins, got, acquire, release,
}

pub record Machine : Type 0 where
  pub cpu : Cpu
  pub locks : ℕ → SpinLock

-- What a processor does: a part with interrupts off, or a part under a lock, and then more.
pub data Calls : Type 0 where
  done : Calls
  cli_part : Calls → Calls → Calls
  locked_part : ℕ → Calls → Calls → Calls

-- After `acquire`: none for a panic, or a lock that another processor holds.
abbrev pub acquired : Machine → ℕ → Acquired → Option Machine
acquired m l panics = none
acquired m l (spins c) = none
acquired m l (got c lk) = some (record { cpu = c; locks = update m.locks l lk })

abbrev pub released : Machine → ℕ → Option (Cpu × SpinLock) → Option Machine
released m l none = none
released m l (some (c, lk)) = some (record { cpu = c; locks = update m.locks l lk })

abbrev pub popped : Machine → Option Cpu → Option Machine
popped m none = none
popped m (some c) = some (record m { cpu = c })

abbrev pub then_do : Option Machine → (Machine → Option Machine) → Option Machine
then_do none f = none
then_do (some m) f = f m

-- The calls of the processor `me`, one after the other.
unfoldable pub run : ℕ → Calls → Machine → Option Machine
run me done m = some m
run me (cli_part inner rest) m =
    then_do (run me inner (record m { cpu = pushcli m.cpu }))
      λ m1. then_do (popped m1 (popcli m1.cpu)) (run me rest)
run me (locked_part l inner rest) m = then_do (acquired m l (acquire me m.cpu (m.locks l))) λ m1.
    then_do (run me inner m1)
      λ m2. then_do (released m2 l (release me m2.cpu (m2.locks l))) (run me rest)

-- No lock is taken again by a part that is under it, nor one that is `taken`.
unfoldable pub Nests : (ℕ → Bool) → Calls → Type 0
Nests taken done = Unit
Nests taken (cli_part inner rest) = Nests taken inner × Nests taken rest
Nests taken (locked_part l inner rest) =
    (taken l ≡ false) × Nests (update taken l true) inner × Nests taken rest

-- Interrupts are off while a `pushcli` is open.
abbrev pub IsOff : Cpu → Type 0
IsOff c = 0 < c.ncli → c.iflag ≡ false

abbrev pub unlocked : SpinLock
unlocked = record { locked = false; cpu = none }

abbrev pub locked_by : ℕ → SpinLock
locked_by me = record { locked = true; cpu = some me }

-- The processor once a matched part is over.
abbrev restored : Cpu → Cpu
restored c = record c { intena = if c.ncli == 0 then c.iflag else c.intena }

popcli-pushcli : (c : Cpu) → IsOff c → popcli (pushcli c) ≡ some (restored c)
unfolding popcli pushcli
popcli-pushcli c off = ground (arith, off)

pushcli-inside : (c : Cpu) → 0 < c.ncli → c.iflag ≡ false → restored c ≡ c
pushcli-inside c h off = ground (arith, h)

holding_lem :
    (me : ℕ) (c : Cpu) (lk : SpinLock)
    → 0 < c.ncli
    → c.iflag ≡ false
    → holding me c lk ≡ some (held_by me lk, c)
unfolding holding
holding_lem me c lk h off =
    simp (holding, popcli-pushcli c (λ l. off))
      (ap (λ d. some (held_by me lk, d)) (pushcli-inside c h off))

pushcli_ncli : (c : Cpu) → 0 < (pushcli c).ncli
unfolding pushcli
pushcli_ncli c = omega arith

pushcli_iflag : (c : Cpu) → (pushcli c).iflag ≡ false
unfolding pushcli
pushcli_iflag c = refl

acquire_lem : (me : ℕ) (c : Cpu) → acquire me c unlocked ≡ got (pushcli c) (locked_by me)
unfolding acquire
acquire_lem me c =
    simp (acquire, holding_lem me (pushcli c) unlocked (pushcli_ncli c) (pushcli_iflag c)) refl

release_lem :
    (me : ℕ) (c : Cpu)
    → IsOff c
    → release me (pushcli c) (locked_by me) ≡ some (restored c, unlocked)
unfolding release
release_lem me c off =
    simp
      (
        release,
        holding_lem me (pushcli c) (locked_by me) (pushcli_ncli c) (pushcli_iflag c),
        popcli-pushcli c off,
      )
      (ground arith)

-- The processor is ready for calls that nest under `taken`.
abbrev pub Ready : (ℕ → Bool) → Machine → Type 0
Ready taken m = IsOff m.cpu × ((l : ℕ) → taken l ≡ false → m.locks l ≡ unlocked)

-- The run ends, without a panic or a wait, with the machine as it was.
abbrev pub Restores : Machine → Option Machine → Type 0
Restores m r =
    (m' : Machine) × (r ≡ some m')
    × (m'.cpu.iflag ≡ m.cpu.iflag)
    × (m'.cpu.ncli ≡ m.cpu.ncli)
    × (0 < m.cpu.ncli → m'.cpu ≡ m.cpu)
    × ((l : ℕ) → m'.locks l ≡ m.locks l)

-- The rest of a run, from a machine that is as it was.
Restores-then :
    (m m1 : Machine) (r : Option Machine)
    → m1.cpu.iflag ≡ m.cpu.iflag
    → m1.cpu.ncli ≡ m.cpu.ncli
    → (0 < m.cpu.ncli → m1.cpu ≡ m.cpu)
    → ((l : ℕ) → m1.locks l ≡ m.locks l)
    → Restores m1 r
    → Restores m r
Restores-then m m1 r ei en ec el (m', e, i, n, c, l) =
    (m', e, i ∙ ei, n ∙ en, λ h. c (omega (arith, h, en)) ∙ ec h, λ j. l j ∙ el j)

restored-ncli : (c : Cpu) → 0 < c.ncli → restored c ≡ c
restored-ncli c h = ground (arith, h)

inner-Ready :
    (me l : ℕ) (taken : ℕ → Bool) (m : Machine)
    → Ready taken m
    → Ready
        (update taken l true)
        (record { cpu = pushcli m.cpu; locks = update m.locks l (locked_by me) })
inner-Ready me l taken m (off, free) = (λ h. pushcli_iflag m.cpu, λ j e. ground (arith, e, free j))

run-cli :
    (me : ℕ) (inner rest : Calls) (m m1 : Machine) (c : Cpu)
    → run me inner (record m { cpu = pushcli m.cpu }) ≡ some m1
    → popcli m1.cpu ≡ some c
    → run me (cli_part inner rest) m ≡ run me rest (record m1 { cpu = c })
unfolding run
run-cli me inner rest m m1 c e1 e2 = rw (e1, e2) refl

run-locked :
    (me l : ℕ) (inner rest : Calls) (m m2 : Machine) (c1 c3 : Cpu) (lk1 lk3 : SpinLock)
    → acquire me m.cpu (m.locks l) ≡ got c1 lk1
    → run me inner (record { cpu = c1; locks = update m.locks l lk1 }) ≡ some m2
    → release me m2.cpu (m2.locks l) ≡ some (c3, lk3)
    → run me (locked_part l inner rest) m
      ≡ run me rest (record { cpu = c3; locks = update m2.locks l lk3 })
unfolding run
run-locked me l inner rest m m2 c1 c3 lk1 lk3 e1 e2 e3 = rw (e1, e2, e3) refl

-- With interrupts off while a `pushcli` is open, and the locks free that are not `taken`: any calls
-- on one processor in which each `pushcli` is matched by a `popcli`, each `acquire` by a `release`,
-- and no lock is acquired under itself, run to their end, without a panic and without a wait, and
-- leave the interrupt flag, the depth of `pushcli` and the locks as they were.
pub run-Restores :
    (me : ℕ) (calls : Calls) (taken : ℕ → Bool) (m : Machine)
    → Nests taken calls
    → Ready taken m
    → Restores m (run me calls m)
unfolding run Nests
run-Restores me done taken m nests ready = (m, refl, refl, refl, λ h. refl, λ l. refl)
run-Restores me (cli_part inner rest) taken m nests (off, free) =
    let m0 : Machine = record m { cpu = pushcli m.cpu } in
    let (m1, e1, i1, n1, c1, l1) =
      run-Restores me inner taken m0 nests.0 (λ h. pushcli_iflag m.cpu, free) in
    let same = c1 (pushcli_ncli m.cpu) in
    let m2 : Machine = record m1 { cpu = restored m.cpu } in
    let popped_lem = ap popcli same ∙ popcli-pushcli m.cpu off in
    let after = run-Restores me rest taken m2 nests.1 (off, λ l h. l1 l ∙ free l h) in
    subst (Restores m) (sym (run-cli me inner rest m m1 (restored m.cpu) e1 popped_lem))
      (Restores-then m m2 (run me rest m2) refl refl (restored-ncli m.cpu) l1 after)
run-Restores me (locked_part l inner rest) taken m nests (off, free) =
    let lk : SpinLock = locked_by me in
    let m1 : Machine = record { cpu = pushcli m.cpu; locks = update m.locks l lk } in
    let was : m.locks l ≡ unlocked = free l nests.0 in
    let got_lem : acquire me m.cpu (m.locks l) ≡ got (pushcli m.cpu) lk =
      ap (acquire me m.cpu) was ∙ acquire_lem me m.cpu in
    let (m2, e2, i2, n2, c2, l2) =
      run-Restores me inner (update taken l true) m1 nests.1
        (inner-Ready me l taken m (off, free)) in
    let same : m2.cpu ≡ pushcli m.cpu = c2 (pushcli_ncli m.cpu) in
    let mine : m2.locks l ≡ lk = l2 l ∙ update_self m.locks l lk in
    let released_lem : release me m2.cpu (m2.locks l) ≡ some (restored m.cpu, unlocked) =
      ap (λ c. release me c (m2.locks l)) same
      ∙ ap (release me (pushcli m.cpu)) mine
      ∙ release_lem me m.cpu off in
    let m3 : Machine = record { cpu = restored m.cpu; locks = update m2.locks l unlocked } in
    let locks3 : (j : ℕ) → m3.locks j ≡ m.locks j = λ j. ground (arith, was, l2 j) in
    let after = run-Restores me rest taken m3 nests.2 (off, λ j h. locks3 j ∙ free j h) in
    subst (Restores m)
      (sym (
        run-locked me l inner rest m m2 (pushcli m.cpu) (restored m.cpu) lk unlocked got_lem e2
          released_lem))
      (Restores-then m m3 (run me rest m3) refl refl (restored-ncli m.cpu) locks3 after)
