-- ===== src/Spin/Tests.antt =====
-- Locks 3 and 5, one under the other, and the instance of the theorem.
use cs537_sp2021_dis.Base.{◌≡◌, refl, true, false, arith}
use cs537_sp2021_dis.Spin.{pushcli, popcli, holding, panics, spins, acquire}
use cs537_sp2021_dis.Spin.Nesting.{
  Machine, Calls, done, cli_part, locked_part, run, Nests, Restores, run-Restores, unlocked,
  locked_by,
}

abbrev idle : Machine
idle = record { cpu = record { iflag = true; ncli = 0; intena = false }; locks = λ l. unlocked }

abbrev two_locks : Calls
two_locks = locked_part 3 (cli_part (locked_part 5 done done) done) done

two_locks-Nests : Nests (λ l. false) two_locks
unfolding Nests
two_locks-Nests = (refl, ((refl, tt, tt), tt), tt)

run-Restores_example : Restores idle (run 0 two_locks idle)
run-Restores_example =
    run-Restores 0 two_locks (λ l. false) idle two_locks-Nests
      (λ h. absurd (omega (arith, h)), λ l h. refl)

-- A lock that is acquired under itself panics; one that another processor holds is waited for.
acquires_twice : acquire 0 (record idle.cpu { iflag = false; ncli = 1 }) (locked_by 0) ≡ panics
unfolding acquire holding pushcli popcli
acquires_twice = refl

waits_for_other :
    acquire 0 idle.cpu (locked_by 1) ≡ spins (record { iflag = false; ncli = 1; intena = true })
unfolding acquire holding pushcli popcli
waits_for_other = refl
