-- ===== src/Child/Tests.antt =====
-- A child process at work: it crashes and is started again, while another child comes up.
use guard_dns.Prelude.{ℕ, ◌+◌, ◌≡◌, refl, false, List, [], ◌∷◌, arith, lookup, wrap64}
use guard_dns.State.{RuntimeState, new_runtime_state}
use guard_dns.State.Counts.{updating}
use guard_dns.Child.{
  Child, waiting, started, failed, exited, up_now, Turn, own, other, supervise_child, new_child,
  take_turn, advance, schedule,
}
use guard_dns.Child.Shown.{shown, is_running, shows_running}
use guard_dns.Child.Restarts.{Round, unstarted, crashed, all_turns, Stands, rounds-Stands}

abbrev lowest : ℕ → ℕ
lowest n = 0

abbrev crash_and_wait : List Turn
crash_and_wait =
    own started
    ∷ other (updating "unbound" up_now)
    ∷ own (failed 3 lowest)
    ∷ own (exited false 5 lowest)
    ∷ []

abbrev after_crash : Child × RuntimeState
after_crash = supervise_child "mosdns" crash_and_wait (new_child, new_runtime_state)

waits : after_crash.0 ≡ record { phase = waiting; step = 1 }
unfolding take_turn advance schedule
waits = refl

not_up : (shown "mosdns" new_runtime_state).up ≡ false
unfolding new_runtime_state lookup
not_up = refl

shows_running_example : (shown "mosdns" after_crash.1).up ≡ is_running after_crash.0.phase
shows_running_example =
    shows_running "mosdns" crash_and_wait new_runtime_state (tt, (refl, (tt, (tt, tt)))) not_up

abbrev two_rounds : List Round
two_rounds = unstarted 4 lowest ∷ crashed 7 lowest ∷ []

no_restarts : (shown "mosdns" new_runtime_state).restarts ≡ 0
unfolding new_runtime_state lookup
no_restarts = refl

rounds-Stands_example :
    Stands "mosdns" 2
      (wrap64 ((shown "mosdns" new_runtime_state).restarts + 2))
      (supervise_child "mosdns" (all_turns two_rounds) (new_child, new_runtime_state))
rounds-Stands_example =
    rounds-Stands "mosdns" two_rounds 0 new_runtime_state (refl, (refl, tt)) (omega arith)
      (omega (arith, no_restarts))
