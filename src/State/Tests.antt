-- ===== src/State/Tests.antt =====
-- The supervisor's state after a few changes.
use guard_dns.Prelude.{
  ℕ, ◌+◌, ◌*◌, ◌≡◌, refl, true, some, List, [], ◌∷◌, All, lookup, insert, second,
}
use guard_dns.Wire.{Component}
use guard_dns.State.{
  new_runtime_state, doh_success, doh_failure, update, observe_doh_upstream, register_doh_upstream,
  zero_upstream,
}
use guard_dns.State.Counts.{
  Change, updating, registering, observing, changed_by, AllAddUp, reachable-AllAddUp,
}
use guard_dns.State.Frame.{KeepsEnabled}

abbrev noon : ℕ
noon = 63800000000 * second

abbrev mark_up : Component → Component
mark_up c = record c { up = true }

abbrev changes : List Change
changes =
    registering "cloudflare"
    ∷ updating "mosdns" mark_up
    ∷ observing "cloudflare" doh_success 2500000 0 noon
    ∷ observing "cloudflare" doh_failure 1000 (noon + second) noon
    ∷ []

two_observed :
    lookup "cloudflare" (changed_by new_runtime_state changes).doh_upstreams
    ≡ some (record zero_upstream {
      requests = 2;
      successes = 1;
      failures = 1;
      duration_microseconds = 2501;
      retry_at_unix_milli = 1664403201000;
      last_success_unix = 1664403200;
      last_failure_unix = 1664403200;
    })
unfolding changed_by new_runtime_state update register_doh_upstream observe_doh_upstream lookup
    insert
two_observed = refl

reachable-AllAddUp_example : AllAddUp (changed_by new_runtime_state changes)
reachable-AllAddUp_example = reachable-AllAddUp changes

changes-KeepsEnabled : All KeepsEnabled changes
changes-KeepsEnabled = (tt, ((λ c. refl), (tt, (tt, tt))))
