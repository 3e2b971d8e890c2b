-- ===== src/Supervisor/Tests.antt =====
-- The health endpoints on the state of a running supervisor.
use guard_dns.Prelude.{ℕ, ◌+◌, ◌-◌, ◌≤◌, ◌<◌, millisecond, ◌*◌, true, List, [], ◌∷◌, second, arith}
use guard_dns.Wire.{DohUpstream}
use guard_dns.State.{observed, doh_failure, new_runtime_state, RuntimeState}
use guard_dns.State.Counts.{Change, updating, changed_by}
use guard_dns.Supervisor.{Plugin}
use guard_dns.Supervisor.Metrics.{collect, remaining_backoff}
use guard_dns.Supervisor.Scrape.{Sends, collect-Sends, remaining_backoff-bounds}

abbrev noon : ℕ
noon = 63800000000 * second

abbrev changes : List Change
changes =
    updating "mosdns" (λ c. record c { up = true })
    ∷ updating "doh_bridge" (λ c. record c { up = true })
    ∷ []

abbrev state : RuntimeState
state = changed_by new_runtime_state changes

abbrev blank : Plugin
blank = record {
  snapshot = record { timestamp = 0; components = []; doh_upstreams = [] };
  received_at = 0;
}

collect-Sends_example : Sends 1 (collect noon blank)
collect-Sends_example = collect-Sends noon blank

abbrev waiting : DohUpstream
waiting = observed doh_failure 5 (noon + 90 * second) noon (record {
  requests = 0;
  successes = 0;
  failures = 0;
  backoff_skips = 0;
  duration_microseconds = 0;
  retry_at_unix_milli = 0;
  last_success_unix = 0;
  last_failure_unix = 0;
})

remaining_backoff-bounds_example :
    (remaining_backoff waiting (noon + second) ≤ noon + 90 * second - (noon + second))
    × (noon + 90 * second - (noon + second)
        < remaining_backoff waiting (noon + second) + millisecond)
remaining_backoff-bounds_example =
    remaining_backoff-bounds doh_failure 5 (noon + 90 * second) noon (noon + second) _ (omega arith)
      (omega arith) (omega arith) (omega arith)
