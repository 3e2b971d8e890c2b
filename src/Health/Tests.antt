-- ===== src/Health/Tests.antt =====
-- The health check on the state of a running supervisor.
use guard_dns.Prelude.{ℕ, ◌+◌, ◌*◌, ◌≡◌, refl, ◌↔◌, true, some, List, [], ◌∷◌, second, arith}
use guard_dns.Dns.{Msg, type_a, rcode_success}
use guard_dns.State.{new_runtime_state, RuntimeState, snapshot}
use guard_dns.State.Counts.{Change, updating, changed_by}
use guard_dns.Supervisor.{Plugin}
use guard_dns.Supervisor.Ready.{IsUp}
use guard_dns.Health.{answered, received, healthy, run_healthcheck}
use guard_dns.Health.Reflects.{answer, IsAnswered, healthcheck_reflects_state}

abbrev noon : ℕ
noon = 63800000000 * second

abbrev changes : List Change
changes =
    updating "mosdns" (λ c. record c { up = true })
    ∷ updating "doh_bridge" (λ c. record c { up = true })
    ∷ []

abbrev state : RuntimeState
state = changed_by new_runtime_state changes

abbrev blank : Plugin
blank = record {
  snapshot = record { timestamp = 0; components = []; doh_upstreams = [] };
  received_at = 0;
}

abbrev reply_with_address : Msg
reply_with_address = record {
  id = 7;
  response = true;
  question = 1 ∷ [];
  rcode = rcode_success;
  answer = record { rrtype = type_a; payload = 0x7F000001 } ∷ [];
}

healthcheck_reflects_state_example :
    (run_healthcheck
        (answered
          (answer (λ bytes. some (snapshot noon state)) noon (noon + second) blank [] [])
          true)
        (received (some reply_with_address))
      ≡ healthy)
    ↔ ((IsUp "mosdns" state × IsUp "doh_bridge" state)
        × IsAnswered (received (some reply_with_address)))
healthcheck_reflects_state_example =
    healthcheck_reflects_state (λ bytes. some (snapshot noon state)) noon noon (noon + second)
      changes blank [] [] (received (some reply_with_address)) refl ((λ c. refl), ((λ c. refl), tt))
      tt (omega arith) (omega arith) (omega arith)
