-- ===== src/State.antt =====
-- The supervisor's shared state, cmd/guarddns/state.go. Every method holds the mutex, so each is one
-- step on the two maps; `now` is the reading of the clock.
pub mod Counts
pub mod Frame
pub mod Tests
use guard_dns.Prelude.{
  ℕ, ◌+◌, ◌-◌, ◌*◌, ◌/◌, Bool, true, false, Option, none, some, [], ◌∷◌, String, if◌then◌else◌,
  ltb_i64, wrap64, ◌==◌, Dict, lookup, insert, get_or_zero, second, millisecond,
}
use guard_dns.Wire.{Component, DohUpstream, Snapshot}

pub record RuntimeState : Type 0 where
  pub components : Dict Component
  pub doh_upstreams : Dict DohUpstream

abbrev pub zero_component : Component
zero_component = record { enabled = false; up = false; restarts = 0; backoff = 0 }

abbrev pub zero_upstream : DohUpstream
zero_upstream = record {
  requests = 0;
  successes = 0;
  failures = 0;
  backoff_skips = 0;
  duration_microseconds = 0;
  retry_at_unix_milli = 0;
  last_success_unix = 0;
  last_failure_unix = 0;
}

abbrev pub enabled_component : Component
enabled_component = record zero_component { enabled = true }

unfoldable pub new_runtime_state : RuntimeState
new_runtime_state = record {
  components =
      ("doh_bridge", enabled_component)
      ∷ ("mosdns", enabled_component)
      ∷ ("unbound", enabled_component)
      ∷ ("unbound_recursive", enabled_component)
      ∷ [];
  doh_upstreams = [];
}

unfoldable pub update : String → (Component → Component) → RuntimeState → RuntimeState
update name fn s =
    let component = get_or_zero zero_component (lookup name s.components) in
    record s { components = insert name (fn component) s.components }

pub data DohObservation : Type 0 where
  doh_success doh_failure doh_backoff_skip : DohObservation

-- An entry that is there already stays as it is.
abbrev pub register_missing : String → Option DohUpstream → RuntimeState → RuntimeState
register_missing name none s = record s {
  doh_upstreams = insert name zero_upstream s.doh_upstreams;
}
register_missing name (some _) s = s

unfoldable pub register_doh_upstream : String → RuntimeState → RuntimeState
register_doh_upstream name s = register_missing name (lookup name s.doh_upstreams) s

-- Go's zero time is 62135596800 s before the Unix epoch; `Unix` and `UnixMilli` round down.
abbrev pub unix_epoch : ℕ
unix_epoch = 62135596800 * second

abbrev pub unix_seconds : ℕ → ℕ
unix_seconds t = (t - unix_epoch) / second

abbrev pub unix_milli : ℕ → ℕ
unix_milli t = (t - unix_epoch) / millisecond

-- The `switch` on the observation.
unfoldable pub tally : DohObservation → ℕ → DohUpstream → DohUpstream
tally doh_success now u = record u {
  successes = wrap64 (u.successes + 1);
  last_success_unix = unix_seconds now;
}
tally doh_failure now u = record u {
  failures = wrap64 (u.failures + 1);
  last_failure_unix = unix_seconds now;
}
tally doh_backoff_skip now u = record u { backoff_skips = wrap64 (u.backoff_skips + 1) }

-- What one observation makes of an upstream's counters.
unfoldable pub observed : DohObservation → (duration retry_at now : ℕ) → DohUpstream → DohUpstream
unfolding tally
observed result duration retry_at now u =
    let micros = if ltb_i64 0 duration then duration / 1000 else 0 in
    let counted = record u {
      requests = wrap64 (u.requests + 1);
      duration_microseconds = wrap64 (u.duration_microseconds + micros);
    } in
    let t = tally result now counted in
    record t { retry_at_unix_milli = if retry_at == 0 then 0 else unix_milli retry_at }

unfoldable pub observe_doh_upstream :
    String → DohObservation → (duration retry_at now : ℕ) → RuntimeState → RuntimeState
unfolding observed
observe_doh_upstream name result duration retry_at now s =
    let upstream = get_or_zero zero_upstream (lookup name s.doh_upstreams) in
    record s {
      doh_upstreams = insert name (observed result duration retry_at now upstream) s.doh_upstreams;
    }

-- `snapshot` copies both maps; values need no copy here.
unfoldable pub snapshot : ℕ → RuntimeState → Snapshot
snapshot now s = record {
  timestamp = unix_seconds now;
  components = s.components;
  doh_upstreams = s.doh_upstreams;
}
