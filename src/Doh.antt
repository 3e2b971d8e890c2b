-- ===== src/Doh.antt =====
-- The encrypted DNS bridge, cmd/guarddns/dohbridge.go: here one upstream's retry state and the three
-- methods that change it under its mutex. The other parts stand in the modules below.
pub mod Lifecycle
pub mod Cache
pub mod Exchange
pub mod Upstreams
pub mod Bridge
pub mod Invariant
pub mod Phase
pub mod Requests
pub mod Dialing
pub mod Failover
pub mod Exhausted
pub mod Service
pub mod Tests
use guard_dns.Prelude.{
  ℕ, ◌+◌, Bool, true, false, not, ◌&&◌, ◌||◌, String, ltb, ◌==◌, if◌then◌else◌, wrap64, add_time,
}
use guard_dns.Backoff.{jitter_doh_backoff}

pub record DohPermit : Type 0 where
  pub probe : Bool

-- The fields that requests change. The others are fixed when an upstream is built: see `Upstreams`.
pub record Retry : Type 0 where
  pub backoff_step : ℕ  -- uint
  pub failures : ℕ  -- uint
  pub retry_at : ℕ  -- time.Time
  pub probing : Bool

abbrev pub doh_failure_threshold : ℕ
doh_failure_threshold = 2

abbrev pub fresh_retry : Retry
fresh_retry = record { backoff_step = 0; failures = 0; retry_at = 0; probing = false }

unfoldable pub acquire : ℕ → Retry → Retry × DohPermit × Bool
acquire now u =
    if u.backoff_step == 0
    then (u, record { probe = false }, true)
    else if ltb now u.retry_at || u.probing
    then (u, record { probe = false }, false)
    else (record u { probing = true }, record { probe = true }, true)

-- The tail of `fail`, at the step that is reached.
park : (ℕ → ℕ) → ℕ → ℕ → Retry → Retry
park draw now step u = record u {
  backoff_step = step;
  probing = false;
  retry_at = add_time now (jitter_doh_backoff draw step);
}

unfoldable pub fail : (ℕ → ℕ) → ℕ → DohPermit → Retry → Retry
unfolding park
fail draw now permit u =
    let counted = record u { failures = wrap64 (u.failures + 1) } in
    if u.backoff_step == 0
    then (if ltb counted.failures doh_failure_threshold then counted else park draw now 1 counted)
    else if permit.probe && u.probing
    then park draw now (wrap64 (u.backoff_step + 1)) u
    else u

unfoldable pub succeed : Retry → Retry
succeed u = record u { backoff_step = 0; failures = 0; retry_at = 0; probing = false }
