-- ===== src/Circuit.antt =====
-- The circuit breaker of internal/circuitplugin/circuit.go: its state, and the three methods that
-- change it under its mutex. The four Prometheus metrics are fields of the state; the gauge of the
-- delay is kept in nanoseconds. The name and the logger are left out. `now` is the reading of the
-- clock in a method, and `jitter` the function behind the field of that name.
pub mod Plugin
pub mod Invariant
pub mod Phase
pub mod Trace
pub mod Probe
pub mod Exec
pub mod Outcome
pub mod Setup
pub mod Abandoned
pub mod Tests
use guard_dns.Prelude.{
  ℕ, ◌+◌, Bool, true, false, not, ◌||◌, ltb, ◌==◌, if◌then◌else◌, wrap64, ltb_i64, add_time,
}
use guard_dns.Backoff.{exponential_delay}

pub record Permit : Type 0 where
  pub probe : Bool

pub record Circuit : Type 0 where
  pub consecutive_failures : ℕ  -- int
  pub backoff_step : ℕ  -- uint
  pub retry_at : ℕ  -- time.Time
  pub probing : Bool
  pub failure_threshold : ℕ  -- int
  pub initial_backoff : ℕ  -- time.Duration
  pub max_backoff : ℕ  -- time.Duration
  pub state_gauge : ℕ
  pub backoff_gauge : ℕ
  pub failure_counter : ℕ
  pub bypass_counter : ℕ

unfoldable pub acquire : ℕ → Circuit → Circuit × Permit × Bool
acquire now c =
    if c.backoff_step == 0
    then (c, record { probe = false }, true)
    else if ltb now c.retry_at || c.probing
    then (record c { bypass_counter = c.bypass_counter + 1 }, record { probe = false }, false)
    else (
      record c { probing = true; state_gauge = 2; backoff_gauge = 0 },
      record { probe = true },
      true,
    )

unfoldable pub succeed : Circuit → Circuit
succeed c = record c {
  consecutive_failures = 0;
  backoff_step = 0;
  retry_at = 0;
  probing = false;
  state_gauge = 0;
  backoff_gauge = 0;
}

-- The tail of `fail`: the circuit opens, or stays open, at the given step.
open_at : (ℕ → ℕ → ℕ) → ℕ → ℕ → Circuit → Circuit
open_at jitter now step c =
    let nominal = exponential_delay c.initial_backoff c.max_backoff step in
    let delay = jitter nominal c.max_backoff in
    record c {
      backoff_step = step;
      probing = false;
      retry_at = add_time now delay;
      state_gauge = 1;
      backoff_gauge = delay;
    }

unfoldable pub fail : (ℕ → ℕ → ℕ) → ℕ → Permit → Circuit → Circuit
unfolding open_at
fail jitter now p c =
    let counted = record c { failure_counter = c.failure_counter + 1 } in
    let failures = wrap64 (c.consecutive_failures + 1) in
    let failed = record counted { consecutive_failures = failures } in
    if c.backoff_step == 0
    then (if p.probe
        then counted
        else if ltb_i64 failures c.failure_threshold
        then failed
        else open_at jitter now 1 failed)
    else if not p.probe || not c.probing
    then counted
    else open_at jitter now (wrap64 (c.backoff_step + 1)) counted
