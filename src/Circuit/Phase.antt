-- ===== src/Circuit/Phase.antt =====
-- What the breaker of internal/circuitplugin/circuit.go promises: three phases, of which each keeps
-- only what it needs, and the moves between them. The methods implement these moves.
use guard_dns.Prelude.{
  ℕ, ◌+◌, ◌-◌, ◌*◌, ◌^◌, ◌<◌, min, ◌≡◌, refl, Bool, true, false, arith, ltb, ◌==◌, if◌then◌else◌,
  two_64, add_time,
}
use guard_dns.Backoff.Bounds.{exponential_delay-min}
use guard_dns.Circuit.{Permit, Circuit, acquire, succeed, fail}
use guard_dns.Circuit.Invariant.{IsValid}

pub data Phase : Type 0 where
  -- Queries pass; so many have failed in a row.
  closed : ℕ → Phase
  -- Queries are refused until a time, after so many openings.
  waiting : ℕ → ℕ → Phase
  -- One query is out to try the upstream; all others are refused.
  half_open : ℕ → Phase

abbrev pub phase : Circuit → Phase
phase c =
    if c.backoff_step == 0
    then closed c.consecutive_failures
    else if c.probing
    then half_open c.backoff_step
    else waiting c.backoff_step c.retry_at

abbrev pub normal : Permit
normal = record { probe = false }

abbrev pub admit_at : ℕ → Phase → Phase × Permit × Bool
admit_at now (closed n) = (closed n, normal, true)
admit_at now (waiting k t) =
    if ltb now t then (waiting k t, normal, false) else (half_open k, record { probe = true }, true)
admit_at now (half_open k) = (half_open k, normal, false)

-- The delay before the retry number `k`: doubled each time up to the maximum, then jittered.
abbrev pub retry_delay : (ℕ → ℕ → ℕ) → Circuit → ℕ → ℕ
retry_delay jitter c k = jitter (min (c.initial_backoff * 2 ^ (k - 1)) c.max_backoff) c.max_backoff

abbrev pub failed_at : (threshold : ℕ) (delay : ℕ → ℕ) (now : ℕ) → Bool → Phase → Phase
failed_at threshold delay now false (closed n) =
    if ltb (n + 1) threshold then closed (n + 1) else waiting 1 (add_time now (delay 1))
failed_at threshold delay now true (half_open k) = waiting (k + 1) (add_time now (delay (k + 1)))
failed_at threshold delay now _ ph = ph

-- `acquire` admits, refuses and probes as its phase says.
pub acquire-phase :
    (now : ℕ) (c : Circuit)
    → (phase (acquire now c).0, (acquire now c).1, (acquire now c).2) ≡ admit_at now (phase c)
unfolding acquire
acquire-phase now c = ground arith

-- `fail` moves a valid circuit as its phase says, with the delay of the step that it reaches.
pub fail-phase :
    (jitter : ℕ → ℕ → ℕ) (now : ℕ) (p : Permit) (c : Circuit)
    → IsValid c
    → c.backoff_step + 1 < two_64
    → phase (fail jitter now p c)
      ≡ failed_at c.failure_threshold (retry_delay jitter c) now p.probe (phase c)
unfolding fail
fail-phase jitter now p c v h = ground (
  arith,
  exponential_delay-min c.initial_backoff c.max_backoff 1,
  exponential_delay-min c.initial_backoff c.max_backoff (c.backoff_step + 1),
)

-- `succeed` closes the circuit from every phase.
pub succeed-phase : (c : Circuit) → phase (succeed c) ≡ closed 0
unfolding succeed
succeed-phase c = refl
