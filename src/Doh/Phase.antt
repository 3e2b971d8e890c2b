-- ===== src/Doh/Phase.antt =====
-- The retry state of a DoH upstream (cmd/guarddns/dohbridge.go) goes through the same phases as the
-- circuit breaker, with a threshold of two and delays from one second to five minutes.
use guard_dns.Prelude.{
  ℕ, ◌+◌, ◌-◌, ◌*◌, ◌^◌, ◌<◌, min, ◌≡◌, refl, Bool, false, arith, ◌==◌, if◌then◌else◌, two_64,
  second,
}
use guard_dns.Backoff.{jitter_delay, doh_maximum, jitter_doh_backoff}
use guard_dns.Backoff.Agree.{jitter_doh_backoff-eq}
use guard_dns.Backoff.Bounds.{exponential_delay-min}
use guard_dns.Circuit.Phase.{Phase, closed, waiting, half_open, admit_at, failed_at}
use guard_dns.Doh.{DohPermit, Retry, doh_failure_threshold, acquire, fail, succeed}
use guard_dns.Doh.Invariant.{IsValidRetry}

abbrev pub retry_phase : Retry → Phase
retry_phase u =
    if u.backoff_step == 0
    then closed u.failures
    else if u.probing
    then half_open u.backoff_step
    else waiting u.backoff_step u.retry_at

-- The delay before the retry number `k`.
abbrev pub retry_delay : (ℕ → ℕ) → ℕ → ℕ
retry_delay draw k = jitter_delay draw (min (second * 2 ^ (k - 1)) doh_maximum) doh_maximum

-- A closed upstream counts every failure, also that of a probe whose phase has passed: the flag of
-- the permit is read in the other phases only.
abbrev pub counted_flag : Phase → Bool → Bool
counted_flag (closed n) probe = false
counted_flag _ probe = probe

backoff_delay : (draw : ℕ → ℕ) (k : ℕ) → jitter_doh_backoff draw k ≡ retry_delay draw k
backoff_delay draw k = rw (
  jitter_doh_backoff-eq,
  exponential_delay-min second doh_maximum k (omega arith) (omega arith) (omega arith),
)

-- `fail` moves a valid upstream as the breaker's phases say, with the threshold two, the delay of
-- the step that it reaches, and a permit's flag that a closed upstream does not read.
pub fail-retry_phase :
    (draw : ℕ → ℕ) (now : ℕ) (p : DohPermit) (u : Retry)
    → IsValidRetry u
    → u.backoff_step + 1 < two_64
    → retry_phase (fail draw now p u)
      ≡ failed_at doh_failure_threshold
          (retry_delay draw)
          now
          (counted_flag (retry_phase u) p.probe)
          (retry_phase u)
unfolding fail
fail-retry_phase draw now p u v h =
    ground (arith, backoff_delay draw 1, backoff_delay draw (u.backoff_step + 1))

-- `acquire` admits, refuses and probes as the breaker's phases say.
pub acquire-retry_phase :
    (now : ℕ) (u : Retry)
    → let (ph, permit, allowed) = admit_at now (retry_phase u) in
      (retry_phase (acquire now u).0 ≡ ph)
      × ((acquire now u).1.probe ≡ permit.probe)
      × ((acquire now u).2 ≡ allowed)
unfolding acquire
acquire-retry_phase now u = ground arith

-- `succeed` closes the upstream from every phase.
pub succeed-retry_phase : (u : Retry) → retry_phase (succeed u) ≡ closed 0
unfolding succeed
succeed-retry_phase u = refl
