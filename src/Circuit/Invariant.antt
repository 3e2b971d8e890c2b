-- ===== src/Circuit/Invariant.antt =====
-- What holds of a circuit between two calls of its methods.
use guard_dns.Prelude.{
  ℕ, ◌+◌, ◌≤◌, ◌<◌, ◌≡◌, ◌≢◌, Bool, false, arith, ◌==◌, if◌then◌else◌, two_62, two_63, two_64,
}
use guard_dns.Circuit.{Permit, Circuit, acquire, succeed, fail}

-- The settings that `initPlugin` leaves, for an initial delay of at most 5 minutes.
pub record IsConfigured (c : Circuit) : Type 0 where
  pub threshold_pos : 0 < c.failure_threshold
  pub threshold_int : c.failure_threshold < two_63
  pub initial_pos : 0 < c.initial_backoff
  pub initial-le-max : c.initial_backoff ≤ c.max_backoff
  pub max_small : c.max_backoff ≤ two_62

abbrev gauge_of : ℕ → Bool → ℕ
gauge_of step probing = if step == 0 then 0 else if probing then 2 else 1

pub record IsValid (c : Circuit) : Type 0 where
  pub configured : IsConfigured c
  pub step_uint : c.backoff_step < two_64
  pub below_threshold : c.backoff_step ≡ 0 → c.consecutive_failures < c.failure_threshold
  pub at_threshold : c.backoff_step ≢ 0 → c.consecutive_failures ≡ c.failure_threshold
  pub closed_cleared : c.backoff_step ≡ 0 → c.retry_at ≡ 0
  pub closed_no_probe : c.backoff_step ≡ 0 → c.probing ≡ false
  pub gauge_exact : c.state_gauge ≡ gauge_of c.backoff_step c.probing

-- `acquire` keeps the invariant.
pub acquire-IsValid : (now : ℕ) (c : Circuit) → IsValid c → IsValid (acquire now c).0
unfolding acquire
acquire-IsValid now c v = ground arith

-- `succeed` keeps it.
pub succeed-IsValid : (c : Circuit) → IsValid c → IsValid (succeed c)
unfolding succeed
succeed-IsValid c v = ground arith

-- `fail` keeps it, as long as the step can still be counted in 64 bits.
pub fail-IsValid :
    (jitter : ℕ → ℕ → ℕ) (now : ℕ) (p : Permit) (c : Circuit)
    → IsValid c
    → c.backoff_step + 1 < two_64
    → IsValid (fail jitter now p c)
unfolding fail
fail-IsValid jitter now p c v h = ground arith
