-- ===== src/Backoff/Agree.antt =====
-- `jitterDoHBackoff` and `restartDelay` are written out again in their files; both compute what
-- `jitterDelay` makes of `exponentialDelay`, each with constants of its own.
use guard_dns.Prelude.{
  ℕ, zero, suc, ◌+◌, ◌-◌, ◌*◌, ◌/◌, ◌≤◌, if◌then◌else◌, ltb_i64, two_62, ◌≡◌, refl, arith, wrap64,
  second,
}
use guard_dns.Backoff.{
  exponential_loop, exponential_delay, jitter_delay, doh_maximum, doh_loop, jitter_doh_backoff,
  restart_initial, restart_maximum, restart_loop, restart_delay,
}
use guard_dns.Backoff.Bounds.{exponential_delay_bounds}

doh_loop-eq : (k delay : ℕ) → doh_loop k delay ≡ exponential_loop k doh_maximum delay
unfolding doh_loop exponential_loop
doh_loop-eq zero delay = refl
doh_loop-eq (suc k) delay = ground (arith, doh_loop-eq k (wrap64 (delay * 2)))

restart_loop-eq : (k delay : ℕ) → restart_loop k delay ≡ exponential_loop k restart_maximum delay
unfolding restart_loop exponential_loop
restart_loop-eq zero delay = refl
restart_loop-eq (suc k) delay = ground (arith, restart_loop-eq k (wrap64 (delay * 2)))

-- Where a fifth of the nominal delay is at least 1 ns, `jitterDelay` takes neither early return.
jitter_delay-large :
    (draw : ℕ → ℕ) (nominal maximum : ℕ)
    → 5 ≤ nominal
    → nominal ≤ two_62
    → jitter_delay draw nominal maximum ≡ (
        let delay = wrap64 (nominal - nominal / 5 + draw (2 * (nominal / 5) + 1)) in
        if ltb_i64 maximum delay then maximum else delay)
unfolding jitter_delay
jitter_delay-large draw nominal maximum h b = ground arith

doh_nominal : (step : ℕ) → doh_loop (step - 1) second ≡ exponential_delay second doh_maximum step
unfolding exponential_delay
doh_nominal step = doh_loop-eq (step - 1) second

restart_nominal :
    (step : ℕ)
    → restart_loop (step - 1) restart_initial
      ≡ exponential_delay restart_initial restart_maximum step
unfolding exponential_delay
restart_nominal step = restart_loop-eq (step - 1) restart_initial

doh_nominal_bounds :
    (step : ℕ) → let d = exponential_delay second doh_maximum step in (5 ≤ d) × (d ≤ two_62)
doh_nominal_bounds step =
    let b =
      exponential_delay_bounds second doh_maximum step (omega arith) (omega arith) (omega arith) in
    omega arith

restart_nominal_bounds :
    (step : ℕ)
    → let d = exponential_delay restart_initial restart_maximum step in (5 ≤ d) × (d ≤ two_62)
restart_nominal_bounds step =
    let b =
      exponential_delay_bounds restart_initial restart_maximum step (omega arith) (omega arith)
        (omega arith) in
    omega arith

-- The delay of a DoH upstream is the jittered exponential delay from one second up to five minutes.
pub jitter_doh_backoff-eq :
    (draw : ℕ → ℕ) (step : ℕ)
    → jitter_doh_backoff draw step
      ≡ jitter_delay draw (exponential_delay second doh_maximum step) doh_maximum
unfolding jitter_doh_backoff
jitter_doh_backoff-eq draw step =
    let (lo, hi) = doh_nominal_bounds step in
    rw (doh_nominal step, jitter_delay-large draw _ doh_maximum lo hi)

-- The delay of a child process is the jittered exponential delay from one second up to thirty.
pub restart_delay-eq :
    (draw : ℕ → ℕ) (step : ℕ)
    → restart_delay draw step
      ≡ jitter_delay draw (exponential_delay restart_initial restart_maximum step) restart_maximum
unfolding restart_delay
restart_delay-eq draw step =
    let (lo, hi) = restart_nominal_bounds step in
    rw (restart_nominal step, jitter_delay-large draw _ restart_maximum lo hi)
