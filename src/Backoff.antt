-- ===== src/Backoff.antt =====
-- The three retry delays: `exponentialDelay` and `jitterDelay` of internal/circuitplugin/circuit.go,
-- `jitterDoHBackoff` of cmd/guarddns/dohbridge.go and `restartDelay` of cmd/guarddns/process.go.
-- `draw` stands for `rand.Int63n`, whose result lies below its argument.
pub mod Bounds
pub mod Agree
pub mod Tests
use guard_dns.Prelude.{
  ℕ, zero, suc, ◌+◌, ◌-◌, ◌*◌, ◌/◌, true, false, ltb, leb, ◌==◌, if◌then◌else◌, wrap64, ltb_i64,
  leb_i64, second, minute,
}

-- The loop of `exponentialDelay`, on the rounds that are left.
exponential_loop : ℕ → ℕ → ℕ → ℕ
exponential_loop zero maximum delay = delay
exponential_loop (suc rounds) maximum delay =
    let doubled = wrap64 (delay * 2) in
    elim (ltb_i64 delay maximum) [
      | false ↦ delay
      | true ↦ elim (leb_i64 maximum doubled) [
        | true ↦ maximum
        | false ↦ exponential_loop rounds maximum doubled
      ]
    ]

unfoldable pub exponential_delay : ℕ → ℕ → ℕ → ℕ
unfolding exponential_loop
exponential_delay initial maximum step = exponential_loop (step - 1) maximum initial

unfoldable pub jitter_delay : (ℕ → ℕ) → ℕ → ℕ → ℕ
jitter_delay draw nominal maximum =
    let spread = nominal / 5 in
    let delay = wrap64 (nominal - spread + draw (2 * spread + 1)) in
    if leb_i64 nominal 0
    then 0
    else if spread == 0
    then nominal
    else if ltb_i64 maximum delay
    then maximum
    else delay

abbrev pub doh_maximum : ℕ
doh_maximum = 5 * minute

-- The loop of `jitterDoHBackoff`.
doh_loop : ℕ → ℕ → ℕ
doh_loop zero delay = delay
doh_loop (suc rounds) delay =
    let doubled = wrap64 (delay * 2) in
    elim (ltb_i64 delay doh_maximum) [
      | false ↦ delay
      | true ↦ elim (leb_i64 doh_maximum doubled) [
        | true ↦ doh_maximum
        | false ↦ doh_loop rounds doubled
      ]
    ]

unfoldable pub jitter_doh_backoff : (ℕ → ℕ) → ℕ → ℕ
unfolding doh_loop
jitter_doh_backoff draw step =
    let delay = doh_loop (step - 1) second in
    let spread = delay / 5 in
    let jittered = wrap64 (delay - spread + draw (2 * spread + 1)) in
    if ltb_i64 doh_maximum jittered then doh_maximum else jittered

abbrev pub restart_initial : ℕ
restart_initial = second

abbrev pub restart_maximum : ℕ
restart_maximum = 30 * second

-- The loop of `restartDelay`.
restart_loop : ℕ → ℕ → ℕ
restart_loop zero nominal = nominal
restart_loop (suc rounds) nominal =
    let doubled = wrap64 (nominal * 2) in
    elim (ltb_i64 nominal restart_maximum) [
      | false ↦ nominal
      | true ↦ elim (leb_i64 restart_maximum doubled) [
        | true ↦ restart_maximum
        | false ↦ restart_loop rounds doubled
      ]
    ]

unfoldable pub restart_delay : (ℕ → ℕ) → ℕ → ℕ
unfolding restart_loop
restart_delay draw step =
    let nominal = restart_loop (step - 1) restart_initial in
    let spread = nominal / 5 in
    let delay = wrap64 (nominal - spread + draw (2 * spread + 1)) in
    if ltb_i64 restart_maximum delay then restart_maximum else delay
