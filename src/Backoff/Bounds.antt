-- ===== src/Backoff/Bounds.antt =====
-- The delays are powers of two up to their maximum, and the jitter keeps them within a fifth.
use native.Mathlib.Nat.{pow-suc, one-le-pow}
use guard_dns.Prelude.{
  ℕ, zero, suc, ◌+◌, ◌-◌, ◌*◌, ◌/◌, ◌^◌, ◌≤◌, ◌<◌, min, ◌≡◌, ap, arith, two_62, wrap64,
}
use guard_dns.Backoff.{exponential_loop, exponential_delay, jitter_delay}

pow_pos : (k : ℕ) → 1 ≤ 2 ^ k
pow_pos k = one-le-pow k 2 (omega arith)

-- A product by a power of two is never smaller.
le-mul-pow : (a k : ℕ) → a ≤ a * 2 ^ k
le-mul-pow a k = let p = pow_pos k in grind arith

mul-pow-suc : (a k : ℕ) → a * 2 ^ suc k ≡ a * 2 * 2 ^ k
mul-pow-suc a k = omega (arith, ap (λ (t : ℕ). a * t) (pow-suc 2 k))

exponential_loop-min :
    (k maximum delay : ℕ)
    → 0 < delay
    → delay ≤ maximum
    → maximum ≤ two_62
    → exponential_loop k maximum delay ≡ min (delay * 2 ^ k) maximum
unfolding exponential_loop
exponential_loop-min zero maximum delay p h b = omega arith
exponential_loop-min (suc k) maximum delay p h b = ground (
  arith,
  le-mul-pow delay (suc k),
  le-mul-pow (delay * 2) k,
  mul-pow-suc delay k,
  exponential_loop-min k maximum (wrap64 (delay * 2)),
)

-- The nominal delay before a retry is the initial one doubled at every earlier step, cut off at the
-- maximum, for a positive initial delay that is at most the maximum, itself at most 2 ^ 62 ns.
pub exponential_delay-min :
    (initial maximum step : ℕ)
    → 0 < initial
    → initial ≤ maximum
    → maximum ≤ two_62
    → exponential_delay initial maximum step ≡ min (initial * 2 ^ (step - 1)) maximum
unfolding exponential_delay
exponential_delay-min initial maximum step p h b =
    exponential_loop-min (step - 1) maximum initial p h b

-- The nominal delay is at least the initial one and at most the maximum.
pub exponential_delay_bounds :
    (initial maximum step : ℕ)
    → 0 < initial
    → initial ≤ maximum
    → maximum ≤ two_62
    → (initial ≤ exponential_delay initial maximum step)
      × (exponential_delay initial maximum step ≤ maximum)
exponential_delay_bounds initial maximum step p h b =
    omega (arith, exponential_delay-min initial maximum step p h b, le-mul-pow initial (step - 1))

-- The delay after the jitter is within a fifth of the nominal one, and never above the maximum, for
-- a nominal delay from 1 ns up to the maximum, itself at most 2 ^ 62 ns, and a draw below its bound.
pub jitter_delay_bounds :
    (draw : ℕ → ℕ) (nominal maximum : ℕ)
    → 0 < nominal
    → nominal ≤ maximum
    → maximum ≤ two_62
    → draw (2 * (nominal / 5) + 1) < 2 * (nominal / 5) + 1
    → (nominal - nominal / 5 ≤ jitter_delay draw nominal maximum)
      × (jitter_delay draw nominal maximum ≤ nominal + nominal / 5)
      × (jitter_delay draw nominal maximum ≤ maximum)
unfolding jitter_delay
jitter_delay_bounds draw nominal maximum p h b d = ground arith
