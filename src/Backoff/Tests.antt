-- ===== src/Backoff/Tests.antt =====
-- The delays at concrete settings.
use guard_dns.Prelude.{◌-◌, ◌*◌, ◌^◌, min, ◌≡◌, refl, arith, second, minute}
use guard_dns.Backoff.{exponential_delay}
use guard_dns.Backoff.Bounds.{exponential_delay-min}

third_delay : exponential_delay second (5 * minute) 3 ≡ 4 * second
unfolding exponential_delay
third_delay = refl

last_delay : exponential_delay second (5 * minute) 40 ≡ 5 * minute
unfolding exponential_delay
last_delay = refl

exponential_delay-min_example :
    exponential_delay second (5 * minute) 4 ≡ min (second * 2 ^ (4 - 1)) (5 * minute)
exponential_delay-min_example =
    exponential_delay-min second (5 * minute) 4 (omega arith) (omega arith) (omega arith)
