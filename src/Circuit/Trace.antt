-- ===== src/Circuit/Trace.antt =====
-- Sequences of calls of the breaker's methods, in the order in which its mutex lets them in. The
-- calls of different queries may be interleaved in any way, and come at any times.
use native.Mathlib.Decide.{dec_lt}
use guard_dns.Prelude.{
  ℕ, ◌+◌, ◌≤◌, ◌<◌, ◌≡◌, refl, ◌∙◌, ◌≢◌, false, List, [], ◌∷◌, arith, length, All, two_64,
}
use guard_dns.Circuit.{Permit, Circuit, acquire, succeed, fail}
use guard_dns.Circuit.Invariant.{IsValid, acquire-IsValid, succeed-IsValid, fail-IsValid}

pub data Call : Type 0 where
  acquiring : (now : ℕ) → Call
  succeeding : Call
  failing : (jitter : ℕ → ℕ → ℕ) (now : ℕ) → Permit → Call

abbrev pub after : Circuit → Call → Circuit
after c (acquiring now) = (acquire now c).0
after c succeeding = succeed c
after c (failing jitter now p) = fail jitter now p c

unfoldable pub run : Circuit → List Call → Circuit
run c [] = c
run c (x ∷ xs) = run (after c x) xs

step_grows :
    (c : Circuit) (x : Call)
    → c.backoff_step + 1 < two_64
    → (after c x).backoff_step ≤ c.backoff_step + 1
unfolding acquire succeed fail
step_grows c (acquiring now) h = ground arith
step_grows c succeeding h = ground arith
step_grows c (failing jitter now p) h = ground arith

pub after-IsValid :
    (c : Circuit) (x : Call) → IsValid c → c.backoff_step + 1 < two_64 → IsValid (after c x)
after-IsValid c (acquiring now) v h = acquire-IsValid now c v
after-IsValid c succeeding v h = succeed-IsValid c v
after-IsValid c (failing jitter now p) v h = fail-IsValid jitter now p c v h

-- Every sequence of calls, of whatever queries and outcomes, keeps a valid circuit valid, as long as
-- the step plus the number of calls stays below 2 ^ 64.
pub run-IsValid :
    (c : Circuit) (xs : List Call)
    → IsValid c
    → c.backoff_step + length xs < two_64
    → IsValid (run c xs)
unfolding run
run-IsValid c [] v h = v
run-IsValid c (x ∷ xs) v h =
    run-IsValid (after c x) xs (after-IsValid c x v (omega arith))
      (omega (arith, step_grows c x (omega arith)))

-- A query that was let in normally and has failed.
abbrev pub IsNormalFailure : Call → Type 0
IsNormalFailure (failing jitter now p) = p.probe ≡ false
IsNormalFailure _ = ⊥

failure_counts :
    (c : Circuit) (x : Call)
    → IsValid c
    → c.backoff_step ≡ 0
    → IsNormalFailure x
    → c.consecutive_failures + 1 < c.failure_threshold
    → ((after c x).backoff_step ≡ 0)
      × ((after c x).consecutive_failures ≡ c.consecutive_failures + 1)
      × ((after c x).failure_threshold ≡ c.failure_threshold)
unfolding fail
failure_counts c (failing jitter now p) v s f h = ground arith
failure_counts c (acquiring now) v s f h = elim f [ ]
failure_counts c succeeding v s f h = elim f [ ]

failure_opens :
    (c : Circuit) (x : Call)
    → IsValid c
    → c.backoff_step ≡ 0
    → IsNormalFailure x
    → c.failure_threshold ≡ c.consecutive_failures + 1
    → (after c x).backoff_step ≡ 1
unfolding fail
failure_opens c (failing jitter now p) v s f h = ground arith
failure_opens c (acquiring now) v s f h = elim f [ ]
failure_opens c succeeding v s f h = elim f [ ]

failure_ignored :
    (c : Circuit) (x : Call)
    → c.backoff_step ≢ 0
    → IsNormalFailure x
    → (after c x).backoff_step ≡ c.backoff_step
unfolding fail
failure_ignored c (failing jitter now p) s f = ground arith
failure_ignored c (acquiring now) s f = elim f [ ]
failure_ignored c succeeding s f = elim f [ ]

stays_open :
    (c : Circuit) (xs : List Call)
    → c.backoff_step ≢ 0
    → All IsNormalFailure xs
    → (run c xs).backoff_step ≡ c.backoff_step
unfolding run
stays_open c [] s f = refl
stays_open c (x ∷ xs) s (f, fs) =
    let same = failure_ignored c x s f in omega (arith, stays_open (after c x) xs (omega arith) fs)

-- A closed, valid circuit opens exactly when its failures in a row reach the threshold: after the
-- given normal failures with no success between them, it is closed and has counted each of them if
-- they stay below the threshold, and it is open at its first step if they reach it.
pub opens_at_threshold :
    (c : Circuit) (xs : List Call)
    → IsValid c
    → c.backoff_step ≡ 0
    → All IsNormalFailure xs
    → (c.consecutive_failures + length xs < c.failure_threshold
        → ((run c xs).backoff_step ≡ 0)
          × ((run c xs).consecutive_failures ≡ c.consecutive_failures + length xs))
      × (c.failure_threshold ≤ c.consecutive_failures + length xs → (run c xs).backoff_step ≡ 1)
unfolding run
opens_at_threshold c [] v s f =
    let below = v.below_threshold s in (λ h. (s, omega arith), λ h. absurd (omega arith))
opens_at_threshold c (x ∷ xs) v s (f, fs) =
    let below = v.below_threshold s in
    elim (dec_lt (c.consecutive_failures + 1) c.failure_threshold) [
      | yes more ↦
          let (s', n', t') = failure_counts c x v s f more in
          let v' = after-IsValid c x v (omega arith) in
          let (still, opened) = opens_at_threshold (after c x) xs v' s' fs in
          (λ h. (let r = still (omega arith) in (r.0, omega arith)), λ h. opened (omega arith))
      | no last ↦
          let one = failure_opens c x v s f (omega arith) in
          (λ h. absurd (omega arith), λ h. stays_open (after c x) xs (omega arith) fs ∙ one)
    ]
