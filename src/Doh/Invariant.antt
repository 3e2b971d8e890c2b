-- ===== src/Doh/Invariant.antt =====
-- What holds of the retry state of a DoH upstream (cmd/guarddns/dohbridge.go) between two calls.
use guard_dns.Prelude.{ℕ, ◌+◌, ◌≤◌, ◌<◌, ◌≡◌, ◌≢◌, false, List, [], ◌∷◌, arith, length, two_64}
use guard_dns.Doh.{DohPermit, Retry, doh_failure_threshold, fresh_retry, acquire, fail, succeed}

pub record IsValidRetry (u : Retry) : Type 0 where
  pub step_uint : u.backoff_step < two_64
  pub below_threshold : u.backoff_step ≡ 0 → u.failures < doh_failure_threshold
  pub at_threshold : u.backoff_step ≢ 0 → u.failures ≡ doh_failure_threshold
  pub closed_cleared : u.backoff_step ≡ 0 → u.retry_at ≡ 0
  pub closed_no_probe : u.backoff_step ≡ 0 → u.probing ≡ false

pub fresh_retry-IsValidRetry : IsValidRetry fresh_retry
fresh_retry-IsValidRetry = ground arith

pub data Call : Type 0 where
  acquiring : (now : ℕ) → Call
  succeeding : Call
  failing : (draw : ℕ → ℕ) (now : ℕ) → DohPermit → Call

abbrev pub after : Retry → Call → Retry
after u (acquiring now) = (acquire now u).0
after u succeeding = succeed u
after u (failing draw now p) = fail draw now p u

unfoldable pub run : Retry → List Call → Retry
run u [] = u
run u (x ∷ xs) = run (after u x) xs

after-IsValidRetry :
    (u : Retry) (x : Call)
    → IsValidRetry u
    → u.backoff_step + 1 < two_64
    → IsValidRetry (after u x) × ((after u x).backoff_step ≤ u.backoff_step + 1)
unfolding acquire succeed fail
after-IsValidRetry u (acquiring now) v h = (ground arith, ground arith)
after-IsValidRetry u succeeding v h = (ground arith, ground arith)
after-IsValidRetry u (failing draw now p) v h = (ground arith, ground arith)

-- Every sequence of calls keeps a valid retry state valid, as long as the step plus the number of
-- calls stays below 2 ^ 64.
pub run-IsValidRetry :
    (u : Retry) (xs : List Call)
    → IsValidRetry u
    → u.backoff_step + length xs < two_64
    → IsValidRetry (run u xs)
unfolding run
run-IsValidRetry u [] v h = v
run-IsValidRetry u (x ∷ xs) v h =
    let (v', g) = after-IsValidRetry u x v (omega arith) in
    run-IsValidRetry (after u x) xs v' (omega arith)
