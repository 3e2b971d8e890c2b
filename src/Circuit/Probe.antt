-- ===== src/Circuit/Probe.antt =====
-- The half-open phase: how many queries an open circuit lets in, and what becomes of it when the one
-- that it let in never reports back.
use guard_dns.Prelude.{
  ℕ, ◌+◌, ◌≤◌, ◌<◌, ◌≢◌, Bool, true, false, List, [], ◌∷◌, arith, if◌then◌else◌, length, All,
  two_64,
}
use guard_dns.Circuit.{Circuit, acquire, fail}
use guard_dns.Circuit.Trace.{Call, acquiring, succeeding, failing, after}

-- 1 if the call is an `acquire` that lets its query in.
abbrev admission : Circuit → Call → ℕ
admission c (acquiring now) = if (acquire now c).2 then 1 else 0
admission c _ = 0

-- How many queries are let in along a sequence of calls.
abbrev pub admissions : Circuit → List Call → ℕ
admissions c [] = 0
admissions c (x ∷ xs) = admission c x + admissions (after c x) xs

-- How many failures of probes are reported along a sequence of calls.
abbrev probe_failure : Call → ℕ
probe_failure (failing jitter now p) = if p.probe then 1 else 0
probe_failure _ = 0

abbrev pub probe_failures : List Call → ℕ
probe_failures [] = 0
probe_failures (x ∷ xs) = probe_failure x + probe_failures xs

abbrev pub IsNoSuccess : Call → Type 0
IsNoSuccess succeeding = ⊥
IsNoSuccess _ = Unit

abbrev pub outstanding : Bool → ℕ
outstanding true = 1
outstanding false = 0

open_call :
    (c : Circuit) (x : Call)
    → IsNoSuccess x
    → c.backoff_step ≢ 0
    → c.backoff_step + 1 < two_64
    → (admission c x + outstanding c.probing ≤ outstanding (after c x).probing + probe_failure x)
      × ((after c x).backoff_step ≢ 0)
      × ((after c x).backoff_step ≤ c.backoff_step + 1)
unfolding acquire fail
open_call c (acquiring now) n s h = ground arith
open_call c succeeding n s h = elim n [ ]
open_call c (failing jitter now p) n s h = ground arith

-- While no success is reported, an open circuit lets in at most one query more than there are
-- failures of probes reported, and one less if a probe is out already. This holds for any times and
-- any interleaving, as long as the step plus the number of calls stays below 2 ^ 64.
pub probe_at_a_time :
    (c : Circuit) (xs : List Call)
    → All IsNoSuccess xs
    → c.backoff_step ≢ 0
    → c.backoff_step + length xs < two_64
    → admissions c xs + outstanding c.probing ≤ 1 + probe_failures xs
probe_at_a_time c [] n s h = ground arith
probe_at_a_time c (x ∷ xs) (n, ns) s h =
    let (one, s', g) = open_call c x n s (omega arith) in
    omega (arith, probe_at_a_time (after c x) xs ns s' (omega arith))
