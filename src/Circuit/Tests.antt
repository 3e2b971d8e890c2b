-- ===== src/Circuit/Tests.antt =====
-- The circuit breaker at work.
use guard_dns.Prelude.{
  ℕ, zero, suc, ◌+◌, ◌*◌, ◌≤◌, ◌<◌, ◌≡◌, refl, ◌↔◌, true, false, none, some, List, [], ◌∷◌, arith,
  All, second,
}
use guard_dns.Dns.{Msg}
use guard_dns.Circuit.{Permit, Circuit, acquire, succeed, fail}
use guard_dns.Circuit.Invariant.{IsValid}
use guard_dns.Circuit.Phase.{closed, phase, retry_delay, failed_at, fail-phase}
use guard_dns.Circuit.Trace.{Call, acquiring, failing, run, opens_at_threshold}
use guard_dns.Circuit.Probe.{admissions, outstanding, probe_failures, probe_at_a_time}
use guard_dns.Circuit.Plugin.{
  Args, Plugin, build, cause, result, timer, done, attempt_once, judge, Round, Env, exec,
}
use guard_dns.Backoff.{exponential_delay}
use guard_dns.Circuit.Exec.{IsLost, FirstAnswer}
use guard_dns.Circuit.Outcome.{exec_answers_iff}
use guard_dns.Circuit.Abandoned.{replies, IsRefusal, abandoned_probe}

-- A configuration: two failures open the circuit, and a query makes two attempts.
abbrev args : Args
args = record {
  failure_threshold = 2;
  attempts = 2;
  attempt_timeout_millis = 1000;
  initial_backoff_millis = 1000;
  max_backoff_millis = 300000;
  failure_rcodes = 2 ∷ 5 ∷ [];
}

abbrev plugin : Plugin
plugin = build args

abbrev start : Circuit
start = plugin.circuit

start-IsValid : IsValid start
start-IsValid = ground arith

abbrev no_jitter : ℕ → ℕ → ℕ
no_jitter nominal maximum = nominal

abbrev normal_permit : Permit
normal_permit = record { probe = false }

abbrev failure : ℕ → Call
failure now = failing no_jitter now normal_permit

-- Some time in the 21st century.
abbrev noon : ℕ
noon = 63800000000 * second

abbrev two_failures : List Call
two_failures = failure noon ∷ failure noon ∷ []

abbrev open_circuit : Circuit
open_circuit = record start {
  consecutive_failures = 2;
  backoff_step = 1;
  retry_at = noon + second;
  state_gauge = 1;
  backoff_gauge = second;
  failure_counter = 2;
}

two_failures_open : run start two_failures ≡ open_circuit
unfolding run fail acquire succeed exponential_delay
two_failures_open = refl

open_circuit-IsValid : IsValid open_circuit
open_circuit-IsValid = ground arith

fail-phase_example :
    phase (fail no_jitter noon normal_permit start)
    ≡ failed_at 2 (retry_delay no_jitter start) noon false (closed 0)
fail-phase_example = fail-phase no_jitter noon normal_permit start start-IsValid (omega arith)

opens_at_threshold_example :
    (0 + 2 < 2
      → ((run start two_failures).backoff_step ≡ 0)
        × ((run start two_failures).consecutive_failures ≡ 0 + 2))
    × (2 ≤ 0 + 2 → (run start two_failures).backoff_step ≡ 1)
opens_at_threshold_example =
    opens_at_threshold start two_failures start-IsValid refl (refl, (refl, tt))

abbrev rush : List Call
rush = acquiring (noon + 2 * second) ∷ acquiring (noon + 2 * second) ∷ failure noon ∷ []

probe_at_a_time_example :
    admissions open_circuit rush + outstanding open_circuit.probing ≤ 1 + probe_failures rush
probe_at_a_time_example =
    probe_at_a_time open_circuit rush (tt, (tt, (tt, tt))) (λ e. cc) (omega arith)

abbrev answer : Msg
answer = record { id = 7; response = true; question = 1 ∷ []; rcode = 0; answer = [] }

-- The first attempt times out, the second is answered.
abbrev retried : ℕ → Round
retried zero = record { selected = timer; ended = none }
retried (suc i) = record { selected = result (some answer) none; ended = none }

abbrev env_of : (ℕ → Round) → ℕ → Env
env_of rounds now = record {
  entered_at = now;
  failed_at = now;
  jitter = no_jitter;
  rounds = rounds;
}

retried_answer : (exec plugin (env_of retried noon)).1 ≡ some answer
unfolding exec acquire succeed fail attempt_once judge
retried_answer = refl

exec_answers_iff_example :
    ((exec plugin (env_of retried noon)).1 ≡ some answer)
    ↔ FirstAnswer (2 ∷ 5 ∷ []) retried 0 2 answer
exec_answers_iff_example =
    exec_answers_iff plugin (env_of retried noon) answer (omega arith) (omega arith)
      (unfold acquire in refl)

abbrev silent : ℕ → Round
silent i = record { selected = timer; ended = none }

silent-IsLost : (j : ℕ) → j < 2 → IsLost (silent j)
unfolding attempt_once
silent-IsLost j h = (tt, refl)

abbrev cancelled : ℕ → Round
cancelled i = record { selected = done 1; ended = some 1 }

abbrev open_plugin : Plugin
open_plugin = record plugin { circuit = open_circuit }

-- A day later, with an upstream that would answer.
abbrev much_later : List Env
much_later = env_of retried (noon + 86400 * second) ∷ env_of retried (noon + 86401 * second) ∷ []

abandoned_probe_example :
    ((exec open_plugin (env_of cancelled (noon + 2 * second))).1 ≡ none)
    × ((exec open_plugin (env_of cancelled (noon + 2 * second))).2 ≡ some (cause 1))
    × All IsRefusal (
        replies
          (record open_plugin {
            circuit = (exec open_plugin (env_of cancelled (noon + 2 * second))).0;
          })
          much_later)
abandoned_probe_example =
    abandoned_probe open_plugin (env_of cancelled (noon + 2 * second)) 1 much_later (λ e. cc) refl
      (omega arith) refl refl
