-- ===== src/Circuit/Plugin.antt =====
-- The plugin of internal/circuitplugin/circuit.go around the breaker: `initPlugin`, `attemptOnce` and
-- `Exec`. What the outside does enters as values: which channel a `select` took and what it brought,
-- whether the query's context has ended, the clock, and the jitter.
use guard_dns.Prelude.{
  ℕ, zero, suc, ◌+◌, ◌*◌, Bool, false, ◌&&◌, not, Option, none, some, List, contains, ltb_i64,
  leb_i64, if◌then◌else◌, wrap64, millisecond, second, minute,
}
use guard_dns.Dns.{Msg}
use guard_dns.Circuit.{Permit, Circuit, acquire, succeed, fail}

-- Numbers of type `int`, as 64-bit patterns.
pub record Args : Type 0 where
  pub failure_threshold : ℕ
  pub attempts : ℕ
  pub attempt_timeout_millis : ℕ
  pub initial_backoff_millis : ℕ
  pub max_backoff_millis : ℕ
  pub failure_rcodes : List ℕ

pub record Plugin : Type 0 where
  pub circuit : Circuit
  pub attempts : ℕ
  pub attempt_timeout : ℕ
  pub failure_rcodes : List ℕ

pub data InitError : Type 0 where
  primary_not_found register_metrics : InitError

pub data InitResult : Type 0 where
  ready : Plugin → InitResult
  refused : InitError → InitResult

-- A positive `int64`, or the default in its place.
abbrev pub positive_or : ℕ → ℕ → ℕ
positive_or default n = if leb_i64 n 0 then default else n

abbrev pub build : Args → Plugin
build args =
    let initial = positive_or second (wrap64 (args.initial_backoff_millis * millisecond)) in
    let maximum = wrap64 (args.max_backoff_millis * millisecond) in
    record {
      circuit = record {
        consecutive_failures = 0;
        backoff_step = 0;
        retry_at = 0;
        probing = false;
        failure_threshold = positive_or 2 args.failure_threshold;
        initial_backoff = initial;
        max_backoff = if ltb_i64 maximum initial then 5 * minute else maximum;
        state_gauge = 0;
        backoff_gauge = 0;
        failure_counter = 0;
        bypass_counter = 0;
      };
      attempts = positive_or 1 args.attempts;
      attempt_timeout = positive_or second (wrap64 (args.attempt_timeout_millis * millisecond));
      failure_rcodes = args.failure_rcodes;
    }

-- `found`: the primary executable exists. `registers i`: the registerer takes the metric number `i`.
unfoldable pub init_plugin : (found : Bool) → (registers : ℕ → Bool) → Args → InitResult
init_plugin found registers args =
    if not found
    then refused primary_not_found
    else if registers 0 && registers 1 && registers 2 && registers 3
    then ready (build args)
    else refused register_metrics

pub data ExecError : Type 0 where
  circuit_open no_response attempt_timeout : ExecError
  bad_rcode : ℕ → ExecError
  -- An error of the primary, and the cause of the context's end.
  upstream : ℕ → ExecError
  cause : ℕ → ExecError

-- The channel that the `select` of `attemptOnce` takes: the primary has returned and left a
-- response, the timer has fired, or the context has ended.
pub data Selected : Type 0 where
  result : Option Msg → Option ExecError → Selected
  timer : Selected
  done : ℕ → Selected

unfoldable pub attempt_once : Selected → Option Msg × Option ExecError
attempt_once (result response err) = (response, err)
attempt_once timer = (none, some attempt_timeout)
attempt_once (done c) = (none, some (cause c))

-- One turn of the loop: what its attempt selects, and the cause of the context's end if it has ended
-- once the attempt is over.
pub record Round : Type 0 where
  pub selected : Selected
  pub ended : Option ℕ

-- How the loop of `Exec` ends.
pub data Verdict : Type 0 where
  answered : Msg → Verdict
  interrupted : ℕ → Verdict
  exhausted : Option ExecError → Verdict

-- The body of the loop after its attempt; `next` goes on with an error.
unfoldable pub judge :
    List ℕ → Option Msg × Option ExecError → Option ℕ → (Option ExecError → Verdict) → Verdict
judge rcodes (some m, none) ended next =
    if contains rcodes m.rcode then exhausted (some (bad_rcode m.rcode)) else answered m
judge rcodes (none, none) (some c) next = interrupted c
judge rcodes (none, none) none next = next (some no_response)
judge rcodes (response, some e) (some c) next = interrupted c
judge rcodes (response, some e) none next = next (some e)

-- The loop, on the attempts that are left; `i` counts those that were made.
unfoldable pub attempt_loop : List ℕ → (ℕ → Round) → ℕ → ℕ → Option ExecError → Verdict
unfolding judge attempt_once
attempt_loop rcodes rounds zero i err = exhausted err
attempt_loop rcodes rounds (suc left) i err =
    judge rcodes (attempt_once (rounds i).selected) (rounds i).ended
      (λ e. attempt_loop rcodes rounds left (i + 1) e)

-- What one run of `Exec` meets: the clock in `acquire` and in `fail`, the jitter, and its rounds.
pub record Env : Type 0 where
  pub entered_at : ℕ
  pub failed_at : ℕ
  pub jitter : ℕ → ℕ → ℕ
  pub rounds : ℕ → Round

-- The end of `Exec`: the circuit, the response left in the query's context, and the error returned.
unfoldable pub settle : Env → Permit → Circuit → Verdict → Circuit × Option Msg × Option ExecError
settle env p c (answered m) = (succeed c, some m, none)
settle env p c (interrupted k) = (c, none, some (cause k))
settle env p c (exhausted err) = (fail env.jitter env.failed_at p c, none, err)

unfoldable pub exec : Plugin → Env → Circuit × Option Msg × Option ExecError
unfolding attempt_loop settle
exec p env =
    let (c, permit, allowed) = acquire env.entered_at p.circuit in
    let verdict = attempt_loop p.failure_rcodes env.rounds (positive_or 1 p.attempts) 0 none in
    if allowed then settle env permit c verdict else (c, none, some circuit_open)
