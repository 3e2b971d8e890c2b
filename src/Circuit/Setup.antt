-- ===== src/Circuit/Setup.antt =====
-- `initPlugin` of internal/circuitplugin/circuit.go: the plugin that it builds starts out valid.
use guard_dns.Prelude.{ℕ, ◌≤◌, ◌<◌, ◌≡◌, ◌↔◌, Bool, true, arith, ◌&&◌, two_63, two_64}
use guard_dns.Circuit.Invariant.{IsValid}
use guard_dns.Circuit.Phase.{closed, phase}
use guard_dns.Circuit.Plugin.{Args, Plugin, ready, build, init_plugin}

-- Arguments of type `int`, with an initial delay of at most 5 minutes, and a maximum that fits in a
-- `time.Duration` twice over (2 ^ 42 ms, some 139 years).
pub record IsSensible (args : Args) : Type 0 where
  pub threshold_int : args.failure_threshold < two_64
  pub attempts_int : args.attempts < two_64
  pub timeout_int : args.attempt_timeout_millis < two_64
  pub initial_small : args.initial_backoff_millis ≤ 300000
  pub max_small : args.max_backoff_millis ≤ 4398046511104

-- What `Exec` relies on: a valid circuit, closed with no failure counted, at least one attempt, and a
-- positive time limit for it.
pub record IsFresh (p : Plugin) : Type 0 where
  pub circuit_valid : IsValid p.circuit
  pub starts_closed : phase p.circuit ≡ closed 0
  pub attempts_pos : 0 < p.attempts
  pub attempts_int : p.attempts < two_63
  pub timeout_pos : 0 < p.attempt_timeout
  pub timeout_int : p.attempt_timeout < two_63

-- With sensible arguments, zero and negative ones included where a default stands in for them,
-- every plugin that `initPlugin` returns is fresh.
pub init_plugin-IsFresh :
    (found : Bool) (registers : ℕ → Bool) (args : Args) {p : Plugin}
    → IsSensible args
    → init_plugin found registers args ≡ ready p
    → IsFresh p
unfolding init_plugin
init_plugin-IsFresh found registers args s e = ground arith

-- `initPlugin` returns a plugin exactly when the primary exists and all four metrics are registered.
pub init_plugin_iff :
    (found : Bool) (registers : ℕ → Bool) (args : Args)
    → ((p : Plugin) × (init_plugin found registers args ≡ ready p))
      ↔ ((found && registers 0 && registers 1 && registers 2 && registers 3) ≡ true)
unfolding init_plugin
init_plugin_iff found registers args = (λ (p, e). ground arith, λ h. (build args, ground arith))
