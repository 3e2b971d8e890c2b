-- ===== src/Circuit/Abandoned.antt =====
-- A probe whose query is cancelled: `Exec` of internal/circuitplugin/circuit.go returns early, with
-- neither `succeed` nor `fail`, so nobody resets `probing`.
use guard_dns.Prelude.{
  ℕ, ◌≤◌, ◌≡◌, refl, ◌≢◌, true, false, Option, none, some, List, [], ◌∷◌, arith, All,
}
use guard_dns.Dns.{Msg}
use guard_dns.Circuit.{Circuit, acquire}
use guard_dns.Circuit.Plugin.{Plugin, ExecError, circuit_open, cause, done, Env, exec}
use guard_dns.Circuit.Outcome.{exec_refused, exec_interrupted}

-- The replies of `Exec` to queries that come one after the other.
unfoldable pub replies : Plugin → List Env → List (Option Msg × Option ExecError)
replies p [] = []
replies p (env ∷ later) =
    let (c, response, err) = exec p env in
    (response, err) ∷ replies (record p { circuit = c }) later

abbrev pub IsRefusal : Option Msg × Option ExecError → Type 0
IsRefusal r = r ≡ (none, some circuit_open)

abbrev HasProbe : Circuit → Type 0
HasProbe c = (c.backoff_step ≢ 0) × (c.probing ≡ true)

held :
    (now : ℕ) (c : Circuit) → HasProbe c → HasProbe (acquire now c).0 × ((acquire now c).2 ≡ false)
unfolding acquire
held now c h = ground arith

replies_held : (p : Plugin) (envs : List Env) → HasProbe p.circuit → All IsRefusal (replies p envs)
unfolding replies
replies_held p [] h = tt
replies_held p (env ∷ later) h =
    let (still, out) = held env.entered_at p.circuit h in
    rw (exec_refused p env out)
      (refl, replies_held (record p { circuit = (acquire env.entered_at p.circuit).0 }) later still)

probe_taken :
    (now : ℕ) (c : Circuit)
    → c.backoff_step ≢ 0
    → c.probing ≡ false
    → c.retry_at ≤ now
    → HasProbe (acquire now c).0 × ((acquire now c).2 ≡ true)
unfolding acquire
probe_taken now c s p t = ground arith

-- Once the probe of an open circuit is cancelled in its first attempt, every later query is refused
-- with the error of an open circuit: no time that passes lets one of them through, if each of them
-- comes after the end of the one before.
pub abandoned_probe :
    (p : Plugin) (env : Env) (k : ℕ) (later : List Env)
    → p.circuit.backoff_step ≢ 0
    → p.circuit.probing ≡ false
    → p.circuit.retry_at ≤ env.entered_at
    → (env.rounds 0).selected ≡ done k
    → (env.rounds 0).ended ≡ some k
    → ((exec p env).1 ≡ none)
      × ((exec p env).2 ≡ some (cause k))
      × All IsRefusal (replies (record p { circuit = (exec p env).0 }) later)
abandoned_probe p env k later s q t sel e =
    let (taken, adm) = probe_taken env.entered_at p.circuit s q t in
    rw (exec_interrupted p env k adm sel e) (
      refl,
      refl,
      replies_held (record p { circuit = (acquire env.entered_at p.circuit).0 }) later taken,
    )
