-- ===== src/Circuit/Outcome.antt =====
-- What a query through `Exec` of internal/circuitplugin/circuit.go gets, and what it leaves behind in
-- the circuit.
use mathlib.Core.Path.{subst}
use guard_dns.Prelude.{
  ℕ, suc, ◌+◌, ◌-◌, ◌<◌, ◌≡◌, refl, sym, ap, ◌∙◌, ◌↔◌, inl, inr, true, false, none, some, arith,
  Bool-cases, two_63,
}
use guard_dns.Dns.{Msg}
use guard_dns.Circuit.{Permit, Circuit, acquire, succeed, fail}
use guard_dns.Circuit.Phase.{closed, phase, succeed-phase}
use guard_dns.Circuit.Plugin.{
  Plugin, circuit_open, cause, done, attempt_once, Verdict, answered, interrupted, exhausted, judge,
  attempt_loop, Env, settle, exec, positive_or,
}
use guard_dns.Circuit.Exec.{
  IsLost, FirstAnswer, miss_error, loop_answered, loop_finds, loop_exhausted,
}

-- The query is let in: the circuit is closed, or the query is its probe.
abbrev pub IsAdmitted : Plugin → Env → Type 0
IsAdmitted p env = (acquire env.entered_at p.circuit).2 ≡ true

abbrev verdict : Plugin → Env → Verdict
verdict p env = attempt_loop p.failure_rcodes env.rounds (positive_or 1 p.attempts) 0 none

attempts_positive : (n : ℕ) → 0 < n → n < two_63 → positive_or 1 n ≡ n
attempts_positive n h b = ground arith

exec_admitted :
    (p : Plugin) (env : Env)
    → IsAdmitted p env
    → exec p env ≡ (
        let (c, permit, allowed) = acquire env.entered_at p.circuit in
        settle env permit c (verdict p env))
unfolding exec
exec_admitted p env h = rw h

settle-some :
    (env : Env) (t : Permit) (c : Circuit) (v : Verdict) {m : Msg}
    → (settle env t c v).1 ≡ some m
    → (v ≡ answered m) × (settle env t c v ≡ (succeed c, some m, none))
unfolding settle
settle-some env t c (answered k) e = ground arith
settle-some env t c (interrupted k) e = cc
settle-some env t c (exhausted k) e = cc

verdict_loop :
    (p : Plugin) (env : Env)
    → 0 < p.attempts
    → p.attempts < two_63
    → verdict p env ≡ attempt_loop p.failure_rcodes env.rounds p.attempts 0 none
verdict_loop p env h b = rw (attempts_positive p.attempts h b)

from_zero : (n : ℕ) → 0 + n ≡ n
from_zero n = omega arith

verdict_answered_iff :
    (p : Plugin) (env : Env) (m : Msg)
    → 0 < p.attempts
    → p.attempts < two_63
    → (verdict p env ≡ answered m) ↔ FirstAnswer p.failure_rcodes env.rounds 0 p.attempts m
verdict_answered_iff p env m h b =
    let range = λ (t : ℕ). FirstAnswer p.failure_rcodes env.rounds 0 t m in
    (
      λ e. subst range (from_zero p.attempts) (
          loop_answered p.failure_rcodes env.rounds p.attempts 0 none
            (sym (verdict_loop p env h b) ∙ e)),
      λ f.
          verdict_loop p env h b
          ∙ loop_finds p.failure_rcodes env.rounds p.attempts 0 none m
              (subst range (sym (from_zero p.attempts)) f),
    )

-- The query's answer is `m` exactly when the loop's verdict is.
exec-verdict_iff :
    (p : Plugin) (env : Env) (m : Msg)
    → IsAdmitted p env
    → ((exec p env).1 ≡ some m) ↔ (verdict p env ≡ answered m)
exec-verdict_iff p env m adm =
    let (c, permit, allowed) = acquire env.entered_at p.circuit in
    (
      λ e.
          (settle-some env permit c (verdict p env)
            (sym (ap (λ r. r.1) (exec_admitted p env adm)) ∙ e)).0,
      λ v.
          ap (λ r. r.1) (exec_admitted p env adm)
          ∙ ap (λ v. (settle env permit c v).1) v
          ∙ unfold settle in refl,
    )

-- A query that is let in, with a positive number of attempts, is answered with `m` exactly when one
-- of its attempts brings `m` with no error and an acceptable code, after attempts that all missed
-- while the query's context went on.
pub exec_answers_iff :
    (p : Plugin) (env : Env) (m : Msg)
    → 0 < p.attempts
    → p.attempts < two_63
    → IsAdmitted p env
    → ((exec p env).1 ≡ some m) ↔ FirstAnswer p.failure_rcodes env.rounds 0 p.attempts m
exec_answers_iff p env m h b adm =
    let outer = exec-verdict_iff p env m adm in
    let inner = verdict_answered_iff p env m h b in
    (λ e. inner.0 (outer.0 e), λ f. outer.1 (inner.1 f))

pub exec_refused :
    (p : Plugin) (env : Env)
    → (acquire env.entered_at p.circuit).2 ≡ false
    → exec p env ≡ ((acquire env.entered_at p.circuit).0, none, some circuit_open)
unfolding exec
exec_refused p env h = rw h

exec-some :
    (p : Plugin) (env : Env) {m : Msg}
    → (exec p env).1 ≡ some m
    → exec p env ≡ (succeed (acquire env.entered_at p.circuit).0, some m, none)
exec-some p env e = elim (Bool-cases (acquire env.entered_at p.circuit).2) [
  | inl adm ↦
      let whole = exec_admitted p env adm in
      whole ∙ (settle-some env _ _ (verdict p env) (sym (ap (λ r. r.1) whole) ∙ e)).1
  | inr out ↦ let none_left = sym (ap (λ r. r.1) (exec_refused p env out)) ∙ e in cc
]

-- An answered query closes the circuit, whatever phase it was in, and returns no error.
pub exec_answer_closes :
    (p : Plugin) (env : Env) {m : Msg}
    → (exec p env).1 ≡ some m
    → (phase (exec p env).0 ≡ closed 0) × ((exec p env).2 ≡ none)
exec_answer_closes p env e = rw (exec-some p env e) (succeed-phase _, refl)

-- A query that is let in and whose attempts, a positive number of them, all miss while its context
-- goes on, leaves no response, returns the error of the last attempt, and counts as a failure.
pub exec_exhausted :
    (p : Plugin) (env : Env) {left : ℕ}
    → p.attempts ≡ suc left
    → p.attempts < two_63
    → IsAdmitted p env
    → ((j : ℕ) → j < p.attempts → IsLost (env.rounds j))
    → exec p env ≡ (
        let (c, permit, allowed) = acquire env.entered_at p.circuit in
        (
          fail env.jitter env.failed_at permit c,
          none,
          some (miss_error (attempt_once (env.rounds left).selected)),
        ))
unfolding settle
exec_exhausted p env {left} n b adm lost =
    let (c, permit, allowed) = acquire env.entered_at p.circuit in
    let loop =
      loop_exhausted p.failure_rcodes env.rounds left 0 none (λ j h k. lost j (omega arith)) in
    exec_admitted p env adm
    ∙ ap (settle env permit c) (
        verdict_loop p env (omega arith) b
        ∙ ap (λ t. attempt_loop p.failure_rcodes env.rounds t 0 none) n
        ∙ loop
        ∙ ap (λ t. exhausted (some (miss_error (attempt_once (env.rounds t).selected))))
            (from_zero left))

positive_or-suc : (n : ℕ) → (left : ℕ) × (positive_or 1 n ≡ suc left)
positive_or-suc n = (positive_or 1 n - 1, ground arith)

verdict_interrupted :
    (p : Plugin) (env : Env) (k : ℕ)
    → (env.rounds 0).selected ≡ done k
    → (env.rounds 0).ended ≡ some k
    → verdict p env ≡ interrupted k
unfolding attempt_loop
verdict_interrupted p env k s e =
    let (left, more) = positive_or-suc p.attempts in rw (more, attempt_loop, s, e, judge)

-- A query that is let in and whose context ends in its first attempt leaves the circuit as `acquire`
-- made it.
pub exec_interrupted :
    (p : Plugin) (env : Env) (k : ℕ)
    → IsAdmitted p env
    → (env.rounds 0).selected ≡ done k
    → (env.rounds 0).ended ≡ some k
    → exec p env ≡ ((acquire env.entered_at p.circuit).0, none, some (cause k))
unfolding settle
exec_interrupted p env k adm s e =
    exec_admitted p env adm ∙ ap (settle env _ _) (verdict_interrupted p env k s e)
