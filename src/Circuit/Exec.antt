-- ===== src/Circuit/Exec.antt =====
-- What `Exec` of internal/circuitplugin/circuit.go answers, over all its attempts.
use native.Mathlib.Decide.{dec_lt}
use mathlib.Core.Path.{subst}
use guard_dns.Prelude.{
  ℕ, zero, suc, ◌+◌, ◌≤◌, ◌<◌, ◌≡◌, ap, sym, ◌∙◌, ◌⊎◌, inl, inr, false, Option, none, some, List,
  arith, contains,
}
use guard_dns.Dns.{Msg}
use guard_dns.Circuit.Plugin.{
  ExecError, no_response, attempt_once, Round, Verdict, answered, exhausted, judge, attempt_loop,
}

-- An attempt with no response, or with an error.
abbrev pub IsMiss : Option Msg × Option ExecError → Type 0
IsMiss (some m, none) = ⊥
IsMiss _ = Unit

-- A round that the loop repeats: its attempt missed, and the query's context goes on.
abbrev pub IsLost : Round → Type 0
IsLost r = IsMiss (attempt_once r.selected) × (r.ended ≡ none)

abbrev pub miss_error : Option Msg × Option ExecError → ExecError
miss_error (_, some e) = e
miss_error (_, none) = no_response

-- Round `n` is the first that is not lost, and brings the message `m`, of an acceptable code.
abbrev pub FirstAnswer : List ℕ → (ℕ → Round) → (from to : ℕ) → Msg → Type 0
FirstAnswer rcodes rounds from to m =
    (n : ℕ) × (from ≤ n)
    × (n < to)
    × ((j : ℕ) → from ≤ j → j < n → IsLost (rounds j))
    × (attempt_once (rounds n).selected ≡ (some m, none))
    × (contains rcodes m.rcode ≡ false)

module _ (rcodes : List ℕ) where
  judge_lost :
      (x : Option Msg × Option ExecError) (ended : Option ℕ) (next : Option ExecError → Verdict)
      → IsMiss x
      → ended ≡ none
      → judge rcodes x ended next ≡ next (some (miss_error x))
  unfolding judge
  judge_lost (some m, none) ended next l e = elim l [ ]
  judge_lost (none, none) ended next l e = ground arith
  judge_lost (some m, some x) ended next l e = ground arith
  judge_lost (none, some x) ended next l e = ground arith

  judge_found :
      (x : Option Msg × Option ExecError) (ended : Option ℕ) (next : Option ExecError → Verdict)
      (m : Msg)
      → x ≡ (some m, none)
      → contains rcodes m.rcode ≡ false
      → judge rcodes x ended next ≡ answered m
  unfolding judge
  judge_found x ended next m e ok = rw e (rw ok)

  judge_answered :
      (x : Option Msg × Option ExecError) (ended : Option ℕ) (next : Option ExecError → Verdict)
      → {m : Msg} → judge rcodes x ended next ≡ answered m
      → ((x ≡ (some m, none)) × (contains rcodes m.rcode ≡ false))
        ⊎ (IsMiss x × (ended ≡ none) × (next (some (miss_error x)) ≡ answered m))
  unfolding judge
  judge_answered (some m, none) ended next e = ground arith
  judge_answered (none, none) ended next e = ground arith
  judge_answered (some m, some x) ended next e = ground arith
  judge_answered (none, some x) ended next e = ground arith

module _ (rcodes : List ℕ) (rounds : ℕ → Round) where
  abbrev pub turn : ℕ → Option Msg × Option ExecError
  turn i = attempt_once (rounds i).selected

  loop_lost :
      (left i : ℕ) (err : Option ExecError)
      → IsLost (rounds i)
      → attempt_loop rcodes rounds (suc left) i err
        ≡ attempt_loop rcodes rounds left (i + 1) (some (miss_error (turn i)))
  unfolding attempt_loop
  loop_lost left i err (l, e) =
      judge_lost rcodes (turn i) (rounds i).ended (attempt_loop rcodes rounds left (i + 1)) l e

  IsLost-before :
      (i n : ℕ)
      → IsLost (rounds i)
      → ((j : ℕ) → i + 1 ≤ j → j < n → IsLost (rounds j))
      → (j : ℕ) → i ≤ j
      → j < n
      → IsLost (rounds j)
  IsLost-before i n first later j h k = elim (dec_lt i j) [
    | yes p ↦ later j (omega arith) k
    | no p ↦ subst (λ t. IsLost (rounds t)) (omega arith) first
  ]

  pub loop_answered :
      (left i : ℕ) (err : Option ExecError) {m : Msg}
      → attempt_loop rcodes rounds left i err ≡ answered m
      → FirstAnswer rcodes rounds i (i + left) m
  unfolding attempt_loop
  loop_answered zero i err e = cc
  loop_answered (suc left) i err e =
      elim (judge_answered rcodes (turn i) (rounds i).ended
        (attempt_loop rcodes rounds left (i + 1)) e) [
          | inl (x, ok) ↦ (i, omega arith, omega arith, λ j h k. absurd (omega arith), x, ok)
          | inr (l, c, rest) ↦
              let (n, lo, hi, before, x, ok) =
                loop_answered left (i + 1) (some (miss_error (turn i))) rest in
              (n, omega arith, omega arith, IsLost-before i n (l, c) before, x, ok)
        ]

  pub loop_finds :
      (left i : ℕ) (err : Option ExecError) (m : Msg)
      → FirstAnswer rcodes rounds i (i + left) m
      → attempt_loop rcodes rounds left i err ≡ answered m
  loop_finds zero i err m (n, lo, hi, before, x, ok) = absurd (omega arith)
  loop_finds (suc left) i err m (n, lo, hi, before, x, ok) = elim (dec_lt i n) [
    | yes p ↦
        loop_lost left i err (before i (omega arith) p)
        ∙ loop_finds left (i + 1) _ m
            (n, omega arith, omega arith, λ j h k. before j (omega arith) k, x, ok)
    | no p ↦
        let same : i ≡ n = omega arith in
        unfold attempt_loop in
        judge_found rcodes (turn i) (rounds i).ended _ m
          (subst (λ t. turn t ≡ (some m, none)) (sym same) x) ok
  ]

  pub loop_exhausted :
      (left i : ℕ) (err : Option ExecError)
      → ((j : ℕ) → i ≤ j → j < i + suc left → IsLost (rounds j))
      → attempt_loop rcodes rounds (suc left) i err
        ≡ exhausted (some (miss_error (turn (i + left))))
  loop_exhausted zero i err lost =
      loop_lost zero i err (lost i (omega arith) (omega arith))
      ∙ unfold attempt_loop in ap (λ t. exhausted (some (miss_error (turn t)))) (omega arith)
  loop_exhausted (suc left) i err lost =
      loop_lost (suc left) i err (lost i (omega arith) (omega arith))
      ∙ loop_exhausted left (i + 1) _ (λ j h k. lost j (omega arith) (omega arith))
      ∙ ap (λ t. exhausted (some (miss_error (turn t)))) (omega arith)
