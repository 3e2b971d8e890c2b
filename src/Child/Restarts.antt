-- ===== src/Child/Restarts.antt =====
-- How `superviseChild` of cmd/guarddns/process.go counts the restarts of its child.
use mathlib.Core.Path.{subst}
use guard_dns.Prelude.{
  ℕ, ◌+◌, ◌<◌, ◌≡◌, refl, sym, ap, ◌∙◌, true, false, String, List, [], ◌∷◌, All, arith, ltb_i64,
  wrap64, two_64, length,
}
use guard_dns.Backoff.{restart_delay}
use guard_dns.Wire.{Component}
use guard_dns.State.{RuntimeState, update}
use guard_dns.Child.{
  starting, Child, started, failed, exited, fires, up_now, down_now, restarting, next_step,
  schedule, advance, Turn, own, take_turn, supervise_child, stable_runtime,
}
use guard_dns.Child.Shown.{shown, shown-update}

-- One round of the loop: the child does not start, or it starts and ends by itself; then the timer.
pub data Round : Type 0 where
  unstarted crashed : (elapsed : ℕ) → (ℕ → ℕ) → Round

abbrev pub turns : Round → List Turn → List Turn
turns (unstarted elapsed draw) ts = own (failed elapsed draw) ∷ own fires ∷ ts
turns (crashed elapsed draw) ts = own started ∷ own (exited false elapsed draw) ∷ own fires ∷ ts

abbrev pub all_turns : List Round → List Turn
all_turns [] = []
all_turns (r ∷ rs) = turns r (all_turns rs)

abbrev pub elapsed_in : Round → ℕ
elapsed_in (unstarted elapsed draw) = elapsed
elapsed_in (crashed elapsed draw) = elapsed

-- The round takes less than the five minutes after which a child counts as stable.
abbrev pub IsQuick : Round → Type 0
IsQuick r = ltb_i64 (elapsed_in r) stable_runtime ≡ true

-- The child stands at the top of the loop, at a step, with a count of restarts.
abbrev pub Stands : String → (step restarts : ℕ) → Child × RuntimeState → Type 0
Stands name step restarts (c, s) =
    (c.phase ≡ starting) × (c.step ≡ step) × ((shown name s).restarts ≡ restarts)

restarts-schedule :
    (name : String) (delay : ℕ) (s : RuntimeState)
    → (shown name (update name (restarting delay) (update name down_now s))).restarts
      ≡ wrap64 ((shown name s).restarts + 1)
restarts-schedule name delay s =
    ap (λ (k : Component). k.restarts)
      (shown-update name (restarting delay) (update name down_now s))
    ∙ ap (λ (k : Component). wrap64 (k.restarts + 1)) (shown-update name down_now s)

quick_step :
    (elapsed step : ℕ)
    → ltb_i64 elapsed stable_runtime ≡ true
    → next_step elapsed step ≡ wrap64 (step + 1)
quick_step elapsed step quick = rw quick

-- A state after one round.
abbrev pub after_round : String → Round → ℕ → RuntimeState → Child × RuntimeState
after_round name r step s =
    supervise_child name (turns r []) (record { phase = starting; step = step }, s)

round-Stands :
    (name : String) (r : Round) (step : ℕ) (s : RuntimeState)
    → IsQuick r
    → Stands name
        (wrap64 (step + 1))
        (wrap64 ((shown name s).restarts + 1))
        (after_round name r step s)
unfolding take_turn advance schedule
round-Stands name (unstarted elapsed draw) step s quick = (
  refl,
  quick_step elapsed step quick,
  restarts-schedule name (restart_delay draw (next_step elapsed step)) s,
)
round-Stands name (crashed elapsed draw) step s quick = (
  refl,
  quick_step elapsed step quick,
  restarts-schedule name (restart_delay draw (next_step elapsed step)) (update name up_now s)
      ∙ ap (λ (k : Component). wrap64 (k.restarts + 1)) (shown-update name up_now s),
)

turns-after_round :
    (name : String) (r : Round) (ts : List Turn) (step : ℕ) (s : RuntimeState)
    → supervise_child name (turns r ts) (record { phase = starting; step = step }, s)
      ≡ supervise_child name ts (after_round name r step s)
unfolding take_turn advance schedule
turns-after_round name (unstarted elapsed draw) ts step s = refl
turns-after_round name (crashed elapsed draw) ts step s = refl

restand :
    (name : String) {a b k l : ℕ} (cs : Child × RuntimeState)
    → a ≡ b
    → k ≡ l
    → Stands name a k cs
    → Stands name b l cs
restand name cs e f (phase, step, count) = (phase, step ∙ e, count ∙ f)

-- After any rounds that each take less than five minutes, from the top of the loop: the child is at the
-- top again, and its step and the restarts that the state shows have grown by the number of the rounds,
-- modulo 2 ^ 64. A failed start counts as much as a child that ends.
pub rounds-Stands :
    (name : String) (rs : List Round) (step : ℕ) (s : RuntimeState)
    → All IsQuick rs
    → step < two_64
    → (shown name s).restarts < two_64
    → Stands name
        (wrap64 (step + length rs))
        (wrap64 ((shown name s).restarts + length rs))
        (supervise_child name (all_turns rs) (record { phase = starting; step = step }, s))
rounds-Stands name [] step s quick small few = (refl, omega arith, omega arith)
rounds-Stands name (r ∷ rs) step s (q, qs) small few =
    let (phase, next, count) = round-Stands name r step s q in
    let after = after_round name r step s in
    let at_top : record { phase = starting; step = after.0.step } ≡ after.0 =
      λ i. record { phase = sym phase i; step = after.0.step } in
    let later =
      rounds-Stands name rs after.0.step after.1 qs (omega (arith, next)) (omega (arith, count)) in
    let moved =
      subst
        (λ c.
          Stands name (wrap64 (after.0.step + length rs))
            (wrap64 ((shown name after.1).restarts + length rs))
            (supervise_child name (all_turns rs) (c, after.1)))
        at_top later in
    subst
      (Stands name (wrap64 (step + length (r ∷ rs)))
        (wrap64 ((shown name s).restarts + length (r ∷ rs))))
      (sym (turns-after_round name r (all_turns rs) step s))
      (restand name (supervise_child name (all_turns rs) after) (omega (arith, next))
        (omega (arith, count)) moved)
