-- ===== src/Child/Delays.antt =====
-- The delays of `superviseChild` in cmd/guarddns/process.go, as the supervisor's state shows them.
use guard_dns.Prelude.{
  ℕ, ◌+◌, ◌-◌, ◌*◌, ◌/◌, ◌^◌, ◌≤◌, ◌<◌, min, ◌≡◌, sym, ap, true, false, String, List, [], ◌∷◌, All,
  arith,
}
use mathlib.Core.Path.{subst}
use guard_dns.Backoff.{
  restart_delay, restart_initial, restart_maximum, exponential_delay, jitter_delay,
}
use guard_dns.Backoff.Bounds.{exponential_delay-min, exponential_delay_bounds, jitter_delay_bounds}
use guard_dns.Backoff.Agree.{restart_delay-eq}
use guard_dns.Wire.{Component}
use guard_dns.State.{RuntimeState, update}
use guard_dns.Child.{
  Phase, starting, running, waiting, Child, Event, ended, started, failed, exited, cancelled, fires,
  up_now, down_now, restarting, next_step, schedule, advance, Turn, own, other, take_turn,
  supervise_child, new_child,
}
use guard_dns.Child.Shown.{shown, shown-update, shown-changed, ApartTurn}

-- `rand.Int63n`: what is drawn is below the bound.
abbrev pub IsDraw : (ℕ → ℕ) → Type 0
IsDraw draw = (n : ℕ) → 0 < n → draw n < n

abbrev pub nominal : ℕ → ℕ
nominal step = min (restart_initial * 2 ^ (step - 1)) restart_maximum

-- Within a fifth of the nominal delay of the step, and at most thirty seconds.
abbrev pub IsNear : ℕ → ℕ → Type 0
IsNear n d = (n - n / 5 ≤ d) × (d ≤ n + n / 5) × (d ≤ restart_maximum)

abbrev pub IsDelay : ℕ → ℕ → Type 0
IsDelay step d = IsNear (nominal step) d

restart_delay-IsDelay :
    (draw : ℕ → ℕ) (step : ℕ) → IsDraw draw → IsDelay step (restart_delay draw step)
restart_delay-IsDelay draw step drawn =
    let n = exponential_delay restart_initial restart_maximum step in
    let (lo, hi) =
      exponential_delay_bounds restart_initial restart_maximum step (omega arith) (omega arith)
        (omega arith) in
    let bounds =
      jitter_delay_bounds draw n restart_maximum (omega arith) hi (omega arith)
        (drawn (2 * (n / 5) + 1) (omega arith)) in
    let is_min =
      exponential_delay-min restart_initial restart_maximum step (omega arith) (omega arith)
        (omega arith) in
    subst (IsNear (nominal step)) (sym (restart_delay-eq draw step))
      (subst (λ k. IsNear k (jitter_delay draw n restart_maximum)) is_min bounds)

abbrev pub IsDrawn : Turn → Type 0
IsDrawn (own (failed elapsed draw)) = IsDraw draw
IsDrawn (own (exited stopped elapsed draw)) = IsDraw draw
IsDrawn _ = Unit

-- The delay that is shown while the child waits for its restart, and while it runs.
abbrev pub DelayAt : Phase → ℕ → ℕ → Type 0
DelayAt waiting step d = IsDelay step d
DelayAt running step d = d ≡ 0
DelayAt _ step d = Unit

abbrev pub ShowsDelay : String → Child × RuntimeState → Type 0
ShowsDelay name (c, s) = DelayAt c.phase c.step (shown name s).backoff

schedule-ShowsDelay :
    (name : String) (elapsed : ℕ) (draw : ℕ → ℕ) (step : ℕ) (s : RuntimeState)
    → IsDraw draw
    → ShowsDelay name (schedule name elapsed draw step s)
unfolding schedule
schedule-ShowsDelay name elapsed draw step s drawn =
    let next = next_step elapsed step in
    let delay = restart_delay draw next in
    subst (IsDelay next)
      (sym (ap (λ (k : Component). k.backoff) (shown-update name (restarting delay) s)))
      (restart_delay-IsDelay draw next drawn)

advance-ShowsDelay :
    (name : String) (phase : Phase) (e : Event) (step : ℕ) (s : RuntimeState)
    → IsDrawn (own e)
    → ShowsDelay name (record { phase = phase; step = step }, s)
    → ShowsDelay name (advance name phase e step s)
unfolding advance
advance-ShowsDelay name starting started step s drawn h =
    ap (λ (k : Component). k.backoff) (shown-update name up_now s)
advance-ShowsDelay name starting (failed elapsed draw) step s drawn h =
    schedule-ShowsDelay name elapsed draw step (update name down_now s) drawn
advance-ShowsDelay name running (exited true elapsed draw) step s drawn h = tt
advance-ShowsDelay name running (exited false elapsed draw) step s drawn h =
    schedule-ShowsDelay name elapsed draw step (update name down_now s) drawn
advance-ShowsDelay name running cancelled step s drawn h = tt
advance-ShowsDelay name starting ended step s drawn h = tt
advance-ShowsDelay name waiting cancelled step s drawn h = tt
advance-ShowsDelay name waiting fires step s drawn h = tt
advance-ShowsDelay name phase e step s drawn h = h

take_turn-ShowsDelay :
    (name : String) (t : Turn) (cs : Child × RuntimeState)
    → ApartTurn name t
    → IsDrawn t
    → ShowsDelay name cs
    → ShowsDelay name (take_turn name t cs)
unfolding take_turn
take_turn-ShowsDelay name (own e) (c, s) apart drawn h =
    advance-ShowsDelay name c.phase e c.step s drawn h
take_turn-ShowsDelay name (other x) (c, s) apart drawn h =
    subst (DelayAt c.phase c.step)
      (sym (ap (λ (k : Component). k.backoff) (shown-changed name x s apart))) h

turns-ShowsDelay :
    (name : String) (ts : List Turn) (cs : Child × RuntimeState)
    → All (ApartTurn name) ts
    → All IsDrawn ts
    → ShowsDelay name cs
    → ShowsDelay name (supervise_child name ts cs)
turns-ShowsDelay name [] cs apart drawn h = h
turns-ShowsDelay name (t ∷ ts) cs (apart, rest) (d, ds) h =
    turns-ShowsDelay name ts (take_turn name t cs) rest ds
      (take_turn-ShowsDelay name t cs apart d h)

-- Of a new child, after any turns, its own and changes that others make to other components and to the
-- upstreams: while it waits for its restart, the state shows a delay within a fifth of one second doubled
-- at each step behind the first, cut off at thirty seconds, and no more than thirty seconds; while it
-- runs, a delay of zero. The draws are below their bounds.
pub shows_delay :
    (name : String) (ts : List Turn) (s : RuntimeState)
    → All (ApartTurn name) ts
    → All IsDrawn ts
    → let (c, s') = supervise_child name ts (new_child, s) in
      DelayAt c.phase c.step (shown name s').backoff
shows_delay name ts s apart drawn = turns-ShowsDelay name ts (new_child, s) apart drawn tt
