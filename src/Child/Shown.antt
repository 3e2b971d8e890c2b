-- ===== src/Child/Shown.antt =====
-- What the supervisor's state shows of a child that `superviseChild` of cmd/guarddns/process.go runs,
-- while the other goroutines change the state as well.
use text.Mathlib.Text.{◌==◌ as str_eq}
use text.Mathlib.TextEquality.{eq_iff}
use guard_dns.Prelude.{
  ℕ, ◌≡◌, refl, ap, ◌∙◌, Bool, true, false, String, List, [], ◌∷◌, All, arith, lookup,
  lookup-insert, get_or_zero,
}
use guard_dns.Backoff.{restart_delay}
use guard_dns.Wire.{Component}
use guard_dns.State.{
  RuntimeState, zero_component, update, register_doh_upstream, observe_doh_upstream,
}
use guard_dns.State.Counts.{Change, updating, registering, observing, changed}
use guard_dns.Child.{
  Phase, starting, running, waiting, Child, Event, ended, started, failed, exited, cancelled, fires,
  up_now, down_now, restarting, next_step, schedule, advance, Turn, own, other, take_turn,
  supervise_child, new_child,
}

-- The component of that name in the state.
abbrev pub shown : String → RuntimeState → Component
shown name s = get_or_zero zero_component (lookup name s.components)

pub shown-update :
    (name : String) (fn : Component → Component) (s : RuntimeState)
    → shown name (update name fn s) ≡ fn (shown name s)
unfolding update
shown-update name fn s =
    let same : str_eq name name ≡ true = (eq_iff name name).1 refl in rw (lookup-insert, same)

-- The change is to no component of that name.
abbrev pub Apart : String → Change → Type 0
Apart name (updating key fn) = str_eq key name ≡ false
Apart name _ = Unit

pub shown-changed :
    (name : String) (x : Change) (s : RuntimeState)
    → Apart name x
    → shown name (changed s x) ≡ shown name s
unfolding update register_doh_upstream observe_doh_upstream
shown-changed name (updating key fn) s apart = rw (lookup-insert, apart)
shown-changed name (registering key) s apart = ground (arith)
shown-changed name (observing key result duration retry_at now) s apart = refl

abbrev pub is_running : Phase → Bool
is_running running = true
is_running _ = false

abbrev pub ShowsUp : String → Child × RuntimeState → Type 0
ShowsUp name (c, s) = (shown name s).up ≡ is_running c.phase

abbrev pub ApartTurn : String → Turn → Type 0
ApartTurn name (own e) = Unit
ApartTurn name (other x) = Apart name x

schedule-IsDown :
    (name : String) (elapsed : ℕ) (draw : ℕ → ℕ) (step : ℕ) (s : RuntimeState)
    → ShowsUp name (schedule name elapsed draw step s)
unfolding schedule
schedule-IsDown name elapsed draw step s =
    let delay = restart_delay draw (next_step elapsed step) in
    ap (λ (k : Component). k.up) (shown-update name (restarting delay) s)

advance-ShowsUp :
    (name : String) (phase : Phase) (e : Event) (step : ℕ) (s : RuntimeState)
    → ShowsUp name (record { phase = phase; step = step }, s)
    → ShowsUp name (advance name phase e step s)
unfolding advance schedule
advance-ShowsUp name starting started step s h =
    ap (λ (k : Component). k.up) (shown-update name up_now s)
advance-ShowsUp name starting (failed elapsed draw) step s h =
    schedule-IsDown name elapsed draw step (update name down_now s)
advance-ShowsUp name running (exited true elapsed draw) step s h =
    ap (λ (k : Component). k.up) (shown-update name down_now s)
advance-ShowsUp name running (exited false elapsed draw) step s h =
    schedule-IsDown name elapsed draw step (update name down_now s)
advance-ShowsUp name running cancelled step s h =
    ap (λ (k : Component). k.up) (shown-update name down_now s)
advance-ShowsUp name starting ended step s h = h
advance-ShowsUp name waiting cancelled step s h = h
advance-ShowsUp name waiting fires step s h = h
advance-ShowsUp name phase e step s h = h

take_turn-ShowsUp :
    (name : String) (t : Turn) (cs : Child × RuntimeState)
    → ApartTurn name t
    → ShowsUp name cs
    → ShowsUp name (take_turn name t cs)
unfolding take_turn
take_turn-ShowsUp name (own e) (c, s) apart h = advance-ShowsUp name c.phase e c.step s h
take_turn-ShowsUp name (other x) (c, s) apart h =
    ap (λ (k : Component). k.up) (shown-changed name x s apart) ∙ h

turns-ShowsUp :
    (name : String) (ts : List Turn) (cs : Child × RuntimeState)
    → All (ApartTurn name) ts
    → ShowsUp name cs
    → ShowsUp name (supervise_child name ts cs)
turns-ShowsUp name [] cs apart h = h
turns-ShowsUp name (t ∷ ts) cs (apart, rest) h =
    turns-ShowsUp name ts (take_turn name t cs) rest (take_turn-ShowsUp name t cs apart h)

-- Of a new child that the state shows as down: after any turns, its own and changes that others make to
-- other components and to the upstreams, the state shows it as up exactly while its process runs.
pub shows_running :
    (name : String) (ts : List Turn) (s : RuntimeState)
    → All (ApartTurn name) ts
    → (shown name s).up ≡ false
    → let (c, s') = supervise_child name ts (new_child, s) in
      (shown name s').up ≡ is_running c.phase
shows_running name ts s apart down = turns-ShowsUp name ts (new_child, s) apart down
