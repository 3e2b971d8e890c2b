-- ===== src/Child.antt =====
-- `superviseChild` of cmd/guarddns/process.go: one child process, started again whenever it ends, and
-- its component in the supervisor's state. The goroutine is a machine: it stands at one of the points
-- where it waits, and an event takes it to the next one. The process itself, its logs and the timer are
-- outside.
pub mod Shown
pub mod Delays
pub mod Restarts
pub mod Writer
pub mod Dedupe
pub mod LogTests
pub mod Wait
pub mod Tests
use guard_dns.Prelude.{
  ℕ, ◌+◌, ◌*◌, Bool, true, false, String, List, [], ◌∷◌, ltb_i64, not, if◌then◌else◌, wrap64,
  second,
}
use guard_dns.Backoff.{restart_delay}
use guard_dns.Wire.{Component}
use guard_dns.State.{RuntimeState, update}
use guard_dns.State.Counts.{Change, changed}

abbrev pub stable_runtime : ℕ
stable_runtime = 300 * second

-- The top of the loop, the `select` on a child that runs, the `select` on the timer, and the return.
pub data Phase : Type 0 where
  starting running waiting returned : Phase

pub record Child : Type 0 where
  pub phase : Phase
  pub step : ℕ  -- uint

pub data Event : Type 0 where
  -- The context has ended at the top of the loop.
  ended : Event
  -- `cmd.Start` succeeds.
  started : Event
  -- It fails; the time since the start, and the draw of the next delay.
  failed : (elapsed : ℕ) → (ℕ → ℕ) → Event
  -- The child ends by itself; whether the context has ended meanwhile, the time since the start, and
  -- the draw.
  exited : Bool → (elapsed : ℕ) → (ℕ → ℕ) → Event
  -- The context ends: a child that runs is stopped and waited for, a timer is stopped.
  cancelled : Event
  -- The timer fires.
  fires : Event

abbrev pub up_now : Component → Component
up_now c = record c { up = true; backoff = 0 }

abbrev pub down_now : Component → Component
down_now c = record c { up = false }

abbrev pub restarting : ℕ → Component → Component
restarting delay c = record c { up = false; restarts = wrap64 (c.restarts + 1); backoff = delay }

abbrev pub next_step : (elapsed : ℕ) → ℕ → ℕ
next_step elapsed step = wrap64 ((if ltb_i64 elapsed stable_runtime then step else 0) + 1)

-- The end of the loop's body, up to the timer.
unfoldable pub schedule : String → (elapsed : ℕ) → (ℕ → ℕ) → ℕ → RuntimeState → Child × RuntimeState
schedule name elapsed draw step s =
    let next = next_step elapsed step in
    (record { phase = waiting; step = next }, update name (restarting (restart_delay draw next)) s)

-- What an event makes of the machine and the state. One that the point does not wait for changes nothing.
unfoldable pub advance : String → Phase → Event → ℕ → RuntimeState → Child × RuntimeState
unfolding schedule
advance name starting ended step s = (record { phase = returned; step = step }, s)
advance name starting started step s =
    (record { phase = running; step = step }, update name up_now s)
advance name starting (failed elapsed draw) step s =
    schedule name elapsed draw step (update name down_now s)
advance name running (exited true elapsed draw) step s =
    (record { phase = returned; step = step }, update name down_now s)
advance name running (exited false elapsed draw) step s =
    schedule name elapsed draw step (update name down_now s)
advance name running cancelled step s =
    (record { phase = returned; step = step }, update name down_now s)
advance name waiting cancelled step s = (record { phase = returned; step = step }, s)
advance name waiting fires step s = (record { phase = starting; step = step }, s)
advance name phase event step s = (record { phase = phase; step = step }, s)

-- A turn of this goroutine, or a change that another one makes to the state.
pub data Turn : Type 0 where
  own : Event → Turn
  other : Change → Turn

unfoldable pub take_turn : String → Turn → Child × RuntimeState → Child × RuntimeState
unfolding advance
take_turn name (own e) (c, s) = advance name c.phase e c.step s
take_turn name (other x) (c, s) = (c, changed s x)

abbrev pub supervise_child : String → List Turn → Child × RuntimeState → Child × RuntimeState
supervise_child name [] cs = cs
supervise_child name (t ∷ ts) cs = supervise_child name ts (take_turn name t cs)

abbrev pub new_child : Child
new_child = record { phase = starting; step = 0 }
