-- ===== src/Requests.antt =====
-- The collector of internal/requestmetricsplugin/collector.go. Its counters are exact here; a `float64`
-- is exact up to 2 ^ 53. A query enters, runs the rest of its sequence, and leaves.
pub mod Tests
pub mod Flying
use guard_dns.Prelude.{
  ℕ, ◌+◌, ◌-◌, ◌/◌, Bool, true, false, ◌&&◌, ◌||◌, Option, none, some, List, [], ◌∷◌, ◌++◌, ltb,
  two_63, two_64, wrap64, millisecond, sub_time, if◌then◌else◌,
}
use guard_dns.Prelude.Text.{Text, codes, is_empty}
use guard_dns.Cancel.{Err, expected}

pub record Collector : Type 0 where
  pub query_total : ℕ
  pub err_total : ℕ
  pub canceled_total : ℕ
  pub thread : ℕ
  pub response_latency : List ℕ  -- what was observed, the last one first

abbrev pub fresh_collector : Collector
fresh_collector = record {
  query_total = 0;
  err_total = 0;
  canceled_total = 0;
  thread = 0;
  response_latency = [];
}

-- The metrics that `newCollector` registers, in turn.
abbrev pub metrics : List Text
metrics =
    codes "query_total"
    ∷ codes "err_total"
    ∷ codes "canceled_total"
    ∷ codes "thread"
    ∷ codes "response_latency_millisecond"
    ∷ []

-- What the registry takes, up to the first that it refuses; those before stay registered.
unfoldable pub register_all : (Text → Bool) → List Text → List Text × Bool
register_all takes [] = ([], true)
register_all takes (m ∷ ms) =
    let rest = register_all takes ms in if takes m then (m ∷ rest.0, rest.1) else ([], false)

pub data Setup : Type 0 where
  collecting : Collector → Setup
  no_name : Setup
  not_registered : Setup

-- `newCollector`: what it has registered, and its result.
unfoldable pub new_collector : (Text → Bool) → Text → List Text × Setup
unfolding register_all
new_collector takes name =
    let (registered, all) = register_all takes metrics in
    if is_empty name
    then ([], no_name)
    else (registered, if all then collecting fresh_collector else not_registered)

-- `Milliseconds` of a duration: towards zero.
abbrev pub milliseconds : ℕ → ℕ
milliseconds d =
    if ltb d two_63 then d / millisecond else wrap64 (two_64 - (two_64 - d) / millisecond)

-- How a query comes back from the rest of its sequence.
pub record Outcome : Type 0 where
  pub err : Option Err
  pub answered : Bool

-- `Exec` up to `ExecNext`.
unfoldable pub enter : Collector → Collector
enter c = record c { thread = c.thread + 1; query_total = c.query_total + 1 }

module _ (lower : ℕ → ℕ) where
  abbrev count_error : Option Err → Collector → Collector
  count_error none c = c
  count_error (some e) c =
      if expected lower (some e)
      then record c { canceled_total = c.canceled_total + 1 }
      else record c { err_total = c.err_total + 1 }

  abbrev observe : Bool → ℕ → Collector → Collector
  observe true ms c = record c { response_latency = ms ∷ c.response_latency }
  observe false ms c = c

  -- `Exec` behind `ExecNext`, with the deferred decrement.
  unfoldable pub leave : (started now : ℕ) → Outcome → Collector → Collector
  leave started now o c =
      let c' = observe o.answered (milliseconds (sub_time now started)) (count_error o.err c) in
      record c' { thread = c'.thread - 1 }

  -- `Exec`, where `exec_next` may run other queries through the collector.
  unfoldable pub exec :
      (started now : ℕ) → (Collector → Collector × Outcome) → Collector → Collector × Option Err
  unfolding enter leave
  exec started now exec_next c =
      let (c', o) = exec_next (enter c) in (leave started now o c', o.err)
