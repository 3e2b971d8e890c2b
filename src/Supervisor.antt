-- ===== src/Supervisor.antt =====
-- The plugin of internal/supervisorplugin/plugin.go, which runs in MosDNS: it keeps the last snapshot
-- that the supervisor has sent, and answers the health endpoints from it. The socket, the router and
-- the JSON encoding are outside; `decode` stands for `json.Unmarshal`.
pub mod Status
pub mod Ready
pub mod Metrics
pub mod Scrape
pub mod Lifecycle
pub mod Tests
use text.Mathlib.Text.{starts_with}
use guard_dns.Prelude.{
  ℕ, ◌*◌, Bool, false, not, ◌&&◌, ◌||◌, Option, none, some, List, [], ◌∷◌, ◌++◌, String, ltb_i64,
  ◌==◌, if◌then◌else◌, sub_time, second, lookup,
}
use guard_dns.Prelude.Text.{Text, codes}
use guard_dns.Wire.{Component, DohUpstream, Snapshot}

pub record Plugin : Type 0 where
  pub snapshot : Snapshot
  pub received_at : ℕ

-- What a read from the socket brings: a datagram, read at a time, or an error.
pub data Read : Type 0 where
  datagram : List ℕ → (now : ℕ) → Read
  failed : Read

abbrev store : Option Snapshot → ℕ → Plugin → Plugin
store none now p = p
store (some s) now p = record p { snapshot = s; received_at = now }

-- The loop returns at the first error, and passes over what it cannot decode.
unfoldable pub read_loop : (List ℕ → Option Snapshot) → Plugin → List Read → Plugin
read_loop decode p [] = p
read_loop decode p (failed ∷ later) = p
read_loop decode p (datagram bytes now ∷ later) =
    read_loop decode (store (decode bytes) now p) later

unfoldable pub current_snapshot : ℕ → Plugin → Snapshot × ℕ
current_snapshot now p = (p.snapshot, sub_time now p.received_at)

abbrev pub status_ok : ℕ
status_ok = 200

abbrev pub status_service_unavailable : ℕ
status_service_unavailable = 503

-- The component is in the snapshot, enabled, and not up.
abbrev pub is_down : Option Component → Bool
is_down none = false
is_down (some c) = c.enabled && not c.up

unfoldable pub live_status : Snapshot → ℕ → ℕ × String
live_status s age =
    if s.timestamp == 0 || ltb_i64 (5 * second) age
    then (status_service_unavailable, "unhealthy: supervisor state is stale")
    else if is_down (lookup "mosdns" s.components)
    then (status_service_unavailable, "unhealthy: mosdns is restarting")
    else (status_ok, "ok")

unfoldable pub ready_status : Snapshot → ℕ → ℕ × String
unfolding live_status
ready_status s age =
    let liveness = live_status s age in
    if not (liveness.0 == status_ok)
    then liveness
    else if is_down (lookup "doh_bridge" s.components)
    then (status_service_unavailable, "unhealthy: encrypted DNS bridge is unavailable")
    else if is_down (lookup "unbound" s.components)
    then (status_ok, "degraded: unbound is restarting")
    else if is_down (lookup "unbound_recursive" s.components)
    then (status_ok, "degraded: CN classification resolver is restarting")
    else (status_ok, "ok")

pub record HttpResponse : Type 0 where
  pub status_code : ℕ
  pub body : Text

unfoldable pub write_status : ℕ × String → HttpResponse
write_status (status, message) = record { status_code = status; body = codes message ++ b'\n' ∷ [] }

unfoldable pub live : ℕ → Plugin → ℕ × String
unfolding live_status current_snapshot
live now p = let (s, age) = current_snapshot now p in live_status s age

unfoldable pub ready : ℕ → Plugin → ℕ × String
unfolding ready_status current_snapshot
ready now p = let (s, age) = current_snapshot now p in ready_status s age

pub record DependencyReport : Type 0 where
  pub status : String
  pub message : String
  pub timestamp : ℕ
  pub state_age : ℕ
  pub components : List (String × Component)
  pub doh_upstreams : List (String × DohUpstream)

-- The `switch` of `dependencies` on the message.
unfoldable pub status_word : String → String
status_word message =
    if starts_with message "unhealthy"
    then "unhealthy"
    else if starts_with message "degraded"
    then "degraded"
    else "ready"

unfoldable pub dependencies : ℕ → Plugin → DependencyReport
unfolding ready_status current_snapshot status_word
dependencies now p =
    let (s, age) = current_snapshot now p in
    let message = (ready_status s age).1 in
    record {
      status = status_word message;
      message = message;
      timestamp = s.timestamp;
      state_age = age;
      components = s.components;
      doh_upstreams = s.doh_upstreams;
    }
