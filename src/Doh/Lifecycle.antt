-- ===== src/Doh/Lifecycle.antt =====
-- The start and the end of the bridge of cmd/guarddns/dohbridge.go, and what it tells the supervisor's
-- state. The two servers are those of the DNS library; its sockets are open or not.
use guard_dns.Prelude.{
  ◌≡◌, refl, sym, ap, ◌∙◌, Bool, true, false, not, ◌&&◌, ◌||◌, List, [], ◌∷◌, All, Bool-cases, inl,
  inr, if◌then◌else◌, arith, String,
}
use guard_dns.Prelude.Text.{Text}
use guard_dns.Wire.{Component}
use guard_dns.Dns.{Msg}
use guard_dns.Doh.Exchange.{Upstream, Env}
use guard_dns.Doh.Upstreams.{select_doh_upstreams}
use guard_dns.Doh.Upstreams.Frame.{select_doh_upstreams-components}
use guard_dns.State.{RuntimeState, update}
use guard_dns.State.Counts.{Change, changed}
use guard_dns.Child.Shown.{shown, shown-update, shown-changed, Apart}

-- The bridge: which of its sockets are open, and whether `close` has run.
pub record Bridge : Type 0 where
  pub udp : Bool
  pub tcp : Bool
  pub closed : Bool

pub data Network : Type 0 where
  on_udp on_tcp : Network

pub data StartBridge : Type 0 where
  bridging : (resolvers : List Upstream) → StartBridge
  no_udp no_tcp : StartBridge

abbrev pub bridge_up : Component → Component
bridge_up c = record c { up = true }

abbrev pub bridge_down : Component → Component
bridge_down c = record c { up = false }

-- The part of `startDoHBridge` that opens the sockets, behind the selection of the upstreams.
abbrev pub open_sockets :
    (listens_udp listens_tcp : Bool)
    → List Upstream × RuntimeState
    → StartBridge × Bridge × RuntimeState
open_sockets false listens_tcp (us, s) =
    (no_udp, record { udp = false; tcp = false; closed = false }, s)
open_sockets true false (us, s) = (no_tcp, record { udp = false; tcp = false; closed = false }, s)
open_sockets true true (us, s) = (
  bridging us,
  record { udp = true; tcp = true; closed = false },
  update "doh_bridge" bridge_up s,
)

-- The result of `startDoHBridge`, the sockets and the state that it leaves.
unfoldable pub start_doh_bridge :
    (probe_query : Msg)
    → (String → Env)
    → (auto_enabled : Bool) → (auto_dns : Text) → (listens_udp listens_tcp : Bool) → RuntimeState
    → StartBridge × Bridge × RuntimeState
unfolding select_doh_upstreams
start_doh_bridge probe_query env auto_enabled auto_dns listens_udp listens_tcp s =
    let selected = select_doh_upstreams probe_query env auto_enabled auto_dns s in
    open_sockets listens_udp listens_tcp selected

-- `close`, of which only the first run does something.
abbrev pub close_bridge : Bridge → Bridge
close_bridge b = if b.closed then b else record { udp = false; tcp = false; closed = true }

-- The bridge with its context (`done`) and the state.
pub record Running : Type 0 where
  pub bridge : Bridge
  pub done : Bool
  pub state : RuntimeState

-- What happens next: a server returns, with an error or not; the context ends; the goroutine that
-- waits for that goes on; `main` closes the bridge; or another goroutine changes the state.
pub data Turn : Type 0 where
  stops : Network → (failed : Bool) → Turn
  cancelled : Turn
  shuts : Turn
  closes : Turn
  other : Change → Turn

abbrev stopped : Network → Bridge → Bridge
stopped on_udp b = record b { udp = false }
stopped on_tcp b = record b { tcp = false }

unfoldable pub take_turn : Turn → Running → Running
take_turn (stops network failed) r = record r {
  bridge = stopped network r.bridge;
  state = if failed && not r.done then update "doh_bridge" bridge_down r.state else r.state;
}
take_turn cancelled r = record r { done = true }
take_turn shuts r =
    if r.done
    then record r {
      bridge = close_bridge r.bridge;
      state = update "doh_bridge" bridge_down r.state;
    }
    else r
take_turn closes r = record r { bridge = close_bridge r.bridge }
take_turn (other x) r = record r { state = changed r.state x }

unfoldable pub take_turns : List Turn → Running → Running
unfolding take_turn
take_turns [] r = r
take_turns (t ∷ ts) r = take_turns ts (take_turn t r)

-- A server has failed while the context had not ended, or the context has ended and the goroutine
-- that waits for that has gone on.
abbrev pub is_over : (done : Bool) → List Turn → Bool
is_over done [] = false
is_over done (stops network failed ∷ ts) = failed && not done || is_over done ts
is_over done (cancelled ∷ ts) = is_over true ts
is_over done (shuts ∷ ts) = done || is_over done ts
is_over done (closes ∷ ts) = is_over done ts
is_over done (other x ∷ ts) = is_over done ts

-- The other goroutines change no component of that name.
abbrev pub ApartTurn : Turn → Type 0
ApartTurn (other x) = Apart "doh_bridge" x
ApartTurn _ = Unit

abbrev up_in : RuntimeState → Bool
up_in s = (shown "doh_bridge" s).up

up_in-down : (s : RuntimeState) → up_in (update "doh_bridge" bridge_down s) ≡ false
up_in-down s = ap (λ (c : Component). c.up) (shown-update "doh_bridge" bridge_down s)

and_true : (b : Bool) → b ≡ b && true
and_true true = refl
and_true false = refl

and_false : (b : Bool) → (b && false) ≡ false
and_false true = refl
and_false false = refl

turns-up :
    (ts : List Turn) (r : Running)
    → All ApartTurn ts
    → up_in (take_turns ts r).state ≡ up_in r.state && not (is_over r.done ts)
unfolding take_turns take_turn
turns-up [] r a = and_true (up_in r.state)
turns-up (stops network failed ∷ ts) r a =
    let s = if failed && not r.done then update "doh_bridge" bridge_down r.state else r.state in
    let later = turns-up ts (record r { bridge = stopped network r.bridge; state = s }) a.1 in
    ground (arith, later, up_in-down r.state)
turns-up (cancelled ∷ ts) r a = turns-up ts (record r { done = true }) a.1
turns-up (shuts ∷ ts) r a = elim (Bool-cases r.done) [
  | inl ended ↦
      let down : Running = record {
        bridge = close_bridge r.bridge;
        done = true;
        state = update "doh_bridge" bridge_down r.state;
      } in
      let later = turns-up ts down a.1 in
      rw ended (
        later
        ∙ ap (λ b. b && not (is_over true ts)) (up_in-down r.state)
        ∙ sym (and_false (up_in r.state)))
  | inr early ↦ rw early (turns-up ts (record r { done = false }) a.1)
]
turns-up (closes ∷ ts) r a = turns-up ts (record r { bridge = close_bridge r.bridge }) a.1
turns-up (other x ∷ ts) r a =
    turns-up ts (record r { state = changed r.state x }) a.1
    ∙ ap (λ (c : Component). c.up && not (is_over r.done ts))
        (shown-changed "doh_bridge" x r.state a.0)

abbrev pub IsShut : Bridge → Type 0
IsShut b = (b.udp ≡ false) × (b.tcp ≡ false)

-- What the start of the bridge, from the state `old` and with these upstreams selected, and all that
-- follows show in the state.
abbrev pub Shows :
    (listens_udp listens_tcp : Bool) (old : RuntimeState) (selected : List Upstream × RuntimeState)
    → StartBridge
    → Bridge
    → RuntimeState
    → List Turn
    → Type 0
Shows listens_udp listens_tcp old selected (bridging us) b s ts =
    ((listens_udp && listens_tcp) ≡ true)
    × (us ≡ selected.0)
    × ((shown "doh_bridge"
          (take_turns ts (record { bridge = b; done = false; state = s })).state).up
        ≡ not (is_over false ts))
Shows listens_udp listens_tcp old selected no_udp b s ts =
    (listens_udp ≡ false) × IsShut b × (s ≡ selected.1) × (s.components ≡ old.components)
Shows listens_udp listens_tcp old selected no_tcp b s ts =
    ((listens_udp ≡ true) × (listens_tcp ≡ false))
    × IsShut b
    × (s ≡ selected.1)
    × (s.components ≡ old.components)

sockets-Shows :
    (listens_udp listens_tcp : Bool) (old : RuntimeState) (selected : List Upstream × RuntimeState)
    (ts : List Turn)
    → selected.1.components ≡ old.components
    → All ApartTurn ts
    → let (result, bridge, state) = open_sockets listens_udp listens_tcp selected in
      Shows listens_udp listens_tcp old selected result bridge state ts
sockets-Shows false listens_tcp old selected ts kept a = (refl, (refl, refl), refl, kept)
sockets-Shows true false old selected ts kept a = ((refl, refl), (refl, refl), refl, kept)
sockets-Shows true true old (us, s) ts kept a =
    let b : Bridge = record { udp = true; tcp = true; closed = false } in
    (
      refl,
      refl,
      turns-up ts (record { bridge = b; done = false; state = update "doh_bridge" bridge_up s }) a
          ∙ ap (λ (c : Component). c.up && not (is_over false ts))
              (shown-update "doh_bridge" bridge_up s),
    )

-- The bridge starts exactly where both sockets open. Where one does not, no socket is left open, and the
-- state is the one that the selection of the upstreams with its probes leaves, which has the components
-- of before. A bridge that starts has the upstreams that were selected, is shown as up, and stays so,
-- whatever the other goroutines do to other components, until a server fails while the context has not
-- ended, or the goroutine that waits for the context has gone on after it ended; from then on it is
-- shown as down.
pub bridge_shown :
    (probe_query : Msg) (env : String → Env) (auto_enabled : Bool) (auto_dns : Text)
    (listens_udp listens_tcp : Bool) (s : RuntimeState) (ts : List Turn)
    → All ApartTurn ts
    → let (result, bridge, state) =
        start_doh_bridge probe_query env auto_enabled auto_dns listens_udp listens_tcp s in
      Shows listens_udp listens_tcp s
        (select_doh_upstreams probe_query env auto_enabled auto_dns s)
        result
        bridge
        state
        ts
unfolding start_doh_bridge
bridge_shown probe_query env auto_enabled auto_dns listens_udp listens_tcp s ts a =
    sockets-Shows listens_udp listens_tcp s
      (select_doh_upstreams probe_query env auto_enabled auto_dns s) ts
      (select_doh_upstreams-components probe_query env auto_enabled auto_dns s) a
