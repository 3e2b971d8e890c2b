-- ===== src/Supervisor/Lifecycle.antt =====
-- `initPlugin` and `Close` of internal/supervisorplugin/plugin.go: what is open, registered and on disk.
-- Whether a call of the system or of the registry succeeds is an argument.
use guard_dns.Prelude.{◌≡◌, refl, Bool, true, false, List, [], ◌∷◌, String, if◌then◌else◌}
use guard_dns.Prelude.Text.{Text, is_empty}

-- The host: the socket, its file, the collector, the loop that reads, and the paths with handlers.
pub record Host : Type 0 where
  pub listening : Bool
  pub socket_file : Bool
  pub registered : Bool
  pub reading : Bool
  pub routes : List String

abbrev pub blank_host : Bool → Host
blank_host file = record {
  listening = false;
  socket_file = file;
  registered = false;
  reading = false;
  routes = [];
}

pub record Calls : Type 0 where
  pub removes : Bool
  pub resolves : Bool
  pub listens : Bool
  pub chmods : Bool
  pub registers : Bool

pub data InitPlugin : Type 0 where
  running no_socket not_resolved not_listening not_chmoded not_registered : InitPlugin

abbrev pub route_names : List String
route_names = "/livez" ∷ "/readyz" ∷ "/healthz" ∷ "/dependencies" ∷ []

-- From the chmod on: an error closes the socket, whose file stays.
abbrev pub open_socket : Calls → Host → InitPlugin × Host
open_socket c h =
    if c.chmods
    then (if c.registers
        then (running, record h { registered = true; reading = true; routes = route_names })
        else (not_registered, record h { listening = false }))
    else (not_chmoded, record h { listening = false })

abbrev pub listen_socket : Calls → Host → InitPlugin × Host
listen_socket c h =
    if c.resolves
    then (if c.listens
        then open_socket c (record h { listening = true; socket_file = true })
        else (not_listening, h))
    else (not_resolved, h)

unfoldable pub init_plugin : Calls → Text → Host → InitPlugin × Host
init_plugin c socket h =
    if is_empty socket
    then (no_socket, h)
    else listen_socket c (record h { socket_file = if c.removes then false else h.socket_file })

-- `Close`: the read loop ends with the error of the closed socket.
unfoldable pub close : (removes : Bool) → Host → Host
close removes h = record h {
  registered = false;
  listening = false;
  reading = false;
  socket_file = if removes then false else h.socket_file;
}

abbrev pub IsReleased : Host → Type 0
IsReleased h = (h.listening ≡ false) × (h.registered ≡ false) × (h.reading ≡ false)

-- The result and what it leaves: all that the plugin needs, or nothing that is open.
abbrev pub Leaves : InitPlugin → Host → Type 0
Leaves running h =
    (h.listening ≡ true) × (h.registered ≡ true) × (h.reading ≡ true) × (h.routes ≡ route_names)
Leaves _ h = IsReleased h

choose-Leaves :
    (b : Bool) (x y : InitPlugin × Host)
    → Leaves x.0 x.1
    → Leaves y.0 y.1
    → Leaves (if b then x else y).0 (if b then x else y).1
choose-Leaves true x y h k = h
choose-Leaves false x y h k = k

-- On a host where the plugin has nothing open, initPlugin either runs, with the socket open, the
-- collector registered and the loop reading, or it fails, and then nothing is left open, registered or
-- reading; and closing what runs leaves nothing of it, and no file of the socket if that can be removed.
pub init_plugin-Leaves :
    (c : Calls) (socket : Text) (file removes : Bool)
    → let x = init_plugin c socket (blank_host file) in
      Leaves x.0 x.1 × IsReleased (close removes x.1) × ((close true x.1).socket_file ≡ false)
unfolding init_plugin close
init_plugin-Leaves c socket file removes = (
  choose-Leaves (is_empty socket) _ _ (refl, refl, refl)
      (choose-Leaves c.resolves _ _
        (choose-Leaves c.listens _ _
          (choose-Leaves c.chmods _ _
            (choose-Leaves c.registers _ _ (refl, refl, refl, refl) (refl, refl, refl))
            (refl, refl, refl))
          (refl, refl, refl))
        (refl, refl, refl)),
  (refl, refl, refl),
  refl,
)
