-- ===== src/Listener/Start.antt =====
-- `initPlugin` and `cancellationCounter` of internal/tcpserverplugin/server.go. MosDNS, the metrics
-- registry, the certificate and the socket are in the environment, as what they answer.
use guard_dns.Prelude.{
  true-false, ℕ, ◌*◌, ◌≡◌, ◌↔◌, refl, sym, ap, ◌∙◌, Bool, true, false, not, ◌&&◌, ◌||◌, [], arith,
  Bool-cases, inl, inr, leb_i64, second, wrap64, if◌then◌else◌, if_true, if_false,
}
use guard_dns.Prelude.Text.{Text, codes, is_empty, starts_at}
use guard_dns.Prelude.Counters.{Counters}
use guard_dns.Prelude.Registry.{Registration, fresh, existing, other_collector, refused}

pub record Args : Type 0 where
  pub entry : Text
  pub listen : Text
  pub cert : Text
  pub key : Text
  pub idle_timeout : ℕ  -- an `int`

pub record Env : Type 0 where
  pub is_executable : Text → Bool
  pub registration : Registration
  pub loads_cert : Text → Text → Bool
  pub listens : Text → Text → Bool

pub record Server : Type 0 where
  pub network : Text
  pub address : Text
  pub tls : Bool
  pub idle : ℕ  -- a `time.Duration`
  pub events : Counters

pub data Start : Type 0 where
  started : Server → Start
  no_entry : Text → Start
  no_metric incompatible_metric no_certificate no_listener : Start

abbrev default_listen : Text
default_listen = codes "127.0.0.1:53"

abbrev pub with_defaults : Args → Args
with_defaults args = record args {
  listen = if is_empty args.listen then default_listen else args.listen;
  idle_timeout = if leb_i64 args.idle_timeout 0 then 10 else args.idle_timeout;
}

abbrev pub network_of : Text → Text
network_of listen = if starts_at b'@' listen then codes "unix" else codes "tcp"

abbrev pub wants_tls : Args → Bool
wants_tls args = not (is_empty args.key) || not (is_empty args.cert)

abbrev pub server_at : Args → Counters → Server
server_at args events = record {
  network = network_of args.listen;
  address = args.listen;
  tls = wants_tls args;
  idle = wrap64 (args.idle_timeout * second);
  events = events;
}

-- The end of `initPlugin`, from the certificate on.
abbrev pub listen_at : Env → Args → Counters → Start
listen_at env args events =
    if wants_tls args && not (env.loads_cert args.cert args.key)
    then no_certificate
    else if not (env.listens (network_of args.listen) args.listen)
    then no_listener
    else started (server_at args events)

-- `cancellationCounter`, and what `initPlugin` does with its result.
abbrev pub with_counter : Registration → (Counters → Start) → Start
with_counter fresh next = next []
with_counter (existing events) next = next events
with_counter other_collector next = incompatible_metric
with_counter refused next = no_metric

unfoldable pub init_plugin : Env → Args → Start
init_plugin env raw =
    let args = with_defaults raw in
    if not (env.is_executable args.entry)
    then no_entry args.entry
    else with_counter env.registration (listen_at env args)

-- What a started server is told, of its arguments and of the counter it was given.
abbrev pub server_of : Args → Counters → Server
server_of args events = record {
  network = if starts_at b'@' args.listen then codes "unix" else codes "tcp";
  address = if is_empty args.listen then default_listen else args.listen;
  tls = not (is_empty args.key && is_empty args.cert);
  idle = if leb_i64 args.idle_timeout 0 then 10 * second else wrap64 (args.idle_timeout * second);
  events = events;
}

abbrev pub IsReady : Env → Args → Type 0
IsReady env args =
    let address = if is_empty args.listen then default_listen else args.listen in
    let network = if starts_at b'@' args.listen then codes "unix" else codes "tcp" in
    (env.is_executable args.entry ≡ true)
    × ((is_empty args.key && is_empty args.cert || env.loads_cert args.cert args.key) ≡ true)
    × (env.listens network address ≡ true)

abbrev pub Gives : Registration → Counters → Type 0
Gives fresh events = events ≡ []
Gives (existing kept) events = events ≡ kept
Gives other_collector events = ⊥
Gives refused events = ⊥

started-injective : {s t : Server} → started s ≡ started t → s ≡ t
started-injective h = cc

no_entry-started : {t : Text} {s : Server} → no_entry t ≡ started s → ⊥
no_entry-started h = cc

chosen_iff :
    (bad closed : Bool) (s t : Server)
    → (if◌then◌else◌ {A = Start} bad no_certificate (if closed then no_listener else started t)
        ≡ started s)
      ↔ ((bad ≡ false) × (closed ≡ false) × (s ≡ t))
chosen_iff true closed s t = (λ h. cc, λ h. cc)
chosen_iff false true s t = (λ h. cc, λ h. cc)
chosen_iff false false s t =
    (λ h. (refl, refl, sym (started-injective h)), λ h. ap started (sym h.2))

network-default :
    (args : Args)
    → network_of (with_defaults args).listen
      ≡ (if starts_at b'@' args.listen then codes "unix" else codes "tcp")
network-default args = ground arith

server-default :
    (args : Args) (events : Counters)
    → server_at (with_defaults args) events ≡ server_of args events
server-default args events = ground arith

cert_iff : (k c l : Bool) → (((not k || not c) && not l) ≡ false) ↔ ((k && c || l) ≡ true)
cert_iff k c l = ground arith

not_iff : (b : Bool) → (not b ≡ false) ↔ (b ≡ true)
not_iff b = ground arith

listen_at_iff :
    (env : Env) (args : Args) (events : Counters) (s : Server)
    → env.is_executable args.entry ≡ true
    → (listen_at env (with_defaults args) events ≡ started s)
      ↔ (IsReady env args × (s ≡ server_of args events))
listen_at_iff env args events s h =
    let full = with_defaults args in
    let loads = env.loads_cert args.cert args.key in
    let opens = env.listens (network_of full.listen) full.listen in
    let chosen = chosen_iff (wants_tls args && not loads) (not opens) s (server_at full events) in
    let cert = cert_iff (is_empty args.key) (is_empty args.cert) loads in
    let opened = not_iff opens in
    let network = ap (λ n. env.listens n full.listen) (network-default args) in
    let server = server-default args events in
    (
      λ e.
          (let (fine, listening, same) = chosen.0 e in
            ((h, cert.0 fine, sym network ∙ opened.0 listening), same ∙ server)),
      λ r. chosen.1 (cert.1 r.0.1, opened.1 (network ∙ r.0.2), r.1 ∙ sym server),
    )

with_counter_iff :
    (r : Registration) (next : Counters → Start) (s : Server)
    → (with_counter r next ≡ started s)
      ↔ ((events : Counters) × Gives r events × (next events ≡ started s))
with_counter_iff fresh next s = (λ h. ([], refl, h), λ (events, e, h). ap next (sym e) ∙ h)
with_counter_iff (existing kept) next s =
    (λ h. (kept, refl, h), λ (events, e, h). ap next (sym e) ∙ h)
with_counter_iff other_collector next s = (λ h. cc, λ (events, e, h). elim e [ ])
with_counter_iff refused next s = (λ h. cc, λ (events, e, h). elim e [ ])

-- The plugin starts a server exactly where its entry is executable, the counter can be had, the
-- certificate loads if a key or a certificate is named, and the listener opens at the address that is
-- given, or at 127.0.0.1:53 if none is. It is a Unix socket where that begins with "@", the server
-- speaks TLS where a key or a certificate is named, its idle timeout is ten seconds unless a positive
-- number of seconds is given, and its counts go on from those of a counter that was there before.
pub init_plugin_iff :
    (env : Env) (args : Args) (s : Server)
    → (init_plugin env args ≡ started s) ↔ (
        (events : Counters) × Gives env.registration events
        × IsReady env args
        × (s ≡ server_of args events))
unfolding init_plugin
init_plugin_iff env args s = elim (Bool-cases (env.is_executable args.entry)) [
  | inl entry ↦
      let next = listen_at env (with_defaults args) in
      let counter = with_counter_iff env.registration next s in
      let begin : init_plugin env args ≡ with_counter env.registration next =
        if_false (not (env.is_executable args.entry)) _ _ (ap not entry) in
      (
        λ h.
            (let (events, given, e) = counter.0 (sym begin ∙ h) in
              let (ready, same) = (listen_at_iff env args events s entry).0 e in
              (events, given, ready, same)),
        λ (events, given, ready, same).
            begin
            ∙ counter.1 (events, given, (listen_at_iff env args events s entry).1 (ready, same)),
      )
  | inr missing ↦
      let begin : init_plugin env args ≡ no_entry args.entry =
        if_true (not (env.is_executable args.entry)) _ _ (ap not missing) in
      (
        λ h. elim (no_entry-started (sym begin ∙ h)) [ ],
        λ (events, given, ready, same). elim (true-false (sym ready.0 ∙ missing)) [ ],
      )
]
