-- ===== src/Config/Settings.antt =====
-- What `loadConfig` of cmd/guarddns/config.go makes of the environment.
use mathlib.Core.Path.{subst}
use guard_dns.Prelude.{
  ◌≢◌, ◌≡◌, refl, sym, ◌∙◌, true-false, ◌⊎◌, inl, inr, true, false, Option, none, some, [], arith,
  Bool-cases,
}
use guard_dns.Prelude.Text.{Text, codes, text_eq}
use guard_dns.Prelude.Text.{text_eq→≡, text_eq_iff}
use guard_dns.Config.{
  Config, Checked, accepted, rejected, parse_forward_endpoint, env_default, unbound_verbosity,
  with_endpoint, with_forward, load_config,
}
use guard_dns.Config.Endpoint.{parse-join}

-- The levels of the log, and how much Unbound logs at each.
abbrev pub IsLevel : Text → Text → Type 0
IsLevel level verbosity =
    ((level ≡ codes "debug") × (verbosity ≡ codes "3"))
    ⊎ ((level ≡ codes "info") × (verbosity ≡ codes "2"))
    ⊎ ((level ≡ codes "warn") × (verbosity ≡ codes "0"))
    ⊎ ((level ≡ codes "error") × (verbosity ≡ codes "0"))

-- Forwarding is off for the setting `no`, and for any other it is on, to an endpoint that would be
-- accepted again.
abbrev pub IsForward : Config → Type 0
IsForward cfg =
    ((cfg.auto_forward_raw ≡ codes "no") × (cfg.auto_enabled ≡ false) × (cfg.auto_dns ≡ []))
    ⊎ ((cfg.auto_forward_raw ≢ codes "no")
        × (cfg.auto_enabled ≡ true)
        × ((h : Text) × (p : Text) × (parse_forward_endpoint cfg.auto_forward_raw ≡ accepted (h, p))
            × (parse_forward_endpoint cfg.auto_dns ≡ accepted (h, p))))

verbosity-IsLevel : (level v : Text) → unbound_verbosity level ≡ some v → IsLevel level v
unfolding unbound_verbosity
verbosity-IsLevel level v e = ground (
  arith,
  text_eq→≡ level (codes "debug"),
  text_eq→≡ level (codes "info"),
  text_eq→≡ level (codes "warn"),
  text_eq→≡ level (codes "error"),
)

differs : (a b : Text) → text_eq a b ≡ false → a ≢ b
differs a b h e = true-false (sym ((text_eq_iff a b).1 e) ∙ h)

accepted_injective : {A : Type 0} {a b : A} → accepted a ≡ accepted b → a ≡ b
accepted_injective h = cc

with_endpoint-IsForward :
    (cfg : Config) (r : Checked (Text × Text)) {c : Config}
    → cfg.auto_forward_raw ≢ codes "no"
    → parse_forward_endpoint cfg.auto_forward_raw ≡ r
    → with_endpoint cfg r ≡ accepted c
    → IsForward c
with_endpoint-IsForward cfg (rejected e) other parsed h = cc
with_endpoint-IsForward cfg (accepted (host, port)) {c} other parsed h =
    let same = parse-join cfg.auto_forward_raw host port parsed in
    subst IsForward (accepted_injective h) (inr (other, refl, (host, port, parsed, same)))

-- The level and the setting of the configuration are these texts.
abbrev IsRead : Text → Text → Config → Type 0
IsRead raw level cfg =
    (cfg.log_level ≡ level) × IsLevel cfg.log_level cfg.unbound_log × (cfg.auto_forward_raw ≡ raw)

with_endpoint-IsRead :
    (raw level : Text) (cfg : Config) (r : Checked (Text × Text)) {c : Config}
    → IsRead raw level cfg
    → with_endpoint cfg r ≡ accepted c
    → IsRead raw level c
with_endpoint-IsRead raw level cfg (rejected e) known h = cc
with_endpoint-IsRead raw level cfg (accepted (host, port)) known h =
    subst (IsRead raw level) (accepted_injective h) known

with_forward_sound :
    (raw level : Text) (o : Option Text) {c : Config}
    → unbound_verbosity level ≡ o
    → with_forward raw level o ≡ accepted c
    → IsRead raw level c × IsForward c
with_forward_sound raw level none known h = cc
with_forward_sound raw level (some v) {c} known h =
    let cfg : Config = record {
      auto_forward_raw = raw;
      auto_enabled = false;
      auto_dns = [];
      log_level = level;
      unbound_log = v;
    } in
    let read : IsRead raw level cfg = (refl, verbosity-IsLevel level v known, refl) in
    elim (Bool-cases (text_eq raw (codes "no"))) [
      | inl off ↦
          let same = accepted_injective (rw off at h) in
          (
            subst (IsRead raw level) same read,
            subst IsForward same (inl (text_eq→≡ raw (codes "no") off, refl, refl)),
          )
      | inr on ↦
          let opened = rw on at h in
          (
            with_endpoint-IsRead raw level cfg (parse_forward_endpoint raw) read opened,
            with_endpoint-IsForward cfg (parse_forward_endpoint raw) (differs raw (codes "no") on)
                refl opened,
          )
    ]

-- A configuration that is accepted has the level and the setting of the environment, or else `warn` and
-- `no`; the level is one of four, and Unbound's follows from it. Its forwarding is off, with no endpoint,
-- if the setting is `no`; if it is any other, forwarding is on, and the setting and the endpoint stand for
-- the same host and port.
pub load_config_sound :
    (env : Text → Text) {cfg : Config}
    → load_config env ≡ accepted cfg
    → (cfg.log_level ≡ env_default env (codes "LOG_LEVEL") (codes "warn"))
      × IsLevel cfg.log_level cfg.unbound_log
      × (cfg.auto_forward_raw ≡ env_default env (codes "AUTO_FORWARD") (codes "no"))
      × IsForward cfg
unfolding load_config
load_config_sound env h =
    let level = env_default env (codes "LOG_LEVEL") (codes "warn") in
    let raw = env_default env (codes "AUTO_FORWARD") (codes "no") in
    let (read, forward) = with_forward_sound raw level (unbound_verbosity level) refl h in
    (read.0, read.1, read.2, forward)
