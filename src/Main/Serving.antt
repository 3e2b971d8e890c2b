-- ===== src/Main/Serving.antt =====
-- When the program of cmd/guarddns/main.go serves, and how it ends when it does not.
use mathlib.Core.List.{append-nil}
use guard_dns.Prelude.{
  ℕ, ◌≡◌, refl, ap, sym, ◌∙◌, ◌⊎◌, ◌↔◌, inl, inr, Bool, true, false, ◌&&◌, ◌||◌, List, [], ◌∷◌,
  ◌++◌, String, Bool-cases,
}
use guard_dns.Prelude.Text.{Text, codes, text_eq}
use guard_dns.State.{RuntimeState, new_runtime_state}
use guard_dns.Config.{Config, ConfigError, Checked, accepted, rejected, load_config}
use guard_dns.Config.Files.{Fs, Attempt, StartError, done, broke}
use guard_dns.Config.Runtime.{prepare_runtime}
use guard_dns.Config.Settings.{IsLevel, load_config_sound}
use guard_dns.Doh.Exchange.{Upstream}
use guard_dns.Doh.Upstreams.{select_doh_upstreams}
use guard_dns.Doh.Lifecycle.{open_sockets, start_doh_bridge}
use guard_dns.Child.Wait.{Waited, ready, interrupted, timed_out}
use guard_dns.Main.{
  World, Level, info_level, warn_level, Action, sends_state, starts_bridge, supervises, waits_for,
  logs, Exit, exits, serves, prints, new_logger, logged, waited, announced, serving, with_config,
  with_runtime, with_bridge, is_quiet, run_main,
}

abbrev pub Fails : Fs × Attempt (Unit {0}) → Type 0
Fails x = (e : StartError) × (x.1 ≡ broke e)

-- Whether the children that are put under supervision, in turn, have their start notices suppressed.
abbrev pub supervised : List Action → List (String × Bool)
supervised [] = []
supervised (supervises child suppress ∷ actions) = (child, suppress) ∷ supervised actions
supervised (sends_state ∷ actions) = supervised actions
supervised (starts_bridge ∷ actions) = supervised actions
supervised (waits_for address ∷ actions) = supervised actions
supervised (logs level ∷ actions) = supervised actions

-- What the program has come to, with which files and after which actions: it serves, or it ends with a
-- code.
abbrev pub Comes : World → Exit → Fs → List Action → Type 0
Comes w serves fs actions =
    (cfg : Config) × (load_config w.env ≡ accepted cfg)
    × (prepare_runtime w.os cfg w.fs ≡ (fs, done tt))
    × ((w.listens_udp && w.listens_tcp) ≡ true)
    × ((quiet : Bool) × (supervised actions
          ≡ ("unbound", quiet) ∷ ("unbound_recursive", quiet) ∷ ("mosdns", false) ∷ [])
        × ((quiet ≡ true) ↔ (cfg.unbound_log ≡ codes "0")))
Comes w (exits code) fs actions =
    (supervised actions ≡ [])
    × (((code ≡ 2) × (fs ≡ w.fs) × ((e : ConfigError) × (load_config w.env ≡ rejected e)))
        ⊎ ((code ≡ 1)
            × ((cfg : Config) × (load_config w.env ≡ accepted cfg)
                × (Fails (prepare_runtime w.os cfg w.fs)
                    ⊎ ((w.listens_udp && w.listens_tcp) ≡ false)))))

quiet_iff :
    (level verbosity : Text)
    → IsLevel level verbosity
    → ((text_eq level (codes "warn") || text_eq level (codes "error")) ≡ true)
      ↔ (verbosity ≡ codes "0")
quiet_iff level verbosity (inl (l, v)) = rw (l, v) (λ h. cc, λ h. cc)
quiet_iff level verbosity (inr (inl (l, v))) = rw (l, v) (λ h. cc, λ h. cc)
quiet_iff level verbosity (inr (inr (inl (l, v)))) = rw (l, v) (λ h. refl, λ h. refl)
quiet_iff level verbosity (inr (inr (inr (l, v)))) = rw (l, v) (λ h. refl, λ h. refl)

supervised-logged :
    (threshold : ℕ) (level : Level) (actions : List Action)
    → supervised (logged threshold level ++ actions) ≡ supervised actions
supervised-logged threshold level actions = elim (Bool-cases (prints threshold level)) [
  | inl shown ↦ rw shown refl
  | inr hidden ↦ rw hidden refl
]

supervised-waited :
    (threshold : ℕ) (r : Waited) (actions : List Action)
    → supervised (waited threshold r ++ actions) ≡ supervised actions
supervised-waited threshold ready actions = refl
supervised-waited threshold interrupted actions = supervised-logged threshold warn_level actions
supervised-waited threshold timed_out actions = supervised-logged threshold warn_level actions

supervised-announced : (threshold : ℕ) (r : Waited) → supervised (announced threshold r) ≡ []
supervised-announced threshold ready =
    ap supervised (sym (append-nil (logged threshold info_level)))
    ∙ supervised-logged threshold info_level []
supervised-announced threshold interrupted =
    ap supervised (sym (append-nil (logged threshold warn_level)))
    ∙ supervised-logged threshold warn_level []
supervised-announced threshold timed_out =
    ap supervised (sym (append-nil (logged threshold warn_level)))
    ∙ supervised-logged threshold warn_level []

-- The waits and the log lines between them put no child under supervision.
supervised-serving :
    (w : World) (cfg : Config)
    → supervised (serving w cfg)
      ≡ ("unbound", is_quiet cfg) ∷ ("unbound_recursive", is_quiet cfg) ∷ ("mosdns", false) ∷ []
supervised-serving w cfg =
    let threshold = new_logger cfg.log_level in
    ap (λ xs. ("unbound", is_quiet cfg) ∷ ("unbound_recursive", is_quiet cfg) ∷ xs)
      (supervised-waited threshold (w.waits "127.0.0.1:5306") _
        ∙ supervised-waited threshold (w.waits "127.0.0.1:5305") _
        ∙ ap (λ xs. ("mosdns", false) ∷ xs)
            (supervised-announced threshold (w.waits "127.0.0.1:53")))

bridge-Comes :
    (w : World) (cfg : Config) (fs : Fs) (udp tcp : Bool) (selected : List Upstream × RuntimeState)
    → w.listens_udp ≡ udp
    → w.listens_tcp ≡ tcp
    → load_config w.env ≡ accepted cfg
    → prepare_runtime w.os cfg w.fs ≡ (fs, done tt)
    → let x = with_bridge w cfg fs (open_sockets udp tcp selected).0 in
      Comes w x.exit x.fs x.actions
bridge-Comes w cfg fs true true selected u t e p = (
  cfg,
  e,
  p,
  ap (λ b. b && w.listens_tcp) u ∙ t,
  (
    is_quiet cfg,
    supervised-serving w cfg,
    quiet_iff cfg.log_level cfg.unbound_log (load_config_sound w.env e).1,
  ),
)
bridge-Comes w cfg fs true false selected u t e p =
    (refl, inr (refl, (cfg, e, inr (ap (λ b. b && w.listens_tcp) u ∙ t))))
bridge-Comes w cfg fs false tcp selected u t e p =
    (refl, inr (refl, (cfg, e, inr (ap (λ b. b && w.listens_tcp) u))))

runtime-Comes :
    (w : World) (cfg : Config) (x : Fs × Attempt (Unit {0}))
    → load_config w.env ≡ accepted cfg
    → prepare_runtime w.os cfg w.fs ≡ x
    → let y = with_runtime w cfg x in Comes w y.exit y.fs y.actions
unfolding start_doh_bridge
runtime-Comes w cfg (fs, broke error) e p =
    (refl, inr (refl, (cfg, e, inl (error, ap (λ z. z.1) p))))
runtime-Comes w cfg (fs, done u) e p =
    let selected =
      select_doh_upstreams w.probe_query w.probes cfg.auto_enabled cfg.auto_dns new_runtime_state in
    bridge-Comes w cfg fs w.listens_udp w.listens_tcp selected refl refl e p

config-Comes :
    (w : World) (c : Checked Config)
    → load_config w.env ≡ c
    → let y = with_config w c in Comes w y.exit y.fs y.actions
config-Comes w (rejected error) e = (refl, inl (refl, refl, (error, e)))
config-Comes w (accepted cfg) e = runtime-Comes w cfg (prepare_runtime w.os cfg w.fs) e refl

-- Without a command the program serves only with a configuration that was accepted, files that were
-- prepared from it, and both listeners of the bridge open, and then it has put the two Unbounds and MosDNS
-- under supervision, in that order and nothing else: both Unbounds with their start notices suppressed
-- if their verbosity is 0, and with them shown if it is not, and MosDNS with them shown. Otherwise it ends
-- with no child under supervision: with code 2 and no file changed where the configuration is rejected,
-- and with code 1 where the preparation fails or a listener does not open.
pub run_main-Comes :
    (w : World) (program : Text)
    → let x = run_main w (program ∷ []) in Comes w x.exit x.fs x.actions
unfolding run_main
run_main-Comes w program = config-Comes w (load_config w.env) refl
