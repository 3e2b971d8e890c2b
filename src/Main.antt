-- ===== src/Main.antt =====
-- The supervisor program, cmd/guarddns/main.go, and its logger, cmd/guarddns/logger.go: how the parts
-- are started, and with what code the program ends.
pub mod Serving
pub mod Tests
use guard_dns.Prelude.{
  ℕ, Bool, true, false, not, ◌&&◌, ◌||◌, List, [], ◌∷◌, ◌++◌, String, leb, if◌then◌else◌,
}
use guard_dns.Prelude.Text.{Text, codes, text_eq}
use guard_dns.State.{RuntimeState, new_runtime_state}
use guard_dns.Config.{Config, Checked, accepted, rejected, load_config}
use guard_dns.Config.Files.{Fs, Os, Attempt, done, broke}
use guard_dns.Config.Runtime.{prepare_runtime}
use guard_dns.Dns.{Msg}
use guard_dns.Doh.Exchange.{Env}
use guard_dns.Doh.Lifecycle.{StartBridge, bridging, start_doh_bridge}
use guard_dns.Child.Wait.{Waited, ready}
use guard_dns.Health.{Get, Exchange, Health, healthy, run_healthcheck}

pub data Level : Type 0 where
  info_level warn_level error_level : Level

-- `newLogger`: its threshold.
unfoldable pub new_logger : Text → ℕ
new_logger level =
    if text_eq level (codes "debug")
    then 0
    else if text_eq level (codes "info")
    then 1
    else if text_eq level (codes "warn")
    then 2
    else if text_eq level (codes "error")
    then 3
    else 2

-- Whether `infof`, `warnf` or `errorf` prints.
abbrev pub prints : ℕ → Level → Bool
prints threshold info_level = leb threshold 1
prints threshold warn_level = leb threshold 2
prints threshold error_level = true

-- What `main` does, in turn.
pub data Action : Type 0 where
  sends_state : Action
  starts_bridge : Action
  supervises : (child : String) → (suppress_startup_info : Bool) → Action
  waits_for : (address : String) → Action
  logs : Level → Action

-- How it goes on: it ends with a code, or serves until it is told to stop.
pub data Exit : Type 0 where
  exits : ℕ → Exit
  serves : Exit

-- What the program finds when it runs.
pub record World : Type 0 where
  pub env : Text → Text
  pub os : Os
  pub fs : Fs
  pub probe_query : Msg
  pub probes : String → Env  -- what the probe of each upstream meets
  pub listens_udp : Bool
  pub listens_tcp : Bool
  pub waits : String → Waited
  pub supervisor : Get
  pub dns : Exchange

pub record Ran : Type 0 where
  pub exit : Exit
  pub fs : Fs
  pub actions : List Action

-- A line that the logger prints, or none.
abbrev pub logged : ℕ → Level → List Action
logged threshold level = if prints threshold level then logs level ∷ [] else []

abbrev pub waited : ℕ → Waited → List Action
waited threshold ready = []
waited threshold _ = logged threshold warn_level

abbrev pub announced : ℕ → Waited → List Action
announced threshold ready = logged threshold info_level
announced threshold _ = logged threshold warn_level

abbrev pub is_quiet : Config → Bool
is_quiet cfg = text_eq cfg.log_level (codes "warn") || text_eq cfg.log_level (codes "error")

-- The part from the bridge on, when it has started.
abbrev pub serving : World → Config → List Action
serving w cfg =
    let threshold = new_logger cfg.log_level in
    supervises "unbound" (is_quiet cfg)
    ∷ supervises "unbound_recursive" (is_quiet cfg)
    ∷ waits_for "127.0.0.1:5306"
    ∷ (waited threshold (w.waits "127.0.0.1:5306")
        ++ waits_for "127.0.0.1:5305"
          ∷ (waited threshold (w.waits "127.0.0.1:5305")
              ++ supervises "mosdns" false
                ∷ waits_for "127.0.0.1:53"
                ∷ announced threshold (w.waits "127.0.0.1:53")))

abbrev pub with_bridge : World → Config → Fs → StartBridge → Ran
with_bridge w cfg fs (bridging resolvers) = record {
  exit = serves;
  fs = fs;
  actions = sends_state ∷ starts_bridge ∷ serving w cfg;
}
with_bridge w cfg fs _ = record {
  exit = exits 1;
  fs = fs;
  actions = sends_state ∷ starts_bridge ∷ logs error_level ∷ [];
}

abbrev pub with_runtime : World → Config → Fs × Attempt (Unit {0}) → Ran
with_runtime w cfg (fs, broke e) = record {
  exit = exits 1;
  fs = fs;
  actions = logs error_level ∷ [];
}
with_runtime w cfg (fs, done _) =
    let (result, bridge, state) =
      start_doh_bridge w.probe_query w.probes cfg.auto_enabled cfg.auto_dns w.listens_udp
        w.listens_tcp new_runtime_state in
    with_bridge w cfg fs result

abbrev pub with_config : World → Checked Config → Ran
with_config w (rejected e) = record { exit = exits 2; fs = w.fs; actions = [] }
with_config w (accepted cfg) = with_runtime w cfg (prepare_runtime w.os cfg w.fs)

abbrev ended : World → ℕ → Ran
ended w code = record { exit = exits code; fs = w.fs; actions = [] }

abbrev code_of : Health → ℕ
code_of healthy = 0
code_of _ = 1

-- `main`, on `os.Args`.
unfoldable pub run_main : World → List Text → Ran
unfolding load_config prepare_runtime start_doh_bridge run_healthcheck new_logger
run_main w [] = ended w 2
run_main w (program ∷ []) = with_config w (load_config w.env)
run_main w (program ∷ command ∷ []) =
    if text_eq command (codes "version")
    then ended w 0
    else if text_eq command (codes "healthcheck")
    then ended w (code_of (run_healthcheck w.supervisor w.dns))
    else ended w 2
run_main w (program ∷ command ∷ more ∷ rest) = ended w 2
