-- ===== src/Config/Stages.antt =====
-- The stages of `prepareRuntime` in cmd/guarddns/config.go, and what each part of it from a stage on
-- leaves alone.
use text.Mathlib.Text.{◌==◌ as str_eq}
use guard_dns.Prelude.{◌≡◌, false, List, [], ◌∷◌, String}
use guard_dns.Prelude.Text.{codes}
use guard_dns.Config.{Config}
use guard_dns.Config.Files.{Os, Io, ◌>>◌}
use guard_dns.Config.Runtime.{
  prepare_domain_lists, domain_lists, data_dir, config_dir, join_path, install_anchor, render,
  render_foreign, remove_pids, check_configs, verbosity_mark, unbound_runtime_config,
  unbound_recursive_runtime_config, mosdns_runtime_config, foreign_runtime_config, runtime_dir,
  unbound_runtime_dir, unbound_recursive_runtime_dir,
}
use guard_dns.Config.Frame.{
  Keeps, Apart, Keeps-bind, Keeps-render, Keeps-render_foreign, Keeps-install_anchor,
  Keeps-remove_pids, Keeps-check_configs,
}

-- What a path must be for the rest of the start to leave it alone.
abbrev pub IsUntouched : String → Type 0
IsUntouched path =
    Apart path "/run/guarddns/unbound/root.key"
    × Apart path unbound_runtime_config
    × Apart path unbound_recursive_runtime_config
    × Apart path mosdns_runtime_config
    × Apart path foreign_runtime_config
    × (str_eq "/run/guarddns/unbound/unbound.pid" path ≡ false)
    × (str_eq "/run/guarddns/unbound-recursive/unbound.pid" path ≡ false)

abbrev pub configs : List String
configs = unbound_runtime_config ∷ unbound_recursive_runtime_config ∷ []

module _ (os : Os) (cfg : Config) where
  -- The parts of the start, from its end.
  abbrev pub finish : Io (Unit {0})
  finish = do render_foreign os cfg; remove_pids os; check_configs os configs

  abbrev pub unbound_template : Io (Unit {0})
  unbound_template =
      render os (join_path config_dir "unbound.conf.tmpl") verbosity_mark cfg.unbound_log
        unbound_runtime_config

  abbrev pub recursive_template : Io (Unit {0})
  recursive_template =
      render os (join_path config_dir "unbound-recursive.conf.tmpl") verbosity_mark cfg.unbound_log
        unbound_recursive_runtime_config

  abbrev pub mosdns_template : Io (Unit {0})
  mosdns_template =
      render os (join_path config_dir "mosdns.yaml.tmpl") (codes "__LOG_LEVEL__") cfg.log_level
        mosdns_runtime_config

  pub Keeps-pids_on :
      (path : String)
      → str_eq "/run/guarddns/unbound/unbound.pid" path ≡ false
      → str_eq "/run/guarddns/unbound-recursive/unbound.pid" path ≡ false
      → Keeps path (remove_pids os >> check_configs os configs)
  Keeps-pids_on path p q =
      Keeps-bind path (remove_pids os) (λ u. check_configs os configs)
        (Keeps-remove_pids os path p q) (λ u. Keeps-check_configs os path configs)

  pub Keeps-finish :
      (path : String)
      → Apart path foreign_runtime_config
      → str_eq "/run/guarddns/unbound/unbound.pid" path ≡ false
      → str_eq "/run/guarddns/unbound-recursive/unbound.pid" path ≡ false
      → Keeps path finish
  Keeps-finish path f p q =
      Keeps-bind path (render_foreign os cfg) (λ u. remove_pids os >> check_configs os configs)
        (Keeps-render_foreign os path cfg f) (λ u. Keeps-pids_on path p q)

  abbrev pub from_mosdns : Io (Unit {0})
  from_mosdns = mosdns_template >> finish

  abbrev pub from_recursive : Io (Unit {0})
  from_recursive = recursive_template >> from_mosdns

  abbrev pub from_unbound : Io (Unit {0})
  from_unbound = unbound_template >> from_recursive

  abbrev pub from_anchor : Io (Unit {0})
  from_anchor = install_anchor os >> from_unbound

  pub Keeps-mosdns : (path : String) → Apart path mosdns_runtime_config → Keeps path mosdns_template
  Keeps-mosdns path =
      Keeps-render os path "/etc/guarddns/mosdns.yaml.tmpl" (codes "__LOG_LEVEL__") cfg.log_level
        mosdns_runtime_config

  pub Keeps-recursive :
      (path : String) → Apart path unbound_recursive_runtime_config → Keeps path recursive_template
  Keeps-recursive path =
      Keeps-render os path "/etc/guarddns/unbound-recursive.conf.tmpl" verbosity_mark
        cfg.unbound_log unbound_recursive_runtime_config

  pub Keeps-unbound :
      (path : String) → Apart path unbound_runtime_config → Keeps path unbound_template
  Keeps-unbound path =
      Keeps-render os path "/etc/guarddns/unbound.conf.tmpl" verbosity_mark cfg.unbound_log
        unbound_runtime_config

  pub Keeps-from_mosdns :
      (path : String)
      → Apart path mosdns_runtime_config
      → Keeps path finish
      → Keeps path from_mosdns
  Keeps-from_mosdns path m rest =
      Keeps-bind path mosdns_template (λ u. finish) (Keeps-mosdns path m) (λ u. rest)

  pub Keeps-from_recursive :
      (path : String)
      → Apart path unbound_recursive_runtime_config
      → Keeps path from_mosdns
      → Keeps path from_recursive
  Keeps-from_recursive path r rest =
      Keeps-bind path recursive_template (λ u. from_mosdns) (Keeps-recursive path r) (λ u. rest)

  pub Keeps-from_anchor : (path : String) → IsUntouched path → Keeps path from_anchor
  Keeps-from_anchor path (k, u, r, m, f, p, q) =
      Keeps-bind path (install_anchor os) (λ a. from_unbound) (Keeps-install_anchor os path k)
        (λ a.
          Keeps-bind path unbound_template (λ b. from_recursive) (Keeps-unbound path u)
            (λ b. Keeps-from_recursive path r (Keeps-from_mosdns path m (Keeps-finish path f p q))))

  abbrev pub defaults_dir : String
  defaults_dir = join_path config_dir "defaults"

  abbrev pub dirs : List String
  dirs = runtime_dir ∷ unbound_runtime_dir ∷ unbound_recursive_runtime_dir ∷ data_dir ∷ []

  abbrev pub lists : Io (Unit {0})
  lists = prepare_domain_lists os data_dir defaults_dir domain_lists
