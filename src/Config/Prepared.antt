-- ===== src/Config/Prepared.antt =====
-- What `prepareRuntime` of cmd/guarddns/config.go leaves on the disk.
use guard_dns.Prelude.{◌≡◌, refl}
use guard_dns.Prelude.Text.{codes}
use guard_dns.Config.{Config}
use guard_dns.Config.Files.{Fs, Os, done}
use guard_dns.Config.Runtime.{
  prepare_runtime, verbosity_mark, mihomo_template, secure_template, unbound_runtime_config,
  unbound_recursive_runtime_config, mosdns_runtime_config,
}
use guard_dns.Config.Filled.{
  render-IsFilled, IsFilled-moved, IsForeign-done, IsForeign-moved, IsFilled, IsForeign,
}
use guard_dns.Config.Passed.{
  prepare-Passed, template_at3, template_at4, template_at5, template_at6, unbound_kept,
  recursive_kept, mosdns_kept, foreign_kept,
}

module _ (os : Os) (cfg : Config) where
  -- After a start that succeeds, the four configurations are the templates that it found, with the
  -- verbosity, the level and the endpoint of the settings filled in, and no placeholder is left in any.
  pub prepare_runtime_done :
      (before after : Fs)
      → prepare_runtime os cfg before ≡ (after, done tt)
      → IsFilled "/etc/guarddns/unbound.conf.tmpl" verbosity_mark cfg.unbound_log
          unbound_runtime_config before after
        × IsFilled "/etc/guarddns/unbound-recursive.conf.tmpl" verbosity_mark cfg.unbound_log
            unbound_recursive_runtime_config before after
        × IsFilled "/etc/guarddns/mosdns.yaml.tmpl"
            (codes "__LOG_LEVEL__")
            cfg.log_level
            mosdns_runtime_config
            before
            after
        × IsForeign cfg before after
  prepare_runtime_done before after h =
      let s = prepare-Passed os cfg before after h in
      (
        IsFilled-moved "/etc/guarddns/unbound.conf.tmpl" verbosity_mark cfg.unbound_log
            unbound_runtime_config before s.fs3 s.fs4 after
            (template_at3 os cfg s "/etc/guarddns/unbound.conf.tmpl" (
              ((refl, refl), ((refl, refl), tt)),
              (refl, refl),
              (refl, refl),
              (refl, refl),
              (refl, refl),
            ))
            (unbound_kept os cfg s)
            (render-IsFilled os "/etc/guarddns/unbound.conf.tmpl" verbosity_mark cfg.unbound_log
              unbound_runtime_config s.fs3 s.fs4 s.unbound),
        IsFilled-moved "/etc/guarddns/unbound-recursive.conf.tmpl" verbosity_mark cfg.unbound_log
            unbound_recursive_runtime_config before s.fs4 s.fs5 after
            (template_at4 os cfg s "/etc/guarddns/unbound-recursive.conf.tmpl" (
              ((refl, refl), ((refl, refl), tt)),
              (refl, refl),
              (refl, refl),
              (refl, refl),
              (refl, refl),
            ))
            (recursive_kept os cfg s)
            (render-IsFilled os "/etc/guarddns/unbound-recursive.conf.tmpl" verbosity_mark
              cfg.unbound_log unbound_recursive_runtime_config s.fs4 s.fs5 s.recursive),
        IsFilled-moved "/etc/guarddns/mosdns.yaml.tmpl" (codes "__LOG_LEVEL__") cfg.log_level
            mosdns_runtime_config before s.fs5 s.fs6 after
            (template_at5 os cfg s "/etc/guarddns/mosdns.yaml.tmpl" (
              ((refl, refl), ((refl, refl), tt)),
              (refl, refl),
              (refl, refl),
              (refl, refl),
              (refl, refl),
            ))
            (mosdns_kept os cfg s)
            (render-IsFilled os "/etc/guarddns/mosdns.yaml.tmpl" (codes "__LOG_LEVEL__")
              cfg.log_level mosdns_runtime_config s.fs5 s.fs6 s.mosdns),
        IsForeign-moved cfg before s.fs6 s.fs7 after
            (template_at6 os cfg s mihomo_template (
              ((refl, refl), ((refl, refl), tt)),
              (refl, refl),
              (refl, refl),
              (refl, refl),
              (refl, refl),
            ))
            (template_at6 os cfg s secure_template (
              ((refl, refl), ((refl, refl), tt)),
              (refl, refl),
              (refl, refl),
              (refl, refl),
              (refl, refl),
            ))
            (foreign_kept os cfg s) (IsForeign-done os cfg s.fs6 s.fs7 s.foreign),
      )
