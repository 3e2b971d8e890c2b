-- ===== src/Config/Tests.antt =====
-- Settings and starts at work.
use guard_dns.Prelude.{
  ◌≡◌, refl, ◌↔◌, ◌⊎◌, inl, true, false, [], ◌∷◌, lookup, insert, erase, some, if◌then◌else◌,
}
use guard_dns.Prelude.Text.{Text, codes, text_eq, cut}
use guard_dns.Prelude.Search.{contains_text, replace_all}
use guard_dns.Prelude.Decimal.{atoi, itoa}
use guard_dns.Config.{
  Config, accepted, rejected, parse_forward_endpoint, join_host_port, load_config, is_safe_char,
  too_many_colons, port_out_of_range, env_default,
}
use guard_dns.Config.Endpoint.{IsEndpoint, parse_forward_endpoint_iff, parse-join}
use guard_dns.Config.Settings.{IsLevel, IsForward, load_config_sound}
use guard_dns.Config.Files.{Fs, Os, done, broke, unresolved, write_file_atomic, write_rendered}
use guard_dns.Config.Runtime.{
  prepare_runtime, data_dir, join_path, verbosity_mark, unbound_runtime_config,
  unbound_recursive_runtime_config, mosdns_runtime_config, endpoint_mark,
}
use guard_dns.Config.Lists.{user_lists_kept}
use guard_dns.Config.Filled.{IsFilled, IsForeign}
use guard_dns.Config.Prepared.{prepare_runtime_done}
use guard_dns.Config.Rendering.{filled, dunder, endpoint_rendered}

ported : parse_forward_endpoint (codes "mihomo:+0053") ≡ accepted (codes "mihomo", codes "53")
unfolding parse_forward_endpoint cut atoi itoa is_safe_char
ported = refl

refused :
    (parse_forward_endpoint (codes "::1") ≡ rejected too_many_colons)
    × (parse_forward_endpoint (codes "a:65536") ≡ rejected port_out_of_range)
unfolding parse_forward_endpoint cut atoi itoa is_safe_char
refused = (refl, refl)

parse_forward_endpoint_iff_example :
    (parse_forward_endpoint (codes "mihomo:+0053") ≡ accepted (codes "mihomo", codes "53"))
    ↔ IsEndpoint (codes "mihomo:+0053") (codes "mihomo") (codes "53")
parse_forward_endpoint_iff_example =
    parse_forward_endpoint_iff (codes "mihomo:+0053") (codes "mihomo") (codes "53")

parse-join_example :
    parse_forward_endpoint (join_host_port (codes "mihomo") (codes "53"))
    ≡ accepted (codes "mihomo", codes "53")
parse-join_example = parse-join (codes "mihomo:+0053") (codes "mihomo") (codes "53") ported

abbrev env : Text → Text
env name =
    if text_eq name (codes "LOG_LEVEL")
    then codes "info"
    else if text_eq name (codes "AUTO_FORWARD")
    then codes "mihomo:+0053"
    else []

abbrev settings : Config
settings = record {
  auto_forward_raw = codes "mihomo:+0053";
  auto_enabled = true;
  auto_dns = codes "mihomo:53";
  log_level = codes "info";
  unbound_log = codes "2";
}

loaded : load_config env ≡ accepted settings
unfolding load_config join_host_port parse_forward_endpoint cut atoi itoa is_safe_char
loaded = refl

load_config_sound_example :
    (settings.log_level ≡ env_default env (codes "LOG_LEVEL") (codes "warn"))
    × IsLevel settings.log_level settings.unbound_log
    × (settings.auto_forward_raw ≡ env_default env (codes "AUTO_FORWARD") (codes "no"))
    × IsForward settings
load_config_sound_example = load_config_sound env loaded

-- A system on which every call succeeds.
abbrev willing : Os
willing = record {
  mkdirs = λ p. true;
  stats = λ p. true;
  opens = λ p. true;
  reads = λ p. true;
  creates = λ p. true;
  writes = λ p. true;
  partial = λ p t. [];
  renames = λ p. true;
  removes = λ p. true;
  chowns = λ p. true;
  accepts = λ p t. true;
}

abbrev files : Fs
files =
    ("/data/direct.txt", codes "a.b")
    ∷ ("/etc/guarddns/defaults/proxy.txt", codes "c.d")
    ∷ ("/etc/unbound/root.key", codes "key")
    ∷ ("/etc/guarddns/unbound.conf.tmpl", codes "v: __UNBOUND_VERBOSITY__")
    ∷ ("/etc/guarddns/unbound-recursive.conf.tmpl", codes "r")
    ∷ ("/etc/guarddns/mosdns.yaml.tmpl", codes "level: __LOG_LEVEL__")
    ∷ ("/etc/guarddns/foreign-mihomo.yaml.tmpl", codes "to: __AUTO_FORWARD_ENDPOINT__")
    ∷ []

abbrev prepared : Fs
prepared = (prepare_runtime willing settings files).0

succeeds : prepare_runtime willing settings files ≡ (prepared, done tt)
unfolding prepare_runtime lookup insert erase
succeeds = refl

direct_there : lookup (join_path data_dir "direct.txt") files ≡ some (codes "a.b")
unfolding lookup
direct_there = refl

user_lists_kept_example :
    lookup (join_path data_dir "direct.txt") (prepare_runtime willing settings files).0
    ≡ some (codes "a.b")
user_lists_kept_example =
    user_lists_kept willing settings files "direct.txt" (codes "a.b") (inl refl) direct_there

prepare_runtime_done_example :
    IsFilled "/etc/guarddns/unbound.conf.tmpl" verbosity_mark settings.unbound_log
      unbound_runtime_config files prepared
    × IsFilled "/etc/guarddns/unbound-recursive.conf.tmpl" verbosity_mark settings.unbound_log
        unbound_recursive_runtime_config files prepared
    × IsFilled "/etc/guarddns/mosdns.yaml.tmpl"
        (codes "__LOG_LEVEL__")
        settings.log_level
        mosdns_runtime_config
        files
        prepared
    × IsForeign settings files prepared
prepare_runtime_done_example = prepare_runtime_done willing settings files prepared succeeds

doubled : parse_forward_endpoint (codes "my__proxy") ≡ accepted (codes "my__proxy", codes "53")
unfolding parse_forward_endpoint cut atoi itoa is_safe_char
doubled = refl

endpoint_rendered_example :
    let text =
      replace_all endpoint_mark
        (join_host_port (codes "my__proxy") (codes "53"))
        (filled endpoint_mark (codes "to: ") (codes "." ∷ [])) in
    (text
      ≡ filled (join_host_port (codes "my__proxy") (codes "53")) (codes "to: ") (codes "." ∷ []))
    × (contains_text dunder text ≡ contains_text dunder (codes "my__proxy"))
    × (((contains_text dunder (codes "my__proxy") ≡ true)
          × (write_rendered willing "/run/x" text [] ≡ ([], broke (unresolved "/run/x"))))
        ⊎ ((contains_text dunder (codes "my__proxy") ≡ false)
            × (write_rendered willing "/run/x" text []
                ≡ write_file_atomic willing "/run/x" text [])))
endpoint_rendered_example =
    endpoint_rendered willing "/run/x" [] (codes "my__proxy") (codes "my__proxy") (codes "53")
      (codes "to: ") (codes ".") [] doubled refl refl tt
