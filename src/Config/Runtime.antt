-- ===== src/Config/Runtime.antt =====
-- `prepareRuntime` and `prepareDomainLists` of cmd/guarddns/config.go: the files that the programs find
-- when they start.
use Prim.Native.String.{◌++◌ as ◌<>◌}
use guard_dns.Prelude.{
  Bool, false, not, Option, none, some, List, [], ◌∷◌, String, lookup, if◌then◌else◌,
}
use guard_dns.Prelude.Text.{Text, codes, is_empty}
use guard_dns.Prelude.Search.{replace_all}
use guard_dns.Config.{Config}
use guard_dns.Config.Files.{
  Fs, Os, os_error, no_root_anchor, invalid_unbound, done, broke, Io, ◌>>=◌, ◌>>◌, give_up, require,
  read_file, remove, copy_file, write_rendered,
}

abbrev pub runtime_dir : String
runtime_dir = "/run/guarddns"

abbrev pub unbound_runtime_dir : String
unbound_runtime_dir = "/run/guarddns/unbound"

abbrev pub unbound_recursive_runtime_dir : String
unbound_recursive_runtime_dir = "/run/guarddns/unbound-recursive"

abbrev pub config_dir : String
config_dir = "/etc/guarddns"

abbrev pub data_dir : String
data_dir = "/data"

abbrev pub mosdns_runtime_config : String
mosdns_runtime_config = "/run/guarddns/mosdns.yaml"

abbrev pub foreign_runtime_config : String
foreign_runtime_config = "/run/guarddns/foreign.yaml"

abbrev pub unbound_runtime_config : String
unbound_runtime_config = "/run/guarddns/unbound.conf"

abbrev pub unbound_recursive_runtime_config : String
unbound_recursive_runtime_config = "/run/guarddns/unbound-recursive.conf"

-- `filepath.Join` of two clean parts.
abbrev pub join_path : String → String → String
join_path dir name = dir <> "/" <> name

abbrev pub domain_lists : List String
domain_lists = "direct.txt" ∷ "proxy.txt" ∷ []

abbrev pub copy_missing : Os → String → String → Option Text → Io (Unit {0})
copy_missing os source target (some t) fs = (fs, done tt)
copy_missing os source target none fs = copy_file os source target fs

-- A list that is there already stays; one that cannot be looked up is an error.
unfoldable pub prepare_list : Os → String → String → Io (Unit {0})
unfolding copy_file
prepare_list os source target fs =
    if os.stats target
    then copy_missing os source target (lookup target fs) fs
    else (fs, broke os_error)

unfoldable pub prepare_domain_lists : Os → String → String → List String → Io (Unit {0})
unfolding prepare_list
prepare_domain_lists os data_path defaults [] fs = (fs, done tt)
prepare_domain_lists os data_path defaults (name ∷ names) fs =
    (prepare_list os (join_path defaults name) (join_path data_path name)
        >> prepare_domain_lists os data_path defaults names)
      fs

abbrev pub anchors : List String
anchors =
    "/usr/share/dnssec-root/trusted-key.key" ∷ "/usr/share/dnssec-root/root.key"
    ∷ "/etc/unbound/root.key" ∷ []

abbrev pub is_full : Option Text → Bool
is_full none = false
is_full (some t) = not (is_empty t)

-- The first candidate with something in it.
unfoldable pub find_anchor : Os → List String → Fs → Option String
find_anchor os [] fs = none
find_anchor os (path ∷ paths) fs =
    let later = find_anchor os paths fs in
    if os.stats path then (if is_full (lookup path fs) then some path else later) else later

abbrev pub make_dirs : Os → List String → Io (Unit {0})
make_dirs os [] fs = (fs, done tt)
make_dirs os (dir ∷ dirs) fs = (require (os.mkdirs dir) os_error >> make_dirs os dirs) fs

abbrev pub chown_all : Os → List String → Io (Unit {0})
chown_all os [] fs = (fs, done tt)
chown_all os (path ∷ paths) fs = (require (os.chowns path) os_error >> chown_all os paths) fs

abbrev pub root_key : String
root_key = "/run/guarddns/unbound/root.key"

abbrev pub install_anchor_from : Os → Option String → Io (Unit {0})
install_anchor_from os none = give_up no_root_anchor
install_anchor_from os (some source) =
    copy_file os source root_key
    >> chown_all os (unbound_runtime_dir ∷ root_key ∷ unbound_recursive_runtime_dir ∷ [])

unfoldable pub install_anchor : Os → Io (Unit {0})
unfolding find_anchor copy_file
install_anchor os fs = install_anchor_from os (find_anchor os anchors fs) fs

-- A template is read, its placeholder filled in, and the text written.
unfoldable pub render : Os → String → Text → Text → String → Io (Unit {0})
unfolding read_file write_rendered replace_all
render os template placeholder value target =
    read_file os template >>= (λ t. write_rendered os target (replace_all placeholder value t))

abbrev pub mihomo_template : String
mihomo_template = "/etc/guarddns/foreign-mihomo.yaml.tmpl"

abbrev pub secure_template : String
secure_template = "/etc/guarddns/foreign-secure.yaml"

abbrev pub endpoint_mark : Text
endpoint_mark = codes "__AUTO_FORWARD_ENDPOINT__"

-- The foreign part is rendered with the endpoint, or taken as it is.
unfoldable pub render_foreign : Os → Config → Io (Unit {0})
unfolding read_file write_rendered replace_all render
render_foreign os cfg =
    if cfg.auto_enabled
    then render os mihomo_template endpoint_mark cfg.auto_dns foreign_runtime_config
    else (read_file os secure_template >>= (λ t. write_rendered os foreign_runtime_config t))

unfoldable pub remove_pids : Os → Io (Unit {0})
unfolding remove
remove_pids os fs = (
  remove os (join_path unbound_recursive_runtime_dir "unbound.pid")
      (remove os (join_path unbound_runtime_dir "unbound.pid") fs),
  done tt,
)

abbrev pub accepted_config : Os → String → Option Text → Bool
accepted_config os path none = false
accepted_config os path (some t) = os.accepts path t

unfoldable pub check_configs : Os → List String → Io (Unit {0})
check_configs os [] fs = (fs, done tt)
check_configs os (path ∷ paths) fs =
    (require (accepted_config os path (lookup path fs)) (invalid_unbound path)
        >> check_configs os paths)
      fs

abbrev pub verbosity_mark : Text
verbosity_mark = codes "__UNBOUND_VERBOSITY__"

unfoldable pub prepare_runtime : Os → Config → Io (Unit {0})
unfolding prepare_domain_lists install_anchor render render_foreign remove_pids check_configs
prepare_runtime os cfg = do
  make_dirs os (runtime_dir ∷ unbound_runtime_dir ∷ unbound_recursive_runtime_dir ∷ data_dir ∷ [])
  prepare_domain_lists os data_dir (join_path config_dir "defaults") domain_lists
  install_anchor os
  render os (join_path config_dir "unbound.conf.tmpl") verbosity_mark cfg.unbound_log
      unbound_runtime_config
  render os (join_path config_dir "unbound-recursive.conf.tmpl") verbosity_mark cfg.unbound_log
      unbound_recursive_runtime_config
  render os (join_path config_dir "mosdns.yaml.tmpl") (codes "__LOG_LEVEL__") cfg.log_level
      mosdns_runtime_config
  render_foreign os cfg
  remove_pids os
  check_configs os (unbound_runtime_config ∷ unbound_recursive_runtime_config ∷ [])
