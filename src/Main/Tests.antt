-- ===== src/Main/Tests.antt =====
-- The program on a system where every call succeeds.
use guard_dns.Doh.Exchange.{Env}
use guard_dns.Prelude.{none, String, true, false, [], ◌∷◌, refl, ◌≡◌}
use guard_dns.Prelude.Text.{codes}
use guard_dns.Config.Files.{Fs, Os}
use guard_dns.Child.Wait.{ready}
use guard_dns.Health.{no_answer, failed}
use guard_dns.Main.{World, run_main, new_logger, prints, info_level}
use guard_dns.Main.Serving.{Comes, run_main-Comes}

abbrev willing : Os
willing = record {
  mkdirs = λ p. true;
  stats = λ p. true;
  opens = λ p. true;
  reads = λ p. true;
  creates = λ p. true;
  writes = λ p. true;
  partial = λ p t. [];
  renames = λ p. true;
  removes = λ p. true;
  chowns = λ p. true;
  accepts = λ p t. true;
}

abbrev files : Fs
files =
    ("/data/direct.txt", codes "a.b")
    ∷ ("/etc/guarddns/defaults/proxy.txt", codes "c.d")
    ∷ ("/etc/unbound/root.key", codes "key")
    ∷ ("/etc/guarddns/unbound.conf.tmpl", codes "v: __UNBOUND_VERBOSITY__")
    ∷ ("/etc/guarddns/unbound-recursive.conf.tmpl", codes "r")
    ∷ ("/etc/guarddns/mosdns.yaml.tmpl", codes "level: __LOG_LEVEL__")
    ∷ ("/etc/guarddns/foreign-secure.yaml", codes "secure")
    ∷ []

-- No upstream can be reached.
abbrev offline : String → Env
offline tag = record {
  started_at = 0;
  acquired_at = 0;
  failed_at = 0;
  measured_at = 0;
  observed_at = 0;
  draw = λ n. 0;
  dials = λ c. c;
  http = record { pack = λ m. none; creates = true; post = λ bytes. none; unpack = λ bytes. none };
}

abbrev world : World
world = record {
  env = λ name. [];
  os = willing;
  fs = files;
  probe_query = record { id = 1; response = false; question = 1 ∷ []; rcode = 0; answer = [] };
  probes = offline;
  listens_udp = true;
  listens_tcp = true;
  waits = λ address. ready;
  supervisor = no_answer;
  dns = failed;
}

-- The default level prints warnings and no notices.
warns_only : prints (new_logger (codes "warn")) info_level ≡ false
unfolding new_logger
warns_only = refl

run_main-Comes_example :
    Comes world
      (run_main world (codes "guarddns" ∷ [])).exit
      (run_main world (codes "guarddns" ∷ [])).fs
      (run_main world (codes "guarddns" ∷ [])).actions
run_main-Comes_example = run_main-Comes world (codes "guarddns")
