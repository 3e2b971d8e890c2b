-- ===== src/Listener/Tests.antt =====
-- The TCP server plugin on concrete arguments and log entries.
use guard_dns.Prelude.{ℕ, ◌≡◌, refl, ◌↔◌, ◌+◌, true, false, none, some, List, [], ◌∷◌, ◌++◌}
use guard_dns.Prelude.Text.{codes}
use guard_dns.Prelude.Counters.{Labels, value_of}
use guard_dns.Prelude.Registry.{fresh}
use guard_dns.Cancel.{Err, other_cause, expected}
use guard_dns.Listener.{CancellationCore, Logs, error_type, other_type}
use guard_dns.Listener.Log.{Call, kept, counted, logged, logged_once}
use guard_dns.Listener.Start.{
  Args, Env, started, init_plugin, server_of, IsReady, Gives, init_plugin_iff,
}

abbrev same : ℕ → ℕ
same c = c

abbrev reset_error : Err
reset_error = record { chain = other_cause ∷ []; message = codes "write tcp: Broken Pipe" }

abbrev timeout_error : Err
timeout_error = record { chain = other_cause ∷ []; message = codes "context deadline exceeded" }

abbrev main_tcp : CancellationCore
main_tcp = record { context = []; listener = codes "main_tcp" }

abbrev entry_error : Err → Call
entry_error e = record {
  core = main_tcp;
  entry = record { level = 2; message = codes "entry err" };
  fields =
      record { type = other_type; interface = none }
      ∷ record { type = error_type; interface = some e }
      ∷ [];
}

abbrev calls : List Call
calls = entry_error reset_error ∷ entry_error timeout_error ∷ []

abbrev no_logs : Logs
no_logs = record { events = []; written = [] }

reset_is_expected : expected same (some reset_error) ≡ true
unfolding expected
reset_is_expected = refl

timeout_is_not_expected : expected same (some timeout_error) ≡ false
unfolding expected
timeout_is_not_expected = refl

logged_once_example :
    ((logged same (λ level. true) (λ line. true) calls no_logs).written
      ≡ [] ++ kept same (λ level. true) (λ line. true) calls)
    × ((labels : Labels)
        → value_of labels (logged same (λ level. true) (λ line. true) calls no_logs).events
          ≡ counted same (λ level. true) (λ line. true) labels calls + value_of labels [])
logged_once_example = logged_once same (λ level. true) (λ line. true) calls no_logs

abbrev env : Env
env = record {
  is_executable = λ tag. true;
  registration = fresh;
  loads_cert = λ cert key. true;
  listens = λ network address. true;
}

abbrev plain_args : Args
plain_args = record { entry = codes "main"; listen = []; cert = []; key = []; idle_timeout = 0 }

init_plugin_iff_example : (init_plugin env plain_args ≡ started (server_of plain_args [])) ↔ (
    (events : _) × Gives env.registration events
    × IsReady env plain_args
    × (server_of plain_args [] ≡ server_of plain_args events))
init_plugin_iff_example = init_plugin_iff env plain_args (server_of plain_args [])
