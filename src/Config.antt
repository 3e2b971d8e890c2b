-- ===== src/Config.antt =====
-- The settings of the supervisor, cmd/guarddns/config.go: `loadConfig` and `parseForwardEndpoint`.
-- `env` is the environment, with the empty text where a variable is not set.
pub mod Endpoint
pub mod Settings
pub mod Files
pub mod Runtime
pub mod Rendering
pub mod Frame
pub mod Stages
pub mod Lists
pub mod Filled
pub mod Passed
pub mod Prepared
pub mod Tests
use guard_dns.Prelude.{
  ℕ, ◌+◌, Bool, true, false, not, ◌&&◌, ◌||◌, Option, none, some, List, [], ◌∷◌, ◌++◌, ltb, leb,
  ◌==◌, if◌then◌else◌,
}
use guard_dns.Prelude.Text.{Text, codes, is_empty, text_eq, cut}
use guard_dns.Prelude.Search.{count}
use guard_dns.Prelude.Decimal.{Int64, above, below, atoi, itoa}

pub record Config : Type 0 where
  pub auto_forward_raw : Text
  pub auto_enabled : Bool
  pub auto_dns : Text
  pub log_level : Text
  pub unbound_log : Text

pub data ConfigError : Type 0 where
  bad_log_level too_many_colons empty_host unsafe_host bad_port port_out_of_range : ConfigError

pub data Checked (A : Type 0) : Type 0 where
  accepted : A → Checked A
  rejected : ConfigError → Checked A

-- The class of `safeHost`.
unfoldable pub is_safe_char : ℕ → Bool
is_safe_char c =
    (leb b'A' c && leb c b'Z')
    || (leb b'a' c && leb c b'z')
    || (leb b'0' c && leb c b'9')
    || c == b'.'
    || c == b'_'
    || c == b'-'

abbrev pub all_safe : Text → Bool
all_safe [] = true
all_safe (c ∷ cs) = is_safe_char c && all_safe cs

-- `safeHost.MatchString`.
abbrev pub is_safe_host : Text → Bool
is_safe_host host = not (is_empty host) && all_safe host

abbrev pub whole_or : Text → Option (Text × Text) → Text × Text
whole_or value none = (value, codes "53")
whole_or value (some parts) = parts

-- The port as it is printed again.
abbrev pub in_range : Text → Option Int64 → Checked (Text × Text)
in_range host none = rejected bad_port
in_range host (some (below n)) = rejected port_out_of_range
in_range host (some (above n)) =
    if ltb n 1 || ltb 65535 n then rejected port_out_of_range else accepted (host, itoa n)

-- The tests on the host, and then those on the port.
abbrev pub checked_parts : Text × Text → Checked (Text × Text)
checked_parts (host, port) =
    if is_empty host
    then rejected empty_host
    else if not (is_safe_host host)
    then rejected unsafe_host
    else in_range host (atoi port)

unfoldable pub parse_forward_endpoint : Text → Checked (Text × Text)
unfolding is_safe_char cut atoi itoa
parse_forward_endpoint value =
    if ltb 1 (count b':' value)
    then rejected too_many_colons
    else checked_parts (whole_or value (cut b':' value))

-- `net.JoinHostPort`: a host with a colon or a percent sign is put in brackets.
unfoldable pub join_host_port : Text → Text → Text
join_host_port host port =
    if ltb 0 (count b':' host) || ltb 0 (count b'%' host)
    then b'[' ∷ host ++ b']' ∷ b':' ∷ port
    else host ++ b':' ∷ port

abbrev pub env_default : (Text → Text) → Text → Text → Text
env_default env name fallback = if is_empty (env name) then fallback else env name

-- The `switch` on the level: how much Unbound logs.
unfoldable pub unbound_verbosity : Text → Option Text
unbound_verbosity level =
    if text_eq level (codes "debug")
    then some (codes "3")
    else if text_eq level (codes "info")
    then some (codes "2")
    else if text_eq level (codes "warn") || text_eq level (codes "error")
    then some (codes "0")
    else none

abbrev pub with_endpoint : Config → Checked (Text × Text) → Checked Config
with_endpoint cfg (rejected e) = rejected e
with_endpoint cfg (accepted (host, port)) =
    accepted (record cfg { auto_enabled = true; auto_dns = join_host_port host port })

abbrev pub with_forward : Text → Text → Option Text → Checked Config
with_forward raw level none = rejected bad_log_level
with_forward raw level (some verbosity) =
    let cfg : Config = record {
      auto_forward_raw = raw;
      auto_enabled = false;
      auto_dns = [];
      log_level = level;
      unbound_log = verbosity;
    } in
    if text_eq raw (codes "no")
    then accepted cfg
    else with_endpoint cfg (parse_forward_endpoint raw)

unfoldable pub load_config : (Text → Text) → Checked Config
unfolding unbound_verbosity parse_forward_endpoint join_host_port
load_config env =
    let raw = env_default env (codes "AUTO_FORWARD") (codes "no") in
    let level = env_default env (codes "LOG_LEVEL") (codes "warn") in
    with_forward raw level (unbound_verbosity level)
