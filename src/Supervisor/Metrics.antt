-- ===== src/Supervisor/Metrics.antt =====
-- `Describe` and `Collect` of internal/supervisorplugin/plugin.go. A value is kept exactly, as an
-- amount of a unit: the `float64` is its nearest.
use guard_dns.Prelude.{
  ℕ, ◌+◌, ◌-◌, ◌*◌, Bool, true, false, Option, none, some, List, [], ◌∷◌, ◌++◌, String, ltb,
  ltb_i64, ◌==◌, if◌then◌else◌, length, two_63, two_64, sub_time, millisecond, second,
}
use guard_dns.Wire.{Component, DohUpstream}
use guard_dns.State.{unix_epoch}
use guard_dns.Supervisor.{Plugin}

pub record Desc : Type 0 where
  pub name : String
  pub help : String
  pub labels : List String

pub data ValueType : Type 0 where
  counter_value gauge_value : ValueType

pub record Value : Type 0 where
  pub amount : ℕ
  pub unit : ℕ

pub record Metric : Type 0 where
  pub desc : Desc
  pub type : ValueType
  pub value : Value
  pub label_values : List String

-- `MustNewConstMetric` panics where the labels of the description are of another number.
abbrev pub must_new_const_metric : Desc → ValueType → Value → List String → Option Metric
must_new_const_metric desc type value label_values =
    if length desc.labels == length label_values
    then some (record { desc = desc; type = type; value = value; label_values = label_values })
    else none

abbrev pub component_up_desc : Desc
component_up_desc = record {
  name = "guarddns_component_up";
  help = "Whether a supervised GuardDNS component is running.";
  labels = "component" ∷ [];
}

abbrev pub component_enabled_desc : Desc
component_enabled_desc = record {
  name = "guarddns_component_enabled";
  help = "Whether a supervised GuardDNS component is enabled.";
  labels = "component" ∷ [];
}

abbrev pub component_restarts_desc : Desc
component_restarts_desc = record {
  name = "guarddns_component_restarts_total";
  help = "Total restarts of a supervised GuardDNS component.";
  labels = "component" ∷ [];
}

abbrev pub component_backoff_desc : Desc
component_backoff_desc = record {
  name = "guarddns_component_backoff_seconds";
  help = "Current restart delay for a supervised GuardDNS component.";
  labels = "component" ∷ [];
}

abbrev pub state_age_desc : Desc
state_age_desc = record {
  name = "guarddns_supervisor_state_age_seconds";
  help = "Age of the last supervisor state update.";
  labels = [];
}

abbrev upstream_desc : String → String → Desc
upstream_desc name help = record { name = name; help = help; labels = "upstream" ∷ [] }

abbrev pub doh_metric_descriptions : List Desc
doh_metric_descriptions =
    upstream_desc "guarddns_doh_upstream_requests_total"
      "Total requests considered by a DoH upstream."
    ∷ upstream_desc "guarddns_doh_upstream_successes_total"
        "Total successful DoH upstream requests."
    ∷ upstream_desc "guarddns_doh_upstream_failures_total" "Total failed DoH upstream requests."
    ∷ upstream_desc "guarddns_doh_upstream_backoff_skips_total"
        "Total DoH upstream requests skipped during backoff."
    ∷ upstream_desc "guarddns_doh_upstream_request_duration_seconds_total"
        "Cumulative time spent on DoH upstream requests."
    ∷ upstream_desc "guarddns_doh_upstream_backoff_seconds"
        "Seconds until a DoH upstream can be retried."
    ∷ upstream_desc "guarddns_doh_upstream_last_success_timestamp_seconds"
        "Unix timestamp of the last successful DoH upstream request."
    ∷ upstream_desc "guarddns_doh_upstream_last_failure_timestamp_seconds"
        "Unix timestamp of the last failed DoH upstream request."
    ∷ []

abbrev pub describe : List Desc
describe =
    component_up_desc ∷ component_enabled_desc ∷ component_restarts_desc ∷ component_backoff_desc
    ∷ state_age_desc ∷ doh_metric_descriptions

abbrev pub bool_float : Bool → Value
bool_float true = record { amount = 1; unit = 1 }
bool_float false = record { amount = 0; unit = 1 }

abbrev whole : ℕ → Value
whole n = record { amount = n; unit = 1 }

-- A duration in seconds.
abbrev seconds : ℕ → Value
seconds d = record { amount = d; unit = second }

-- `time.UnixMilli` of an `int64`.
abbrev pub time_of_unix_milli : ℕ → ℕ
time_of_unix_milli ms =
    if ltb ms two_63
    then unix_epoch + ms * millisecond
    else unix_epoch - (two_64 - ms) * millisecond

-- `remainingBackoffSeconds`, as a duration.
unfoldable pub remaining_backoff : DohUpstream → ℕ → ℕ
remaining_backoff upstream now =
    let remaining = sub_time (time_of_unix_milli upstream.retry_at_unix_milli) now in
    if upstream.retry_at_unix_milli == 0 then 0 else if ltb_i64 remaining 0 then 0 else remaining

abbrev both : Option Metric → Option (List Metric) → Option (List Metric)
both none ms = none
both (some m) none = none
both (some m) (some ms) = some (m ∷ ms)

-- What is sent; nothing if a metric panics.
abbrev pub sequence : List (Option Metric) → Option (List Metric)
sequence [] = some []
sequence (m ∷ ms) = both m (sequence ms)

abbrev pub component_metrics : String × Component → List (Option Metric)
component_metrics (name, c) =
    must_new_const_metric component_up_desc gauge_value (bool_float c.up) (name ∷ [])
    ∷ must_new_const_metric component_enabled_desc gauge_value (bool_float c.enabled) (name ∷ [])
    ∷ must_new_const_metric component_restarts_desc counter_value (whole c.restarts) (name ∷ [])
    ∷ must_new_const_metric component_backoff_desc gauge_value (seconds c.backoff) (name ∷ [])
    ∷ []

abbrev pub upstream_values : DohUpstream → ℕ → List (ValueType × Value)
upstream_values u now =
    (counter_value, whole u.requests)
    ∷ (counter_value, whole u.successes)
    ∷ (counter_value, whole u.failures)
    ∷ (counter_value, whole u.backoff_skips)
    ∷ (counter_value, record { amount = u.duration_microseconds; unit = 1000000 })
    ∷ (gauge_value, seconds (remaining_backoff u now))
    ∷ (gauge_value, whole u.last_success_unix)
    ∷ (gauge_value, whole u.last_failure_unix)
    ∷ []

-- Each value with the description at its index, if there is one.
abbrev pub described : String → List Desc → List (ValueType × Value) → List (Option Metric)
described name descs [] = []
described name [] (v ∷ vs) = none ∷ []
described name (d ∷ ds) (v ∷ vs) =
    must_new_const_metric d v.0 v.1 (name ∷ []) ∷ described name ds vs

abbrev pub upstream_metrics : ℕ → String × DohUpstream → List (Option Metric)
upstream_metrics now (name, u) = described name doh_metric_descriptions (upstream_values u now)

abbrev pub each {ℓ} : {A : Type ℓ} → (A → List (Option Metric)) → List A → List (Option Metric)
each f [] = []
each f (x ∷ xs) = f x ++ each f xs

unfoldable pub collect : ℕ → Plugin → Option (List Metric)
unfolding remaining_backoff
collect now p =
    let age = if p.received_at == 0 then 0 else sub_time now p.received_at in
    sequence (
      each component_metrics p.snapshot.components
      ++ must_new_const_metric state_age_desc gauge_value (seconds age) []
        ∷ each (upstream_metrics now) p.snapshot.doh_upstreams)
