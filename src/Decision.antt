-- ===== src/Decision.antt =====
-- The decision plugin of internal/decisionplugin/decision.go: its executables count in one vector.
pub mod Tests
pub mod Counting
use guard_dns.Prelude.{ℕ, Bool, true, false, ◌||◌, Option, none, some, List, [], ◌∷◌, if◌then◌else◌}
use guard_dns.Prelude.Text.{Text, is_empty, trim_space}
use guard_dns.Prelude.Counters.{Labels, Counters, labels_eq, increase}
use guard_dns.Prelude.Registry.{Registration, fresh, existing, other_collector, refused}

-- The part of `WithLabelValues` that makes a series: it starts at 0.
unfoldable pub with_label_values : Labels → Counters → Counters
with_label_values labels [] = (labels, 0) ∷ []
with_label_values labels (entry ∷ rest) =
    let others = with_label_values labels rest in
    if labels_eq entry.0 labels then entry ∷ rest else entry ∷ others

pub record Executable : Type 0 where
  pub decision : Text

pub data Setup : Type 0 where
  executable : Executable → Counters → Setup
  no_decision incompatible_metric no_metric : Setup

-- `decisionCounter`.
unfoldable pub decision_counter : Registration → Text → Setup
unfolding with_label_values
decision_counter fresh decision =
    executable (record { decision = decision }) (with_label_values (decision ∷ []) [])
decision_counter (existing vector) decision =
    executable (record { decision = decision }) (with_label_values (decision ∷ []) vector)
decision_counter other_collector decision = incompatible_metric
decision_counter refused decision = no_metric

unfoldable pub quick_setup : Registration → Text → Setup
unfolding decision_counter trim_space
quick_setup registration raw =
    let decision = trim_space raw in
    if is_empty decision then no_decision else decision_counter registration decision

-- `Exec`.
unfoldable pub exec : Executable → Counters → Counters
unfolding increase
exec e vector = increase (e.decision ∷ []) vector
