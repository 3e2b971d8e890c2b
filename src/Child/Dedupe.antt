-- ===== src/Child/Dedupe.antt =====
-- `childLogDeduper` of cmd/guarddns/process.go, which suppresses lines of a child's log: the notices of
-- an Unbound that starts, and the errors of one query that MosDNS has reported at its boundary already.
pub mod Suppressed
use text.Mathlib.Text.{◌==◌ as str_eq}
use guard_dns.Prelude.{
  ℕ, ◌*◌, Bool, true, false, not, ◌&&◌, ◌||◌, Option, none, some, List, [], ◌∷◌, ◌++◌, String, leb,
  ltb_i64, leb_i64, ◌==◌, if◌then◌else◌, second, sub_time,
}
use guard_dns.Prelude.Text.{Text, codes, is_empty, text_eq}
use guard_dns.Prelude.Search.{has_prefix, contains_text}
use guard_dns.Prelude.Decimal.{is_digit}

abbrev pub child_log_dedupe_window : ℕ
child_log_dedupe_window = 10 * second

-- The query of a boundary line, and when it was recorded.
abbrev pub Boundaries : Type 0
Boundaries = List (Text × ℕ)

pub record Deduper : Type 0 where
  pub child : String
  pub suppress_startup_info : Bool
  pub boundaries : Boundaries

abbrev pub new_deduper : String → Bool → Deduper
new_deduper child quiet = record { child = child; suppress_startup_info = quiet; boundaries = [] }

-- The parts of `queryIDPattern`, `"uqid":\s*([0-9]+)`, behind its literal.
abbrev pub is_blank : ℕ → Bool
is_blank c = c == b'\t' || c == b'\n' || c == 12 || c == b'\r' || c == b' '

abbrev pub leading_digits : Text → Text
leading_digits [] = []
leading_digits (c ∷ cs) = let rest = leading_digits cs in if is_digit c then c ∷ rest else []

abbrev pub skip_blanks : Text → Text
skip_blanks [] = []
skip_blanks (c ∷ cs) = let rest = skip_blanks cs in if is_blank c then rest else c ∷ cs

abbrev pub drop_prefix : Text → Text → Option Text
drop_prefix [] t = some t
drop_prefix (p ∷ ps) [] = none
drop_prefix (p ∷ ps) (c ∷ cs) = let rest = drop_prefix ps cs in if p == c then rest else none

abbrev pub digits_found : Option Text → Option Text
digits_found none = none
digits_found (some rest) =
    let digits = leading_digits (skip_blanks rest) in if is_empty digits then none else some digits

abbrev pub or_later : Option Text → Option Text → Option Text
or_later none later = later
or_later (some id) later = some id

-- `queryIDPattern.FindStringSubmatch(line)[1]`: the first place where the pattern matches.
unfoldable pub query_id : Text → Option Text
query_id [] = none
query_id (c ∷ cs) = or_later (digits_found (drop_prefix (codes "\"uqid\":") (c ∷ cs))) (query_id cs)

unfoldable pub boundary_at : Text → Boundaries → Option ℕ
boundary_at id [] = none
boundary_at id (entry ∷ rest) =
    let others = boundary_at id rest in if text_eq entry.0 id then some entry.1 else others

unfoldable pub record_boundary : Text → ℕ → Boundaries → Boundaries
record_boundary id now [] = (id, now) ∷ []
record_boundary id now (entry ∷ rest) =
    let others = record_boundary id now rest in
    if text_eq entry.0 id then (entry.0, now) ∷ rest else entry ∷ others

-- The loop that deletes what is older than the window.
unfoldable pub prune : ℕ → Boundaries → Boundaries
prune now [] = []
prune now (entry ∷ rest) =
    let others = prune now rest in
    if ltb_i64 child_log_dedupe_window (sub_time now entry.1) then others else entry ∷ others

abbrev pub is_startup : String → Bool → Text → Bool
is_startup child quiet line =
    quiet
    && (str_eq child "unbound" || str_eq child "unbound_recursive")
    && contains_text (codes " info: start of service (unbound ") line

abbrev pub is_deadline : String → Text → Bool
is_deadline child line =
    str_eq child "mosdns" && contains_text (codes "context deadline exceeded") line

abbrev pub is_boundary : Text → Bool
is_boundary line =
    contains_text (codes "\tmain_tcp\tentry err\t") line
    || contains_text (codes "\tmain_udp\tentry err\t") line

abbrev pub is_internal : Text → Bool
is_internal line =
    contains_text (codes "\tclassify_lookup\tsecondary error\t") line
    || contains_text (codes "\tforward_unbound\tupstream error\t") line
    || contains_text (codes "\trecursive_unbound\tupstream error\t") line

abbrev pub is_recent : ℕ → Option ℕ → Bool
is_recent now none = false
is_recent now (some at) = leb_i64 (sub_time now at) child_log_dedupe_window

-- What the deduper does with a line of a query.
abbrev pub of_query : Deduper → ℕ → Text → Option Text → Deduper × Bool
of_query d now line none = (d, false)
of_query d now line (some id) =
    let recent = prune now d.boundaries in
    if is_boundary line then (record d { boundaries = record_boundary id now recent }, false) else (
      record d { boundaries = recent },
      is_internal line && is_recent now (boundary_at id recent),
    )

unfoldable pub suppress : Deduper → ℕ → Text → Deduper × Bool
unfolding contains_text query_id prune boundary_at record_boundary
suppress d now line =
    if is_startup d.child d.suppress_startup_info line
    then (d, true)
    else if not (is_deadline d.child line)
    then (d, false)
    else of_query d now line (query_id line)
