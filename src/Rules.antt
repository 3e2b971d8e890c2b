-- ===== src/Rules.antt =====
-- The rule files of internal/rulesplugin/rulesplugin.go: from the text of a file to its rules.
-- `compiles` stands for `regexp.Compile`, and `lower` for `unicode.ToLower` beyond the two code points
-- outside ASCII whose lower case is an ASCII letter. The matcher types are those of MosDNS.
pub mod Patterns
pub mod Plain
pub mod Lines
pub mod FixedPoint
pub mod Growth
pub mod Reload
pub mod Watch
pub mod Tests
use guard_dns.Prelude.{
  ℕ, zero, suc, ◌+◌, ◌*◌, Bool, true, false, not, ◌&&◌, ◌||◌, Option, none, some, List, [], ◌∷◌,
  ◌++◌, map, ltb, leb, ◌==◌, if◌then◌else◌, length,
}
use guard_dns.Prelude.Text.{
  Text, codes, byte_len, is_valid, any_space, is_empty, text_eq, starts_at, trim_space, trim_suffix,
  split, cut, join_lines,
}

abbrev pub max_rule_file_bytes : ℕ
max_rule_file_bytes = 1048576

abbrev pub max_regexp_rule_size : ℕ
max_regexp_rule_size = 4096

unfoldable pub is_label_char : ℕ → Bool
is_label_char c = (leb b'a' c && leb c b'z') || (leb b'0' c && leb c b'9') || c == b'-' || c == b'_'

abbrev pub all_label_chars : Text → Bool
all_label_chars [] = true
all_label_chars (c ∷ cs) = is_label_char c && all_label_chars cs

abbrev pub ends_with_dash : Text → Bool
ends_with_dash [] = false
ends_with_dash (c ∷ []) = c == b'-'
ends_with_dash (c ∷ d ∷ ds) = ends_with_dash (d ∷ ds)

unfoldable pub is_label : Text → Bool
unfolding is_label_char
is_label label =
    not (is_empty label)
    && leb (byte_len label) 63
    && all_label_chars label
    && not (starts_at b'-' label || ends_with_dash label)

abbrev pub all_labels : List Text → Bool
all_labels [] = true
all_labels (t ∷ ts) = is_label t && all_labels ts

abbrev is_digit : ℕ → Bool
is_digit c = leb b'0' c && leb c b'9'

abbrev is_octet : Text → Bool
is_octet (a ∷ []) = is_digit a
is_octet (a ∷ b ∷ []) = is_digit a && is_digit b && not (a == b'0')
is_octet (a ∷ b ∷ c ∷ []) =
    is_digit a
    && is_digit b
    && is_digit c
    && not (a == b'0')
    && leb (100 * a + 10 * b + c) (255 + 111 * b'0')
is_octet _ = false

abbrev are_octets : List Text → Bool
are_octets (a ∷ b ∷ c ∷ d ∷ []) = is_octet a && is_octet b && is_octet c && is_octet d
are_octets _ = false

-- `net.ParseIP` on an IPv4 address. One of IPv6 has a colon, which the test of the labels refuses.
unfoldable pub is_ipv4 : Text → Bool
unfolding split
is_ipv4 t = are_octets (split b'.' t)

-- Every test of `normalizeDomainPattern` on the lowered and trimmed pattern.
unfoldable pub is_domain : Text → Bool
unfolding is_ipv4 is_label
is_domain pattern =
    not (is_empty pattern)
    && leb (byte_len pattern) 253
    && not (is_ipv4 pattern)
    && all_labels (split b'.' pattern)

module _ (lower : ℕ → ℕ) where
  unfoldable pub to_lower_rune : ℕ → ℕ
  to_lower_rune c =
      if leb b'A' c && leb c b'Z'
      then c + 32
      else if ltb c 0x80
      then c
      else if c == 0x130
      then b'i'
      else if c == 0x212a
      then b'k'
      else lower c

  unfoldable pub normalize_domain_pattern : Text → Option Text
  unfolding to_lower_rune is_domain
  normalize_domain_pattern pattern =
      let lowered = trim_suffix b'.' (map to_lower_rune pattern) in
      if is_domain lowered then some lowered else none

abbrev pub typed : Text → Option Text → Option Text
typed typ none = none
typed typ (some pattern) = some (typ ++ b':' ∷ pattern)

abbrev or_domain : Text → Option (Text × Text) → Text × Text
or_domain line none = (codes "domain", line)
or_domain line (some parts) = parts

-- The result for one line: nothing of meaning on it, a rule that is refused, or a rule.
pub data Line : Type 0 where
  blank refused : Line
  rule : Text → Line

pub record Sanitized : Type 0 where
  pub rules : List Text
  pub cleaned : Text
  pub meaningful : ℕ
  pub rejected : ℕ

abbrev judged : Option Text → Line
judged none = refused
judged (some r) = rule r

abbrev uncommented : Text → Option Text → Text
uncommented line none = line
uncommented line (some front) = trim_space front

abbrev pub on_front : ℕ → Option Text → Option Text
on_front c none = none
on_front c (some front) = some (c ∷ front)

abbrev pub add_line : Line → Sanitized → Sanitized
add_line blank s = s
add_line refused s = record s { meaningful = s.meaningful + 1; rejected = s.rejected + 1 }
add_line (rule r) s = record s {
  rules = r ∷ s.rules;
  cleaned = r ++ b'\n' ∷ s.cleaned;
  meaningful = s.meaningful + 1;
}

abbrev pub nothing : Sanitized
nothing = record { rules = []; cleaned = []; meaningful = 0; rejected = 0 }

-- The text before an inline comment: a `#` behind a blank or a tab.
unfoldable pub before_comment : Text → Option Text
before_comment [] = none
before_comment (c ∷ []) = none
before_comment (c ∷ d ∷ ds) =
    let rest = before_comment (d ∷ ds) in
    if d == b'#' && (c == b' ' || c == b'\t') then some (c ∷ []) else on_front c rest

module _ (lower : ℕ → ℕ) (compiles : Text → Bool) where
  -- The `switch` of `normalizeRule`.
  unfoldable pub normalize_typed : Text → Text → Option Text
  unfolding normalize_domain_pattern
  normalize_typed typ pattern =
      if text_eq typ (codes "domain") || text_eq typ (codes "full") || text_eq typ (codes "keyword")
      then typed typ (normalize_domain_pattern lower pattern)
      else if text_eq typ (codes "regexp")
          && leb (byte_len pattern) max_regexp_rule_size
          && compiles pattern
      then typed typ (some pattern)
      else none

  unfoldable pub normalize_rule : Text → Option Text
  unfolding normalize_typed cut
  normalize_rule line =
      let (typ, pattern) = or_domain line (cut b':' line) in
      if not (is_valid line) || any_space line || is_empty pattern
      then none
      else normalize_typed typ pattern

  -- The body of the loop of `sanitizeRules`.
  unfoldable pub sanitize_line : Text → Line
  unfolding normalize_rule before_comment
  sanitize_line text =
      let line = trim_space (trim_suffix b'\r' text) in
      if is_empty line || starts_at b'#' line
      then blank
      else judged (normalize_rule (uncommented line (before_comment line)))

  -- The loop, and the text of its rules: one to a line, or no text if there are none.
  unfoldable pub sanitize_lines : List Text → Sanitized
  sanitize_lines [] = nothing
  sanitize_lines (t ∷ ts) = add_line (sanitize_line t) (sanitize_lines ts)

  -- `none`: the file is too large.
  unfoldable pub sanitize_rules : Text → Option Sanitized
  unfolding sanitize_lines sanitize_line
  sanitize_rules raw =
      if ltb max_rule_file_bytes (byte_len raw)
      then none
      else some (sanitize_lines (split b'\n' raw))
