-- ===== src/Rules/FixedPoint.antt =====
-- What `sanitizeRules` of internal/rulesplugin/rulesplugin.go writes back is a file that it would not
-- change again.
use mathlib.Core.Path.{subst}
use guard_dns.Prelude.{
  ℕ, ◌≤◌, ◌≡◌, refl, ap, Bool, true, false, ◌||◌, Option, none, some, List, [], ◌∷◌, ◌++◌, arith,
  ltb, if◌then◌else◌, length,
}
use guard_dns.Prelude.Text.{
  Text, byte_len, any_space, is_space, is_empty, starts_at, trim_space, trim_suffix, split,
  join_lines,
}
use guard_dns.Rules.{
  Line, blank, refused, rule, Sanitized, add_line, judged, uncommented, normalize_rule,
  before_comment, sanitize_line, sanitize_lines, sanitize_rules, max_rule_file_bytes,
}
use guard_dns.Rules.Plain.{space_apart}
use guard_dns.Rules.Lines.{IsRule, normalize-IsRule, sanitize_line-rule}

split-line :
    (k : ℕ) (r rest : Text)
    → is_space k ≡ true
    → any_space r ≡ false
    → split k (r ++ k ∷ rest) ≡ r ∷ split k rest
unfolding split
split-line k [] rest s h = ground arith
split-line k (c ∷ cs) rest s h =
    let apart = space_apart k c s (ground arith) in
    let later = split-line k cs rest s (ground arith) in rw (apart, later)

judged-rule : (o : Option Text) {r : Text} → judged o ≡ rule r → o ≡ some r
judged-rule none h = cc
judged-rule (some q) h = ground arith

if_accepted :
    (b : Bool) (x : Sanitized) {s : Sanitized}
    → (if b then none else some x) ≡ some s
    → (b ≡ false) × (x ≡ s)
if_accepted true x h = cc
if_accepted false x h = (refl, ground arith)

blank_or : (b : Bool) (l : Line) {r : Text} → (if b then blank else l) ≡ rule r → l ≡ rule r
blank_or true l h = cc
blank_or false l h = h

module _ (lower : ℕ → ℕ) (compiles : Text → Bool) where
  abbrev pub AllRules : List Text → Type 0
  AllRules [] = Unit
  AllRules (r ∷ rs) = IsRule lower compiles r × AllRules rs

  sanitize_line-IsRule :
      (t : Text) {r : Text} → sanitize_line lower compiles t ≡ rule r → IsRule lower compiles r
  unfolding sanitize_line
  sanitize_line-IsRule t e =
      let line = trim_space (trim_suffix b'\r' t) in
      let text = uncommented line (before_comment line) in
      let found =
        blank_or (is_empty line || starts_at b'#' line)
          (judged (normalize_rule lower compiles text)) e in
      normalize-IsRule lower compiles text (judged-rule (normalize_rule lower compiles text) found)

  abbrev pub Wellmade : Sanitized → Type 0
  Wellmade s = AllRules s.rules × (s.cleaned ≡ join_lines s.rules)

  add_line-Wellmade :
      (l : Line) (s : Sanitized)
      → ((r : Text) → l ≡ rule r → IsRule lower compiles r)
      → Wellmade s
      → Wellmade (add_line l s)
  add_line-Wellmade blank s h w = w
  add_line-Wellmade refused s h w = w
  add_line-Wellmade (rule r) s h w = ((h r refl, w.0), ap (λ text. r ++ b'\n' ∷ text) w.1)

  sanitize_lines-Wellmade : (ts : List Text) → Wellmade (sanitize_lines lower compiles ts)
  unfolding sanitize_lines
  sanitize_lines-Wellmade [] = (tt, refl)
  sanitize_lines-Wellmade (t ∷ ts) =
      add_line-Wellmade (sanitize_line lower compiles t) (sanitize_lines lower compiles ts)
        (λ r e. sanitize_line-IsRule t e) (sanitize_lines-Wellmade ts)

  -- The result for a file of these rules, one to a line.
  abbrev pub settled : List Text → Sanitized
  settled rs = record { rules = rs; cleaned = join_lines rs; meaningful = length rs; rejected = 0 }

  pub sanitize_lines-settled :
      (rs : List Text)
      → AllRules rs
      → sanitize_lines lower compiles (split b'\n' (join_lines rs)) ≡ settled rs
  unfolding sanitize_lines is_space split sanitize_line trim_space trim_suffix
  sanitize_lines-settled [] h = refl
  sanitize_lines-settled (r ∷ rs) h =
      rw
        (
          split-line b'\n' r (join_lines rs) refl h.0.plain.0,
          sanitize_line-rule lower compiles r h.0,
          sanitize_lines-settled rs h.1,
        )
        (ap
          (λ n. record {
            rules = r ∷ rs;
            cleaned = r ++ b'\n' ∷ join_lines rs;
            meaningful = n;
            rejected = 0;
          })
          (omega arith))

  pub sanitize_rules-Wellmade :
      (raw : Text) {s : Sanitized} → sanitize_rules lower compiles raw ≡ some s → Wellmade s
  unfolding sanitize_rules
  sanitize_rules-Wellmade raw e =
      let read = sanitize_lines lower compiles (split b'\n' raw) in
      let (fits, same) = if_accepted (ltb max_rule_file_bytes (byte_len raw)) read e in
      subst Wellmade same (sanitize_lines-Wellmade (split b'\n' raw))

  -- What `sanitizeRules` makes of any file, read again, is what it was: the same rules, the same text,
  -- every line of it a rule and none refused, provided that text is not too large to be read.
  pub sanitize_rules-fixed :
      (raw : Text) {s : Sanitized}
      → sanitize_rules lower compiles raw ≡ some s
      → byte_len s.cleaned ≤ max_rule_file_bytes
      → sanitize_rules lower compiles s.cleaned ≡ some (settled s.rules)
  unfolding sanitize_rules
  sanitize_rules-fixed raw {s} e small =
      let (rules, text) = sanitize_rules-Wellmade raw e in
      let size : ltb max_rule_file_bytes (byte_len s.cleaned) ≡ false = ground arith in
      rw (size, text, sanitize_lines-settled s.rules rules)
