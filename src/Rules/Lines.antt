-- ===== src/Rules/Lines.antt =====
-- The rules that `normalizeRule` of internal/rulesplugin/rulesplugin.go makes: each stands alone on a
-- line, and is read back as it is.
use mathlib.Core.Path.{subst}
use guard_dns.Prelude.{
  ℕ, ◌≡◌, refl, sym, ◌⊎◌, inl, inr, Bool, true, false, not, ◌&&◌, ◌||◌, Option, none, some, ◌∷◌,
  ◌++◌, arith, Bool-cases, Option-cases, leb, if◌then◌else◌,
}
use guard_dns.Prelude.Text.{
  Text, codes, byte_len, is_valid, any_space, is_space, is_empty, text_eq, starts_at, cut,
}
use guard_dns.Rules.{
  is_domain, normalize_domain_pattern, typed, normalize_typed, normalize_rule, max_regexp_rule_size,
  rule, sanitize_line,
}
use guard_dns.Prelude.Text.{text_eq→≡}
use guard_dns.Rules.Patterns.{normalize_domain, is_domain_plain, normalized_domain, if_some}
use guard_dns.Rules.Plain.{
  IsPlain, IsPlain-append, cut-IsPlain, trim_space-plain, trim_suffix-plain, before_comment-plain,
}

typed-some :
    (typ : Text) (o : Option Text) {r : Text}
    → typed typ o ≡ some r
    → (q : Text) × (o ≡ some q) × (typ ++ b':' ∷ q ≡ r)
typed-some typ none h = cc
typed-some typ (some q) h = (q, refl, ground arith)

if_none :
    (b : Bool) (o : Option Text) {r : Text}
    → (if b then none else o) ≡ some r
    → (b ≡ false) × (o ≡ some r)
if_none true o h = cc
if_none false o h = (refl, h)

abbrev is_named : Text → Bool
is_named typ =
    text_eq typ (codes "domain") || text_eq typ (codes "full") || text_eq typ (codes "keyword")

-- One of the four matcher types.
abbrev IsType : Text → Type 0
IsType typ =
    (typ ≡ codes "domain") ⊎ (typ ≡ codes "full") ⊎ (typ ≡ codes "keyword") ⊎ (typ ≡ codes "regexp")

abbrev IsTypeText : Text → Type 0
IsTypeText typ =
    IsPlain typ
    × ((q : Text) → cut b':' (typ ++ b':' ∷ q) ≡ some (typ, q))
    × ((q : Text) → starts_at b'#' (typ ++ b':' ∷ q) ≡ false)
    × ((q : Text) → is_empty (typ ++ b':' ∷ q) ≡ false)

IsType-IsTypeText : (typ : Text) → IsType typ → IsTypeText typ
unfolding cut is_space
IsType-IsTypeText typ (inl e) =
    subst IsTypeText (sym e) ((refl, refl), λ q. refl, λ q. refl, λ q. refl)
IsType-IsTypeText typ (inr (inl e)) =
    subst IsTypeText (sym e) ((refl, refl), λ q. refl, λ q. refl, λ q. refl)
IsType-IsTypeText typ (inr (inr (inl e))) =
    subst IsTypeText (sym e) ((refl, refl), λ q. refl, λ q. refl, λ q. refl)
IsType-IsTypeText typ (inr (inr (inr e))) =
    subst IsTypeText (sym e) ((refl, refl), λ q. refl, λ q. refl, λ q. refl)

named-IsType : (typ : Text) → is_named typ ≡ true → IsType typ
named-IsType typ h = ground (
  arith,
  text_eq→≡ typ (codes "domain"),
  text_eq→≡ typ (codes "full"),
  text_eq→≡ typ (codes "keyword"),
)

module _ (lower : ℕ → ℕ) (compiles : Text → Bool) where
  abbrev normal : Text → Option Text
  normal = normalize_rule lower compiles

  -- A rule as `normalizeRule` writes it.
  pub record IsRule (r : Text) : Type 0 where
    pub plain : IsPlain r
    pub visible : starts_at b'#' r ≡ false
    pub nonempty : is_empty r ≡ false
    pub fixed : normal r ≡ some r

  -- It is enough that the `switch` gives the rule back.
  typed-IsRule :
      (typ q : Text)
      → IsType typ
      → IsPlain q
      → is_empty q ≡ false
      → normalize_typed lower compiles typ q ≡ some (typ ++ b':' ∷ q)
      → IsRule (typ ++ b':' ∷ q)
  unfolding normalize_rule is_space
  typed-IsRule typ q t p n e =
      let (plain_typ, cuts, visible, full) = IsType-IsTypeText typ t in
      let plain = IsPlain-append typ (b':' ∷ q) plain_typ (p.0, p.1) in
      record {
        plain = plain;
        visible = visible q;
        nonempty = full q;
        fixed = rw (cuts q, plain.0, plain.1, n, e);
      }

  domain_nonempty : (q : Text) → is_domain q ≡ true → is_empty q ≡ false
  unfolding is_domain
  domain_nonempty q h = ground arith

  named-IsRule :
      (typ p : Text) {r : Text}
      → is_named typ ≡ true
      → typed typ (normalize_domain_pattern lower p) ≡ some r
      → IsRule r
  unfolding normalize_typed
  named-IsRule typ p named e =
      let (q, normalized, same) = typed-some typ (normalize_domain_pattern lower p) e in
      let domain = normalized_domain lower p q normalized in
      subst IsRule same (
        typed-IsRule typ q (named-IsType typ named) (is_domain_plain q domain)
          (domain_nonempty q domain) (rw (named, normalize_domain lower q domain)))

  regexp-IsRule :
      (typ p : Text) {r : Text}
      → is_named typ ≡ false
      → IsPlain p
      → is_empty p ≡ false
      → (if text_eq typ (codes "regexp") && leb (byte_len p) max_regexp_rule_size && compiles p
          then typed typ (some p)
          else none)
        ≡ some r
      → IsRule r
  unfolding normalize_typed
  regexp-IsRule typ p other plain n e =
      let test =
        text_eq typ (codes "regexp") && leb (byte_len p) max_regexp_rule_size && compiles p in
      let (passed, same) = if_some test (typ ++ b':' ∷ p) e in
      let regexp = text_eq→≡ typ (codes "regexp") (ground arith) in
      subst IsRule same (typed-IsRule typ p (inr (inr (inr regexp))) plain n (rw (other, passed)))

  normalize_typed-IsRule :
      (typ p : Text) {r : Text}
      → IsPlain p
      → is_empty p ≡ false
      → normalize_typed lower compiles typ p ≡ some r
      → IsRule r
  unfolding normalize_typed
  normalize_typed-IsRule typ p plain n e = elim (Bool-cases (is_named typ)) [
    | inl named ↦ named-IsRule typ p named (rw named at e)
    | inr other ↦ regexp-IsRule typ p other plain n (rw other at e)
  ]

  guarded-IsRule :
      (line typ p : Text) {r : Text}
      → (IsPlain line → IsPlain p)
      → (if not (is_valid line) || any_space line || is_empty p
          then none
          else normalize_typed lower compiles typ p)
        ≡ some r
      → IsRule r
  guarded-IsRule line typ p part e =
      let bad = not (is_valid line) || any_space line || is_empty p in
      let (passed, rest) = if_none bad (normalize_typed lower compiles typ p) e in
      let plain : IsPlain line = ground arith in
      let nonempty : is_empty p ≡ false = ground arith in
      normalize_typed-IsRule typ p (part plain) nonempty rest

  -- What `normalizeRule` returns for any line is valid text with no space, is not empty, does not begin
  -- like a comment, and is what `normalizeRule` returns for it in turn.
  pub normalize-IsRule : (line : Text) {r : Text} → normal line ≡ some r → IsRule r
  unfolding normalize_rule
  normalize-IsRule line e = elim (Option-cases (cut b':' line)) [
    | inl whole ↦ guarded-IsRule line (codes "domain") line (λ h. h) (rw whole at e)
    | inr ((typ, p), parts) ↦
        guarded-IsRule line typ p (λ h. cut-IsPlain b':' line h parts) (rw parts at e)
  ]

  -- Such a line is read as the rule it is.
  pub sanitize_line-rule : (r : Text) → IsRule r → sanitize_line lower compiles r ≡ rule r
  unfolding sanitize_line is_space
  sanitize_line-rule r h = rw (
    trim_suffix-plain b'\r' r refl h.plain.0,
    trim_space-plain r h.plain.0,
    before_comment-plain r h.plain.0,
    h.visible,
    h.nonempty,
    h.fixed,
  )
