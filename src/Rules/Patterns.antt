-- ===== src/Rules/Patterns.antt =====
-- What a normalised rule of internal/rulesplugin/rulesplugin.go looks like: no space, valid UTF-8, and
-- `normalizeRule` gives it back unchanged.
use mathlib.Core.Path.{subst}
use guard_dns.Prelude.{
  ℕ, ◌≡◌, refl, ap, inl, inr, Bool, true, false, ◌&&◌, ◌||◌, none, some, List, [], ◌∷◌, map, arith,
  Bool-cases, ltb, ◌==◌, if◌then◌else◌,
}
use guard_dns.Prelude.Text.{
  Text, is_valid, any_space, is_space, is_empty, trim_suffix, split, on_head,
}
use guard_dns.Rules.{
  is_label_char, all_label_chars, is_label, all_labels, is_domain, to_lower_rune,
  normalize_domain_pattern,
}

-- The characters of a domain pattern: those of its labels, and dots.
abbrev is_domain_char : ℕ → Bool
is_domain_char c = is_label_char c || c == b'.'

abbrev all_domain_chars : Text → Bool
all_domain_chars [] = true
all_domain_chars (c ∷ cs) = is_domain_char c && all_domain_chars cs

-- Every label behind the first is tested whole; of the first, its characters.
abbrev tail_labels : List Text → Bool
tail_labels [] = true
tail_labels (t ∷ ts) = all_label_chars t && all_labels ts

label_chars : (t : Text) → is_label t ≡ true → all_label_chars t ≡ true
unfolding is_label
label_chars t h = ground arith

all→tail : (ts : List Text) → all_labels ts ≡ true → tail_labels ts ≡ true
all→tail [] h = refl
all→tail (t ∷ ts) h = ground (arith, label_chars t)

tail-on_head :
    (c : ℕ) (ts : List Text)
    → tail_labels (on_head c ts) ≡ true
    → (is_label_char c ≡ true) × (tail_labels ts ≡ true)
tail-on_head c [] h = ground arith
tail-on_head c (t ∷ ts) h = ground arith

split-domain_chars : (p : Text) → tail_labels (split b'.' p) ≡ true → all_domain_chars p ≡ true
unfolding split
split-domain_chars [] h = refl
split-domain_chars (c ∷ cs) h = elim (Bool-cases (c == b'.')) [
  | inl dot ↦
      let all = rw dot at h in
      let rest = split-domain_chars cs (all→tail (split b'.' cs) all) in ground arith
  | inr other ↦
      let (label, tail) = tail-on_head c (split b'.' cs) (rw other at h) in
      let rest = split-domain_chars cs tail in ground arith
]

lower_domain_char : (lower : ℕ → ℕ) (c : ℕ) → is_domain_char c ≡ true → to_lower_rune lower c ≡ c
unfolding to_lower_rune is_label_char
lower_domain_char lower c h = ground arith

lower_domain :
    (lower : ℕ → ℕ) (p : Text) → all_domain_chars p ≡ true → map (to_lower_rune lower) p ≡ p
lower_domain lower [] h = refl
lower_domain lower (c ∷ cs) h = ground (arith, lower_domain_char lower c, lower_domain lower cs)

domain_char_plain :
    (c : ℕ) → is_domain_char c ≡ true → (is_space c ≡ false) × (ltb c 0x110000 ≡ true)
unfolding is_label_char is_space
domain_char_plain c h = ground arith

domain_plain : (p : Text) → all_domain_chars p ≡ true → (any_space p ≡ false) × (is_valid p ≡ true)
domain_plain [] h = (refl, refl)
domain_plain (c ∷ cs) h = ground (arith, domain_char_plain c, domain_plain cs)

-- The last label of a pattern that ends in a dot is empty, and a second one.
abbrev last_empty : List Text → Bool
last_empty [] = false
last_empty (t ∷ []) = is_empty t
last_empty (t ∷ u ∷ us) = last_empty (u ∷ us)

abbrev dotted : List Text → Bool
dotted [] = false
dotted (t ∷ ts) = last_empty ts

abbrev ends_dotted : Text → Bool
ends_dotted [] = false
ends_dotted (c ∷ []) = c == b'.'
ends_dotted (c ∷ d ∷ ds) = ends_dotted (d ∷ ds)

dotted-cons : (t : Text) (ts : List Text) → dotted ts ≡ true → dotted (t ∷ ts) ≡ true
dotted-cons t [] h = cc
dotted-cons t (u ∷ []) h = cc
dotted-cons t (u ∷ v ∷ vs) h = h

dotted-on_head : (c : ℕ) (ts : List Text) → dotted ts ≡ true → dotted (on_head c ts) ≡ true
dotted-on_head c [] h = cc
dotted-on_head c (t ∷ ts) h = h

dotted-split : (p : Text) → ends_dotted p ≡ true → dotted (split b'.' p) ≡ true
unfolding split
dotted-split [] h = cc
dotted-split (c ∷ []) h = rw h
dotted-split (c ∷ d ∷ ds) h =
    let later = dotted-split (d ∷ ds) h in
    elim (Bool-cases (c == b'.')) [
      | inl dot ↦ rw dot (dotted-cons [] (split b'.' (d ∷ ds)) later)
      | inr other ↦ rw other (dotted-on_head c (split b'.' (d ∷ ds)) later)
    ]

last_empty-labels : (ts : List Text) → all_labels ts ≡ true → last_empty ts ≡ false
unfolding is_label
last_empty-labels [] h = refl
last_empty-labels (t ∷ []) h = ground arith
last_empty-labels (t ∷ u ∷ us) h = last_empty-labels (u ∷ us) (ground arith)

dotted-labels : (ts : List Text) → all_labels ts ≡ true → dotted ts ≡ false
dotted-labels [] h = refl
dotted-labels (t ∷ ts) h = last_empty-labels ts (ground arith)

trim_suffix-dotted : (p : Text) → ends_dotted p ≡ false → trim_suffix b'.' p ≡ p
unfolding trim_suffix
trim_suffix-dotted [] h = refl
trim_suffix-dotted (c ∷ []) h = rw h
trim_suffix-dotted (c ∷ d ∷ ds) h = ap (λ t. c ∷ t) (trim_suffix-dotted (d ∷ ds) h)

trim_suffix-domain : (p : Text) → all_labels (split b'.' p) ≡ true → trim_suffix b'.' p ≡ p
trim_suffix-domain p h = elim (Bool-cases (ends_dotted p)) [
  | inl ends ↦ let two = dotted-split p ends in let one = dotted-labels (split b'.' p) h in cc
  | inr open_end ↦ trim_suffix-dotted p open_end
]

domain_labels : (p : Text) → is_domain p ≡ true → all_labels (split b'.' p) ≡ true
unfolding is_domain
domain_labels p h = ground arith

-- A pattern that passes the tests is its own normal form, and has no space and no invalid byte.
pub normalize_domain :
    (lower : ℕ → ℕ) (p : Text) → is_domain p ≡ true → normalize_domain_pattern lower p ≡ some p
unfolding normalize_domain_pattern
normalize_domain lower p h =
    let labels = domain_labels p h in
    let chars = split-domain_chars p (all→tail (split b'.' p) labels) in
    rw (lower_domain lower p chars, trim_suffix-domain p labels, h)

pub is_domain_plain : (p : Text) → is_domain p ≡ true → (any_space p ≡ false) × (is_valid p ≡ true)
is_domain_plain p h =
    domain_plain p (split-domain_chars p (all→tail (split b'.' p) (domain_labels p h)))

pub if_some :
    (b : Bool) (x : Text) {q : Text} → (if b then some x else none) ≡ some q → (b ≡ true) × (x ≡ q)
if_some true x h = (refl, ground arith)
if_some false x h = cc

pub normalized_domain :
    (lower : ℕ → ℕ) (p q : Text) → normalize_domain_pattern lower p ≡ some q → is_domain q ≡ true
unfolding normalize_domain_pattern
normalized_domain lower p q h =
    let lowered = trim_suffix b'.' (map (to_lower_rune lower) p) in
    let (passed, same) = if_some (is_domain lowered) lowered h in
    subst (λ t. is_domain t ≡ true) same passed
