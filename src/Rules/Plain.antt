-- ===== src/Rules/Plain.antt =====
-- Texts with no space, from which internal/rulesplugin/rulesplugin.go trims and cuts nothing.
use guard_dns.Prelude.{
  ℕ, ◌≡◌, refl, ap, inl, inr, Bool, true, false, ◌&&◌, ◌||◌, Option, none, some, [], ◌∷◌, ◌++◌,
  arith, Bool-cases, ◌==◌, if◌then◌else◌,
}
use guard_dns.Prelude.Text.{
  Text, is_valid, any_space, is_space, trim_left, trim_right, trim_space, trim_suffix, cut,
}
use guard_dns.Prelude.Search.{before-some}
use guard_dns.Rules.{before_comment, on_front}

-- A text with no space in it and no invalid byte.
abbrev pub IsPlain : Text → Type 0
IsPlain t = (any_space t ≡ false) × (is_valid t ≡ true)

pub IsPlain-append : (a b : Text) → IsPlain a → IsPlain b → IsPlain (a ++ b)
IsPlain-append [] b ha hb = hb
IsPlain-append (c ∷ cs) b ha hb = ground (arith, IsPlain-append cs b)

pub cut-IsPlain : (k : ℕ) (t : Text) {a b : Text} → IsPlain t → cut k t ≡ some (a, b) → IsPlain b
unfolding cut
cut-IsPlain k [] h e = cc
cut-IsPlain k (c ∷ cs) {a} {b} h e = elim (Bool-cases (c == k)) [
  | inl here ↦ let same = rw here at e in ground (arith, h)
  | inr later ↦
      let (front, rest, shape) = before-some c (cut k cs) (rw later at e) in
      cut-IsPlain k cs (ground arith) rest
]

-- On a text with no space, none of what `sanitizeRules` trims or cuts is there.
pub trim_left-plain : (t : Text) → any_space t ≡ false → trim_left t ≡ t
unfolding trim_left
trim_left-plain [] h = refl
trim_left-plain (c ∷ cs) h = ground arith

pub trim_right-plain : (t : Text) → any_space t ≡ false → trim_right t ≡ t
unfolding trim_right
trim_right-plain [] h = refl
trim_right-plain (c ∷ cs) h = ground (arith, trim_right-plain cs)

pub trim_space-plain : (t : Text) → any_space t ≡ false → trim_space t ≡ t
unfolding trim_space
trim_space-plain t h = rw (trim_left-plain t h, trim_right-plain t h)

pub space_apart : (k c : ℕ) → is_space k ≡ true → is_space c ≡ false → (c == k) ≡ false
space_apart k c s h = ground arith

pub trim_suffix-plain :
    (k : ℕ) (t : Text) → is_space k ≡ true → any_space t ≡ false → trim_suffix k t ≡ t
unfolding trim_suffix
trim_suffix-plain k [] s h = refl
trim_suffix-plain k (c ∷ []) s h = let apart = space_apart k c s (ground arith) in rw apart
trim_suffix-plain k (c ∷ d ∷ ds) s h =
    ap (λ t. c ∷ t) (trim_suffix-plain k (d ∷ ds) s (ground arith))

pub not_blank : (c : ℕ) → is_space c ≡ false → (c == b' ' || c == b'\t') ≡ false
unfolding is_space
not_blank c h = ground arith

pub uncut :
    (a b : Bool) (c : ℕ) (o : Option Text)
    → b ≡ false
    → o ≡ none
    → (if a && b then some (c ∷ []) else on_front c o) ≡ none
uncut true false c none h e = refl
uncut false false c none h e = refl
uncut a true c o h e = cc
uncut a b c (some t) h e = cc

pub before_comment-plain : (t : Text) → any_space t ≡ false → before_comment t ≡ none
unfolding before_comment
before_comment-plain [] h = refl
before_comment-plain (c ∷ []) h = refl
before_comment-plain (c ∷ d ∷ ds) h =
    let here : is_space c ≡ false = ground arith in
    let later : any_space (d ∷ ds) ≡ false = ground arith in
    uncut (d == b'#') (c == b' ' || c == b'\t') c (before_comment (d ∷ ds)) (not_blank c here)
      (before_comment-plain (d ∷ ds) later)
