-- ===== src/Prelude/Search.antt =====
-- Searching and replacing in texts, as the package `strings` does.
use Prim.Native.Nat.{ℕ, zero, suc, ◌+◌}
use mathlib.Core.Path.{◌≡◌, refl, sym, ap, ◌∙◌}
use mathlib.Core.Logic.{inl, inr}
use mathlib.Core.Bool.{Bool, true, false, ◌&&◌, ◌||◌}
use mathlib.Core.List.{[], ◌∷◌, ◌++◌}
use native.Mathlib.Omega.{arith}
use guard_dns.Prelude.Tests.{◌==◌, if◌then◌else◌, Bool-cases}
use guard_dns.Prelude.Lists.{length}
use mathlib.Core.Option.{Option, none, some}
use guard_dns.Prelude.Text.{Text, cut, before}

-- `strings.Count` of one character.
abbrev pub count : ℕ → Text → ℕ
count k [] = 0
count k (c ∷ cs) = (if c == k then 1 else 0) + count k cs

-- `strings.HasPrefix`.
abbrev pub has_prefix : Text → Text → Bool
has_prefix [] t = true
has_prefix (p ∷ ps) [] = false
has_prefix (p ∷ ps) (c ∷ cs) = p == c && has_prefix ps cs

-- `strings.Contains`.
unfoldable pub contains_text : Text → Text → Bool
contains_text part [] = has_prefix part []
contains_text part (c ∷ cs) = has_prefix part (c ∷ cs) || contains_text part cs

-- The loop of `strings.ReplaceAll` for a text `k ∷ ks`; `left` counts what remains of a match.
unfoldable pub replace_from : ℕ → Text → Text → (left : ℕ) → Text → Text
replace_from k ks new left [] = []
replace_from k ks new (suc left) (c ∷ cs) = replace_from k ks new left cs
replace_from k ks new zero (c ∷ cs) =
    let matched = replace_from k ks new (length ks) cs in
    let other = replace_from k ks new zero cs in
    if has_prefix (k ∷ ks) (c ∷ cs) then new ++ matched else c ∷ other

unfoldable pub replace_all : (old new : Text) → Text → Text
unfolding replace_from
replace_all [] new t = t
replace_all (k ∷ ks) new t = replace_from k ks new 0 t

pub has_prefix-append : (p t : Text) → has_prefix p (p ++ t) ≡ true
has_prefix-append [] t = refl
has_prefix-append (c ∷ cs) t = ground (arith, has_prefix-append cs t)

has_prefix-grow : (p a b : Text) → has_prefix p a ≡ true → has_prefix p (a ++ b) ≡ true
has_prefix-grow [] a b h = refl
has_prefix-grow (p ∷ ps) [] b h = cc
has_prefix-grow (p ∷ ps) (c ∷ cs) b h = ground (arith, has_prefix-grow ps cs b)

contains_text-left : (p a b : Text) → contains_text p a ≡ true → contains_text p (a ++ b) ≡ true
unfolding contains_text
contains_text-left p [] [] h = h
contains_text-left [] [] (c ∷ cs) h = refl
contains_text-left (p ∷ ps) [] (c ∷ cs) h = cc
contains_text-left p (c ∷ cs) b h =
    ground (arith, has_prefix-grow p (c ∷ cs) b, contains_text-left p cs b)

contains_text-right : (p a b : Text) → contains_text p b ≡ true → contains_text p (a ++ b) ≡ true
unfolding contains_text
contains_text-right p [] b h = h
contains_text-right p (c ∷ cs) b h = ground (arith, contains_text-right p cs b)

-- A part of the middle is a part of the whole.
pub contains_text-middle :
    (p a b c : Text) → contains_text p b ≡ true → contains_text p (a ++ (b ++ c)) ≡ true
contains_text-middle p a b c h = contains_text-right p a (b ++ c) (contains_text-left p b c h)

-- What remains of a match is passed over.
pub replace_from-rest :
    (k : ℕ) (ks new a b : Text)
    → replace_from k ks new (length a) (a ++ b) ≡ replace_from k ks new 0 b
unfolding replace_from
replace_from-rest k ks new [] b = refl
replace_from-rest k ks new (c ∷ cs) b = replace_from-rest k ks new cs b

pub replace_all-here :
    (k : ℕ) (ks new t : Text)
    → replace_all (k ∷ ks) new ((k ∷ ks) ++ t) ≡ new ++ replace_all (k ∷ ks) new t
unfolding replace_all
replace_all-here k ks new t = rw (has_prefix-append (k ∷ ks) t, replace_from-rest k ks new ks t)

pub before-some :
    (c : ℕ) (o : Option (Text × Text)) {a b : Text}
    → before c o ≡ some (a, b)
    → (front : Text) × (o ≡ some (front, b)) × (a ≡ c ∷ front)
before-some c none h = cc
before-some c (some (front, rest)) h = (front, ground arith, ground arith)

pub count-append : (k : ℕ) (a b : Text) → count k (a ++ b) ≡ count k a + count k b
count-append k [] b = omega arith
count-append k (c ∷ cs) b = omega (arith, count-append k cs b)

-- A cut is at the first place, and there is one where there is a place.
pub cut-none : (k : ℕ) (t : Text) → cut k t ≡ none → count k t ≡ 0
unfolding cut
cut-none k [] h = refl
cut-none k (c ∷ cs) h = ground (arith, cut-none k cs)

pub cut-some :
    (k : ℕ) (t a b : Text)
    → cut k t ≡ some (a, b)
    → (t ≡ a ++ k ∷ b) × (count k t ≡ suc (count k b))
unfolding cut
cut-some k [] a b h = cc
cut-some k (c ∷ cs) a b h = elim (Bool-cases (c == k)) [
  | inl here ↦ let same = rw here at h in ground (arith, h)
  | inr later ↦
      let (front, rest, shape) = before-some c (cut k cs) (rw later at h) in
      let (spelled, counted) = cut-some k cs front b rest in
      (
        ap (λ t. c ∷ t) spelled ∙ ap (λ t. t ++ k ∷ b) (sym shape),
        rw later (omega (arith, counted)),
      )
]

pub cut-at : (k : ℕ) (a b : Text) → count k a ≡ 0 → cut k (a ++ k ∷ b) ≡ some (a, b)
unfolding cut
cut-at k [] b h = ground arith
cut-at k (c ∷ cs) b h = ground (arith, cut-at k cs b)

pub cut_nowhere : (k : ℕ) (t : Text) → count k t ≡ 0 → cut k t ≡ none
unfolding cut
cut_nowhere k [] h = refl
cut_nowhere k (c ∷ cs) h = ground (arith, cut_nowhere k cs)
