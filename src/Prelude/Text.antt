-- ===== src/Prelude/Text.antt =====
-- Texts as Go reads them. A text is a list of numbers: a code point, or 0x110000 plus the byte where a
-- byte begins no valid UTF-8 sequence. Such lists stand for Go's byte strings one to one, and a cut
-- next to an ASCII character, or at a space, is the same cut in both.
use Prim.Native.Nat.{ℕ, ◌+◌}
use Prim.Native.Char.{code}
use Prim.Native.String.{String}
use mathlib.Core.Path.{◌≡◌, refl, sym, ap, ◌∙◌}
use mathlib.Core.Logic.{◌↔◌}
use mathlib.Core.Bool.{Bool, true, false, ◌&&◌, ◌||◌}
use mathlib.Core.List.{List, [], ◌∷◌, ◌++◌}
use mathlib.Core.Option.{Option, none, some}
use native.Mathlib.Omega.{arith}
use guard_dns.Prelude.Tests.{ltb, leb, ◌==◌, if◌then◌else◌}

abbrev pub Text : Type 0
Text = List ℕ

-- A literal.
abbrev pub codes : String → Text
codes String.[] = []
codes (String.◌∷◌ c s) = code c ∷ codes s

-- The bytes of one rune, and `len` of a text.
abbrev pub rune_len : ℕ → ℕ
rune_len c =
    if ltb c 0x80
    then 1
    else if ltb c 0x800
    then 2
    else if ltb c 0x10000
    then 3
    else if ltb c 0x110000
    then 4
    else 1

abbrev pub byte_len : Text → ℕ
byte_len [] = 0
byte_len (c ∷ cs) = rune_len c + byte_len cs

-- `utf8.ValidString`.
abbrev pub is_valid : Text → Bool
is_valid [] = true
is_valid (c ∷ cs) = ltb c 0x110000 && is_valid cs

-- `unicode.IsSpace`.
unfoldable pub is_space : ℕ → Bool
is_space c =
    (leb 9 c && leb c 13)
    || c == 0x20
    || c == 0x85
    || c == 0xa0
    || c == 0x1680
    || (leb 0x2000 c && leb c 0x200a)
    || c == 0x2028
    || c == 0x2029
    || c == 0x202f
    || c == 0x205f
    || c == 0x3000

abbrev pub any_space : Text → Bool
any_space [] = false
any_space (c ∷ cs) = is_space c || any_space cs

abbrev pub is_empty : Text → Bool
is_empty [] = true
is_empty (c ∷ cs) = false

abbrev pub text_eq : Text → Text → Bool
text_eq [] [] = true
text_eq (a ∷ as') (b ∷ bs) = a == b && text_eq as' bs
text_eq _ _ = false

pub text_eq→≡ : (a b : Text) → text_eq a b ≡ true → a ≡ b
text_eq→≡ [] [] h = refl
text_eq→≡ [] (b ∷ bs) h = cc
text_eq→≡ (a ∷ as') [] h = cc
text_eq→≡ (a ∷ as') (b ∷ bs) h = ground (arith, text_eq→≡ as' bs)

pub text_eq_refl : (t : Text) → text_eq t t ≡ true
text_eq_refl [] = refl
text_eq_refl (c ∷ cs) = ground (arith, text_eq_refl cs)

pub text_eq_iff : (a b : Text) → (text_eq a b ≡ true) ↔ (a ≡ b)
text_eq_iff a b = (text_eq→≡ a b, λ e. ap (text_eq a) (sym e) ∙ text_eq_refl a)

-- `strings.HasPrefix` at one character.
abbrev pub starts_at : ℕ → Text → Bool
starts_at c [] = false
starts_at c (d ∷ ds) = c == d

-- `strings.TrimSpace`, in two halves.
unfoldable pub trim_left : Text → Text
trim_left [] = []
trim_left (c ∷ cs) = let rest = trim_left cs in if is_space c then rest else c ∷ cs

unfoldable pub trim_right : Text → Text
trim_right [] = []
trim_right (c ∷ cs) =
    let rest = trim_right cs in if is_empty rest && is_space c then [] else c ∷ rest

unfoldable pub trim_space : Text → Text
unfolding trim_left trim_right
trim_space t = trim_right (trim_left t)

-- `strings.TrimSuffix` at one character.
unfoldable pub trim_suffix : ℕ → Text → Text
trim_suffix k [] = []
trim_suffix k (c ∷ []) = if c == k then [] else c ∷ []
trim_suffix k (c ∷ d ∷ ds) = c ∷ trim_suffix k (d ∷ ds)

abbrev pub on_head : ℕ → List Text → List Text
on_head c [] = (c ∷ []) ∷ []
on_head c (t ∷ ts) = (c ∷ t) ∷ ts

-- `strings.Split` at one character.
unfoldable pub split : ℕ → Text → List Text
split k [] = [] ∷ []
split k (c ∷ cs) = let rest = split k cs in if c == k then [] ∷ rest else on_head c rest

abbrev pub before : ℕ → Option (Text × Text) → Option (Text × Text)
before c none = none
before c (some (a, b)) = some (c ∷ a, b)

-- `strings.Cut` at one character.
unfoldable pub cut : ℕ → Text → Option (Text × Text)
cut k [] = none
cut k (c ∷ cs) = let rest = cut k cs in if c == k then some ([], cs) else before c rest

-- `strings.Join` with a newline, and one more newline at the end, for a list that is not empty.
abbrev pub join_lines : List Text → Text
join_lines [] = []
join_lines (t ∷ ts) = t ++ b'\n' ∷ join_lines ts
