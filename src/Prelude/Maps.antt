-- ===== src/Prelude/Maps.antt =====
-- A Go map with text keys: an association list in which a key stands at most once.
use Prim.Native.String.{String}
use mathlib.Core.Path.{◌≡◌, refl}
use mathlib.Core.List.{List, [], ◌∷◌}
use mathlib.Core.Option.{Option, none, some}
use native.Mathlib.Omega.{arith}
use text.Mathlib.Text.{◌==◌}
use text.Mathlib.TextEquality.{eq_iff}
use guard_dns.Prelude.Tests.{if◌then◌else◌}

abbrev pub Dict {ℓ} : Type ℓ → Type ℓ
Dict V = List (String × V)

-- The value of a key, and the zero value of its type where the key is missing.
abbrev pub get_or_zero {ℓ} : {V : Type ℓ} → V → Option V → V
get_or_zero z none = z
get_or_zero z (some v) = v

-- A read: `none` where the key is missing.
unfoldable pub lookup {ℓ} : {V : Type ℓ} → String → Dict V → Option V
lookup key [] = none
lookup key (entry ∷ rest) =
    let others = lookup key rest in if entry.0 == key then some entry.1 else others

-- A write overwrites the entry of the key where there is one, and else adds one at the end.
unfoldable pub insert {ℓ} : {V : Type ℓ} → String → V → Dict V → Dict V
insert key value [] = (key, value) ∷ []
insert key value (entry ∷ rest) =
    let others = insert key value rest in
    if entry.0 == key then (entry.0, value) ∷ rest else entry ∷ others

-- What a read finds after a write: the value written, if its key is the one that is read.
module _ {ℓ} {V : Type ℓ} (key : String) (value : V) where
  pub lookup-insert :
      (other : String) (m : Dict V)
      → lookup other (insert key value m) ≡ (if key == other then some value else lookup other m)
  unfolding lookup insert
  lookup-insert other [] = refl
  lookup-insert other (entry ∷ rest) =
      ground (
        arith,
        eq_iff key other,
        eq_iff entry.0 key,
        eq_iff entry.0 other,
        lookup-insert other rest,
      )

-- `delete`.
unfoldable pub erase {ℓ} : {V : Type ℓ} → String → Dict V → Dict V
erase key [] = []
erase key (entry ∷ rest) =
    let others = erase key rest in if entry.0 == key then others else entry ∷ others

module _ {ℓ} {V : Type ℓ} (key : String) where
  pub lookup-erase :
      (other : String) (m : Dict V)
      → lookup other (erase key m) ≡ (if key == other then none else lookup other m)
  unfolding lookup erase
  lookup-erase other [] = ground arith
  lookup-erase other (entry ∷ rest) =
      ground
        (arith, eq_iff key other, eq_iff entry.0 key, eq_iff entry.0 other, lookup-erase other rest)
