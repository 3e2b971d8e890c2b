-- ===== src/Prelude/Counters.antt =====
-- Counters with labels, such as a `prometheus.CounterVec`: labels that were never used count 0.
use Prim.Native.Nat.{ℕ, ◌+◌}
use mathlib.Core.Path.{◌≡◌, refl, sym, ap, ◌∙◌}
use mathlib.Core.Logic.{◌↔◌}
use mathlib.Core.Bool.{Bool, true, false, ◌&&◌}
use mathlib.Core.List.{List, [], ◌∷◌}
use native.Mathlib.Omega.{arith}
use guard_dns.Prelude.Tests.{if◌then◌else◌}
use guard_dns.Prelude.Text.{Text, text_eq, text_eq→≡, text_eq_refl}

abbrev pub Labels : Type 0
Labels = List Text

abbrev pub labels_eq : Labels → Labels → Bool
labels_eq [] [] = true
labels_eq [] (b ∷ bs) = false
labels_eq (a ∷ as') [] = false
labels_eq (a ∷ as') (b ∷ bs) = text_eq a b && labels_eq as' bs

labels_eq→≡ : (a b : Labels) → labels_eq a b ≡ true → a ≡ b
labels_eq→≡ [] [] h = refl
labels_eq→≡ [] (b ∷ bs) h = cc
labels_eq→≡ (a ∷ as') [] h = cc
labels_eq→≡ (a ∷ as') (b ∷ bs) h = ground (arith, text_eq→≡ a b, labels_eq→≡ as' bs)

pub labels_eq_refl : (a : Labels) → labels_eq a a ≡ true
labels_eq_refl [] = refl
labels_eq_refl (a ∷ as') = ground (arith, text_eq_refl a, labels_eq_refl as')

pub labels_eq_iff : (a b : Labels) → (labels_eq a b ≡ true) ↔ (a ≡ b)
labels_eq_iff a b = (labels_eq→≡ a b, λ e. ap (labels_eq a) (sym e) ∙ labels_eq_refl a)

abbrev pub Counters : Type 0
Counters = List (Labels × ℕ)

unfoldable pub value_of : Labels → Counters → ℕ
value_of labels [] = 0
value_of labels (entry ∷ rest) =
    let others = value_of labels rest in if labels_eq entry.0 labels then entry.1 else others

-- `WithLabelValues(labels...).Inc()`.
unfoldable pub increase : Labels → Counters → Counters
increase labels [] = (labels, 1) ∷ []
increase labels (entry ∷ rest) =
    let others = increase labels rest in
    if labels_eq entry.0 labels then (entry.0, entry.1 + 1) ∷ rest else entry ∷ others

pub value_of-increase :
    (labels other : Labels) (m : Counters)
    → value_of other (increase labels m)
      ≡ (if labels_eq labels other then 1 else 0) + value_of other m
unfolding value_of increase
value_of-increase labels other [] = ground arith
value_of-increase labels other (entry ∷ rest) = ground (
  arith,
  labels_eq_iff labels other,
  labels_eq_iff entry.0 labels,
  labels_eq_iff entry.0 other,
  value_of-increase labels other rest,
)
