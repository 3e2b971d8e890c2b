-- ===== src/Cancel.antt =====
-- `Expected` of internal/cancelclassify/cancel.go: whether an error comes from a client that has gone.
-- `lower` is `unicode.ToLower`, as in the module Rules.
use guard_dns.Prelude.{ℕ, Bool, true, false, ◌||◌, Option, none, some, List, [], ◌∷◌, map}
use guard_dns.Prelude.Text.{Text, codes}
use guard_dns.Prelude.Search.{contains_text}
use guard_dns.Rules.{to_lower_rune}

-- The errors that `errors.Is` is asked for.
pub data Cause : Type 0 where
  context_canceled : Cause
  net_closed : Cause
  other_cause : Cause

-- An error: itself and what it wraps, and its text.
pub record Err : Type 0 where
  pub chain : List Cause
  pub message : Text

abbrev is_gone : Cause → Bool
is_gone context_canceled = true
is_gone net_closed = true
is_gone other_cause = false

abbrev any_gone : List Cause → Bool
any_gone [] = false
any_gone (c ∷ cs) = is_gone c || any_gone cs

abbrev pub expected_fragments : List Text
expected_fragments =
    codes "context canceled"
    ∷ codes "connection ctx canceled"
    ∷ codes "use of closed network connection"
    ∷ codes "broken pipe"
    ∷ codes "connection reset by peer"
    ∷ []

abbrev any_contained : List Text → Text → Bool
any_contained [] message = false
any_contained (f ∷ fs) message = contains_text f message || any_contained fs message

unfoldable pub expected : (ℕ → ℕ) → Option Err → Bool
unfolding contains_text to_lower_rune
expected lower none = false
expected lower (some e) =
    any_gone e.chain || any_contained expected_fragments (map (to_lower_rune lower) e.message)
