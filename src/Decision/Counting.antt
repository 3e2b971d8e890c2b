-- ===== src/Decision/Counting.antt =====
-- What the executables of internal/decisionplugin/decision.go count together.
use guard_dns.Prelude.{
  ℕ, zero, suc, ◌+◌, ◌≡◌, refl, ap, inl, inr, Bool, true, false, Option, none, some, List, [], ◌∷◌,
  arith, get_elem?, Bool-cases, if◌then◌else◌, if_true, if_false,
}
use guard_dns.Prelude.Text.{Text, is_empty, trim_space, text_eq}
use guard_dns.Prelude.Counters.{Labels, Counters, labels_eq, value_of, value_of-increase}
use guard_dns.Prelude.Registry.{existing}
use guard_dns.Decision.{
  Executable, Setup, executable, with_label_values, decision_counter, quick_setup, exec,
}

-- The plugin after some turns: its vector, and the executables that were set up, the last one first.
pub record Plugin : Type 0 where
  pub vector : Counters
  pub executables : List Executable

-- An executable is set up from its argument, or the one in a place of the list runs.
pub data Turn : Type 0 where
  sets_up : Text → Turn
  runs : (place : ℕ) → Turn

abbrev pub set_up : Setup → Plugin → Plugin
set_up (executable e vector) p = record { vector = vector; executables = e ∷ p.executables }
set_up _ p = p

abbrev pub run : Option Executable → Plugin → Plugin
run none p = p
run (some e) p = record p { vector = exec e p.vector }

abbrev pub turn : Turn → Plugin → Plugin
turn (sets_up raw) p = set_up (quick_setup (existing p.vector) raw) p
turn (runs place) p = run (get_elem? p.executables place) p

unfoldable pub turns : List Turn → Plugin → Plugin
turns [] p = p
turns (t ∷ ts) p = turns ts (turn t p)

-- The decisions of the executables by themselves, and how often one of those named so ran.
abbrev pub names_after : Turn → List Text → List Text
names_after (sets_up raw) names =
    if is_empty (trim_space raw) then names else trim_space raw ∷ names
names_after (runs place) names = names

abbrev pub is_named : Text → Option Text → Bool
is_named decision none = false
is_named decision (some name) = text_eq name decision

abbrev pub is_run_of : Text → Turn → List Text → Bool
is_run_of decision (sets_up raw) names = false
is_run_of decision (runs place) names = is_named decision (get_elem? names place)

abbrev pub runs_of : Text → List Turn → List Text → ℕ
runs_of decision [] names = 0
runs_of decision (t ∷ ts) names =
    (if is_run_of decision t names then 1 else 0) + runs_of decision ts (names_after t names)

abbrev pub names : List Executable → List Text
names [] = []
names (e ∷ es) = e.decision ∷ names es

abbrev map_decision : Option Executable → Option Text
map_decision none = none
map_decision (some e) = some e.decision

value_of-with_label_values :
    (labels other : Labels) (m : Counters)
    → value_of other (with_label_values labels m) ≡ value_of other m
unfolding value_of with_label_values
value_of-with_label_values labels other [] = ground arith
value_of-with_label_values labels other (entry ∷ rest) =
    ground (arith, value_of-with_label_values labels other rest)

get_elem?-names :
    (es : List Executable) (place : ℕ)
    → get_elem? (names es) place ≡ map_decision (get_elem? es place)
get_elem?-names [] place = refl
get_elem?-names (e ∷ es) zero = refl
get_elem?-names (e ∷ es) (suc place) = get_elem?-names es place

one_label : (a b : Text) → labels_eq (a ∷ []) (b ∷ []) ≡ text_eq a b
one_label a b = ground arith

-- What an attempt to set one up does, in both cases.
set_up-nameless :
    (raw : Text) (p : Plugin) → is_empty (trim_space raw) ≡ true → turn (sets_up raw) p ≡ p
unfolding quick_setup
set_up-nameless raw p h = ap (λ s. set_up s p) (if_true (is_empty (trim_space raw)) _ _ h)

set_up-named :
    (raw : Text) (p : Plugin)
    → is_empty (trim_space raw) ≡ false
    → turn (sets_up raw) p ≡ record {
      vector = with_label_values (trim_space raw ∷ []) p.vector;
      executables = record { decision = trim_space raw } ∷ p.executables;
    }
unfolding quick_setup decision_counter
set_up-named raw p h = ap (λ s. set_up s p) (if_false (is_empty (trim_space raw)) _ _ h)

run-names : (o : Option Executable) (p : Plugin) → (run o p).executables ≡ p.executables
run-names none p = refl
run-names (some e) p = refl

run-counts :
    (o : Option Executable) (p : Plugin) (decision : Text)
    → value_of (decision ∷ []) (run o p).vector
      ≡ (if is_named decision (map_decision o) then 1 else 0) + value_of (decision ∷ []) p.vector
unfolding exec
run-counts none p decision = omega arith
run-counts (some e) p decision = ground (
  arith,
  value_of-increase (e.decision ∷ []) (decision ∷ []) p.vector,
  one_label e.decision decision,
)

turn-names :
    (t : Turn) (p : Plugin) → names (turn t p).executables ≡ names_after t (names p.executables)
turn-names (sets_up raw) p = elim (Bool-cases (is_empty (trim_space raw))) [
  | inl nameless ↦ rw (set_up-nameless raw p nameless, nameless) refl
  | inr named ↦ rw (set_up-named raw p named, named) refl
]
turn-names (runs place) p = ap names (run-names (get_elem? p.executables place) p)

turn-counts :
    (t : Turn) (p : Plugin) (decision : Text)
    → value_of (decision ∷ []) (turn t p).vector
      ≡ (if is_run_of decision t (names p.executables) then 1 else 0)
        + value_of (decision ∷ []) p.vector
turn-counts (sets_up raw) p decision = elim (Bool-cases (is_empty (trim_space raw))) [
  | inl nameless ↦ rw (set_up-nameless raw p nameless) (omega arith)
  | inr named ↦
      rw (set_up-named raw p named)
        (omega (arith, value_of-with_label_values (trim_space raw ∷ []) (decision ∷ []) p.vector))
]
turn-counts (runs place) p decision =
    rw (get_elem?-names p.executables place) (run-counts (get_elem? p.executables place) p decision)

-- Whatever executables are set up and run in turn, with the vector shared by all: the count of a
-- decision grows by the runs of the executables whose argument, without the space around it, is that
-- decision, and an argument with nothing but space sets up none.
pub turns-counts :
    (ts : List Turn) (p : Plugin) (decision : Text)
    → value_of (decision ∷ []) (turns ts p).vector
      ≡ runs_of decision ts (names p.executables) + value_of (decision ∷ []) p.vector
unfolding turns
turns-counts [] p decision = omega arith
turns-counts (t ∷ ts) p decision =
    let later = turns-counts ts (turn t p) decision in
    let known = ap (runs_of decision ts) (turn-names t p) in
    omega (arith, later, known, turn-counts t p decision)
