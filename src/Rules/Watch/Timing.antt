-- ===== src/Rules/Watch/Timing.antt =====
-- How the timer of `watch` in internal/rulesplugin/rulesplugin.go stands to the last change.
use guard_dns.Prelude.{
  true-false, both_true, ℕ, ◌+◌, ◌≤◌, ◌≡◌, refl, inl, inr, Bool, true, false, ◌&&◌, Option, none,
  some, arith, leb, if◌then◌else◌, is_some, Bool-cases, leb→le, sym, ◌∙◌,
}
use guard_dns.Rules.Watch.{Timer, reload_debounce, fire, fire_at, restart, has_value, drained}

-- A timer that runs is due when the last change is 200 ms old; one that has fired was due; and one that
-- does neither is not watched.
abbrev pub FitsAt : (last clock : ℕ) → (watched : Bool) → Option ℕ → (full : Bool) → Type 0
FitsAt last clock watched none true = last + reload_debounce ≤ clock
FitsAt last clock watched none false = watched ≡ false
FitsAt last clock watched (some due) full = (due ≡ last + reload_debounce) × (full ≡ false)

abbrev pub Fits : (last clock : ℕ) → (watched : Bool) → Option Timer → Type 0
Fits last clock watched none = watched ≡ false
Fits last clock watched (some x) = FitsAt last clock watched x.armed x.full

pub later-Fits :
    (last clock now : ℕ) (watched : Bool) (armed : Option ℕ) (full : Bool)
    → clock ≤ now
    → FitsAt last clock watched armed full
    → FitsAt last now watched armed full
later-Fits last clock now watched none true h f = omega (arith, h, f)
later-Fits last clock now watched none false h f = f
later-Fits last clock now watched (some due) full h f = f

pub clock-Fits :
    (last clock now : ℕ) (watched : Bool) (o : Option Timer)
    → clock ≤ now
    → Fits last clock watched o
    → Fits last now watched o
clock-Fits last clock now watched none h f = f
clock-Fits last clock now watched (some x) h f =
    later-Fits last clock now watched x.armed x.full h f

pub fire_at-Fits :
    (last clock now : ℕ) (watched : Bool) (armed : Option ℕ) (full : Bool)
    → clock ≤ now
    → FitsAt last clock watched armed full
    → Fits last now watched (some (fire_at now armed (record { armed = armed; full = full })))
fire_at-Fits last clock now watched none full h f = later-Fits last clock now watched none full h f
fire_at-Fits last clock now watched (some due) full h (e, n) = elim (Bool-cases (leb due now)) [
  | inl reached ↦ rw reached (omega (arith, e, leb→le due now reached))
  | inr early ↦ rw early (e, n)
]

pub fire-Fits :
    (last clock now : ℕ) (watched : Bool) (o : Option Timer)
    → clock ≤ now
    → Fits last clock watched o
    → Fits last now watched (fire now o)
fire-Fits last clock now watched none h f = f
fire-Fits last clock now watched (some x) h f =
    fire_at-Fits last clock now watched x.armed x.full h f

pub stopped-empty :
    (last clock : ℕ) (watched : Bool) (armed : Option ℕ) (full : Bool)
    → FitsAt last clock watched armed full
    → (if is_some armed then full else false) ≡ false
stopped-empty last clock watched none full f = refl
stopped-empty last clock watched (some due) full f = f.1

pub restart-Fits :
    (last clock now : ℕ) (watched : Bool) (o : Option Timer)
    → Fits last clock watched o
    → Fits now now true (some (restart (now + reload_debounce) o))
restart-Fits last clock now watched none f = (refl, refl)
restart-Fits last clock now watched (some x) f =
    (refl, stopped-empty last clock watched x.armed x.full f)

pub drained_at-Fits :
    (last clock now : ℕ) (watched : Bool) (armed : Option ℕ) (full : Bool)
    → full ≡ true
    → FitsAt last clock watched armed full
    → (last + reload_debounce ≤ clock) × FitsAt last now false armed false
drained_at-Fits last clock now watched none true h f = (f, refl)
drained_at-Fits last clock now watched none false h f = cc
drained_at-Fits last clock now watched (some due) full h f = elim (true-false (sym h ∙ f.1)) [ ]

pub drained-Fits :
    (last clock now : ℕ) (watched : Bool) (o : Option Timer)
    → (watched && has_value o) ≡ true
    → Fits last clock watched o
    → (last + reload_debounce ≤ clock) × Fits last now false (drained o)
drained-Fits last clock now watched none h f =
    elim (true-false (sym (both_true watched false h).1)) [ ]
drained-Fits last clock now watched (some x) h f =
    drained_at-Fits last clock now watched x.armed x.full (both_true watched x.full h).1 f

pub timer_injective : {x y : Timer} → some x ≡ some y → x ≡ y
timer_injective h = cc

pub if_full :
    (b full : Bool) (due : ℕ)
    → b ≡ true
    → (if◌then◌else◌ {A = Timer} b
        (record { armed = none; full = true })
        (record { armed = some due; full = full })).full
      ≡ true
if_full true full due h = refl
if_full false full due h = cc

pub kept_full :
    (b : Bool) (x : Timer)
    → x.full ≡ true
    → (if b then record { armed = none; full = true } else x).full ≡ true
kept_full true x h = refl
kept_full false x h = h
