-- ===== src/Prelude/Decimal.antt =====
-- Decimal numbers as `strconv.Atoi` reads and `strconv.Itoa` prints them.
use Prim.Native.Nat.{ℕ, zero, suc, ◌+◌, ◌-◌, ◌*◌, ◌/◌, ◌%◌, ◌^◌, ◌≤◌, ◌<◌}
use mathlib.Core.Path.{◌≡◌, refl, ap, ◌∙◌}
use mathlib.Core.Bool.{Bool, true, false, not, ◌&&◌, ◌||◌}
use mathlib.Core.List.{[], ◌∷◌}
use mathlib.Core.Option.{Option, none, some}
use native.Mathlib.Omega.{arith}
use guard_dns.Prelude.Tests.{ltb, leb, ◌==◌, if◌then◌else◌}
use guard_dns.Prelude.Text.{Text, is_empty}

abbrev pub is_digit : ℕ → Bool
is_digit c = leb b'0' c && leb c b'9'

abbrev pub all_digits : Text → Bool
all_digits [] = true
all_digits (c ∷ cs) = is_digit c && all_digits cs

-- The number that digits spell, behind those that were read.
abbrev pub value_from : ℕ → Text → ℕ
value_from n [] = n
value_from n (c ∷ cs) = value_from (10 * n + (c - b'0')) cs

-- An `int`: `below` is the number with a minus sign.
pub data Int64 : Type 0 where
  above below : ℕ → Int64

abbrev pub max_int64 : ℕ
max_int64 = 9223372036854775807

unfoldable pub magnitude : Text → Option ℕ
magnitude digits =
    if is_empty digits || not (all_digits digits) then none else some (value_from 0 digits)

abbrev signed : (negative : Bool) → Option ℕ → Option Int64
signed negative none = none
signed true (some n) = if leb n (max_int64 + 1) then some (below n) else none
signed false (some n) = if leb n max_int64 then some (above n) else none

-- `strconv.Atoi`: one sign at most, then digits alone, and a number that fits.
unfoldable pub atoi : Text → Option Int64
unfolding magnitude
atoi [] = none
atoi (c ∷ cs) =
    if c == b'-'
    then signed true (magnitude cs)
    else if c == b'+'
    then signed false (magnitude cs)
    else signed false (magnitude (c ∷ cs))

-- The loop of `strconv.Itoa`, which writes the last digit first; an `int` has 19 digits at most.
emit : ℕ → ℕ → Text → Text
emit zero n out = out
emit (suc rounds) n out =
    let more = emit rounds (n / 10) ((b'0' + n % 10) ∷ out) in
    if ltb n 10 then (b'0' + n) ∷ out else more

unfoldable pub itoa : ℕ → Text
unfolding emit
itoa n = emit 20 n []

emit-digits :
    (rounds n : ℕ) (out : Text) → all_digits out ≡ true → all_digits (emit rounds n out) ≡ true
unfolding emit
emit-digits zero n out h = h
emit-digits (suc rounds) n out h =
    ground (arith, emit-digits rounds (n / 10) ((b'0' + n % 10) ∷ out))

-- Reading what the loop writes is reading the digits behind the number.
emit-value :
    (rounds n : ℕ) (out : Text)
    → n < 10 ^ suc rounds
    → value_from 0 (emit (suc rounds) n out) ≡ value_from n out
unfolding emit
emit-value zero n out h = ground arith
emit-value (suc rounds) n out h = ground (arith, emit-value rounds (n / 10) ((b'0' + n % 10) ∷ out))

emit-nonempty :
    (rounds n : ℕ) (out : Text) → is_empty out ≡ false → is_empty (emit rounds n out) ≡ false
unfolding emit
emit-nonempty zero n out h = h
emit-nonempty (suc rounds) n out h =
    ground (arith, emit-nonempty rounds (n / 10) ((b'0' + n % 10) ∷ out))

pub itoa-digits : (n : ℕ) → all_digits (itoa n) ≡ true
unfolding itoa
itoa-digits n = emit-digits 20 n [] refl

pub itoa-nonempty : (n : ℕ) → is_empty (itoa n) ≡ false
unfolding itoa
itoa-nonempty n = ground (arith, emit-nonempty 19 (n / 10) ((b'0' + n % 10) ∷ []))

atoi-digits :
    (t : Text)
    → is_empty t ≡ false
    → all_digits t ≡ true
    → value_from 0 t ≤ max_int64
    → atoi t ≡ some (above (value_from 0 t))
unfolding atoi
atoi-digits [] e d h = cc
atoi-digits (c ∷ cs) e d h = ground arith

pub atoi-itoa : (n : ℕ) → n ≤ max_int64 → atoi (itoa n) ≡ some (above n)
unfolding itoa
atoi-itoa n h =
    let same = emit-value 19 n [] (omega arith) in
    let read = atoi-digits (itoa n) (itoa-nonempty n) (itoa-digits n) (omega (arith, same)) in
    read ∙ ap (λ k. some (above k)) same
