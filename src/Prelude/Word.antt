-- ===== src/Prelude/Word.antt =====
-- Go's 64-bit integers as bit patterns below 2 ^ 64, and the times and durations built on them.
-- A `time.Duration` is an `int64` of nanoseconds. A `time.Time` is a number of nanoseconds after
-- Go's zero time, which is `0` here; readings of the clock are far above 2 ^ 63.
use Prim.Native.Nat.{ℕ, ◌+◌, ◌-◌, ◌*◌, ◌%◌, ◌<◌}
use mathlib.Core.Path.{◌≡◌}
use mathlib.Core.Bool.{Bool}
use native.Mathlib.Omega.{arith}
use guard_dns.Prelude.Tests.{ltb, leb, if◌then◌else◌}

abbrev pub two_62 : ℕ
two_62 = 4611686018427387904

abbrev pub two_63 : ℕ
two_63 = 9223372036854775808

abbrev pub two_64 : ℕ
two_64 = 18446744073709551616

-- What a 64-bit register keeps of a number.
abbrev pub wrap64 : ℕ → ℕ
wrap64 n = n % two_64

-- `a < b` and `a <= b` of two `int64` values: two's complement with the sign bit flipped.
abbrev pub ltb_i64 : ℕ → ℕ → Bool
ltb_i64 a b = ltb (wrap64 (a + two_63)) (wrap64 (b + two_63))

abbrev pub leb_i64 : ℕ → ℕ → Bool
leb_i64 a b = leb (wrap64 (a + two_63)) (wrap64 (b + two_63))

-- `t.Add(d)`.
abbrev pub add_time : ℕ → ℕ → ℕ
add_time t d = if ltb d two_63 then t + d else t - (two_64 - d)

-- `t.Sub(u)`: it saturates at the largest and the smallest `int64`.
abbrev pub sub_time : ℕ → ℕ → ℕ
sub_time t u =
    if leb u t
    then (if ltb (t - u) two_63 then t - u else two_63 - 1)
    else if leb (u - t) two_63
    then two_64 - (u - t)
    else two_63

abbrev pub millisecond : ℕ
millisecond = 1000000

abbrev pub second : ℕ
second = 1000000000

abbrev pub minute : ℕ
minute = 60 * second

-- Two small values are ordered as the numbers that they are.
pub ltb_i64→lt : (a b : ℕ) → a < two_63 → b < two_63 → ltb_i64 a b ≡ ltb a b
ltb_i64→lt a b h k = ground arith

pub leb_i64→le : (a b : ℕ) → a < two_63 → b < two_63 → leb_i64 a b ≡ leb a b
leb_i64→le a b h k = ground arith
