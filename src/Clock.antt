-- ===== src/Clock.antt =====
-- internal/clock/timestamp.go and ntp.go: microsecond timestamps (int64) and NTP-64 times (uint64).
pub mod Laws
mod Tests
use ristgo.Prelude.{ℕ, ◌+◌, ◌-◌, ◌*◌, ◌/◌, ◌%◌, ◌^◌, Bool, bit_or, if◌then◌else◌}
use ristgo.Prelude.Int.{ℤ, pos, negsuc, ltb_ℤ, to_word, signed64, wrap64, add64, sub64}

abbrev pub Microseconds : Type 0
Microseconds = ℤ

abbrev pub Timestamp : Type 0
Timestamp = ℤ

abbrev pub millisecond : Microseconds
millisecond = pos 1000

-- The methods of Timestamp, on int64.
abbrev pub add : Timestamp → Microseconds → Timestamp
add t d = add64 t d

abbrev pub since : Timestamp → Timestamp → Microseconds
since t other = sub64 t other

abbrev pub before : Timestamp → Timestamp → Bool
before t other = ltb_ℤ t other

abbrev pub after : Timestamp → Timestamp → Bool
after t other = ltb_ℤ other t

abbrev pub wrap32_period : Microseconds
wrap32_period = pos (2 ^ 32)

-- `wrap32Period / 2` and its negation.
abbrev half_period : Microseconds
half_period = pos (2 ^ 31)

abbrev minus_half_period : Microseconds
minus_half_period = negsuc (2 ^ 31 - 1)

unfoldable pub from_32bit_timestamp : ℕ → Timestamp → Timestamp
unfolding to_word
from_32bit_timestamp ts32 reference =
    let base = sub64 reference (pos (to_word (2 ^ 32) reference)) in
    let candidate = add64 base (pos ts32) in
    let diff = since candidate reference in
    if ltb_ℤ half_period diff
    then add64 (sub64 base wrap32_period) (pos ts32)
    else if ltb_ℤ diff minus_half_period
    then add64 (add64 base wrap32_period) (pos ts32)
    else candidate

abbrev pub us_per_second : ℕ
us_per_second = 1_000_000

-- `NTPTimeFromTimestamp`, in uint64 arithmetic.
unfoldable pub ntp_from_timestamp : Timestamp → ℕ
unfolding to_word
ntp_from_timestamp ts =
    if ltb_ℤ ts (pos 0)
    then 0
    else let sec = to_word (2 ^ 64) ts / us_per_second in
      let us = to_word (2 ^ 64) ts % us_per_second in
      let frac = (us * 2 ^ 32 % 2 ^ 64 + us_per_second / 2) % 2 ^ 64 / us_per_second in
      bit_or (sec * 2 ^ 32 % 2 ^ 64) frac

-- `NTPTime.Timestamp`.
unfoldable pub ntp_timestamp : ℕ → Timestamp
unfolding signed64
ntp_timestamp n =
    let sec = n / 2 ^ 32 in
    let us = (n % 2 ^ 32 * us_per_second % 2 ^ 64 + 2 ^ 31) % 2 ^ 64 / 2 ^ 32 in
    signed64 ((sec * us_per_second % 2 ^ 64 + us) % 2 ^ 64)

unfoldable pub seconds : ℕ → ℕ
seconds n = n / 2 ^ 32 % 2 ^ 32

unfoldable pub fraction : ℕ → ℕ
fraction n = n % 2 ^ 32

unfoldable pub middle32 : ℕ → ℕ
middle32 n = n / 2 ^ 16 % 2 ^ 32
