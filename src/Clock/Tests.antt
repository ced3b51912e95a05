-- ===== src/Clock/Tests.antt =====
-- Runs at concrete times, and the theorems at them.
use ristgo.Prelude.{◌+◌, ◌^◌, ◌≡◌, refl, arith}
use ristgo.Prelude.Int.{pos, to_word, ◌+ℤ◌, ◌≤ℤ◌}
use ristgo.Clock.{ntp_from_timestamp, ntp_timestamp, from_32bit_timestamp}
use ristgo.Clock.Laws.{ntp_timestamp-ntp_from_timestamp, from_32bit_timestamp_nearest}

ntp_half_second : ntp_from_timestamp (pos 1_500_000) ≡ 2 ^ 32 + 2 ^ 31
unfolding ntp_from_timestamp
ntp_half_second = refl

ntp_timestamp-ntp_from_timestamp_example :
    ntp_timestamp (ntp_from_timestamp (pos 1_500_000)) ≡ pos 1_500_000
ntp_timestamp-ntp_from_timestamp_example = ntp_timestamp-ntp_from_timestamp 1_500_000 (omega arith)

from_32bit_timestamp_nearest_example :
    (to_word (2 ^ 32) (from_32bit_timestamp 7 (pos 5_000_000_000)) ≡ 7)
    × (from_32bit_timestamp 7 (pos 5_000_000_000) ≤ℤ pos 5_000_000_000 +ℤ pos (2 ^ 31))
    × (pos 5_000_000_000 ≤ℤ from_32bit_timestamp 7 (pos 5_000_000_000) +ℤ pos (2 ^ 31))
from_32bit_timestamp_nearest_example =
    from_32bit_timestamp_nearest 7 (pos 5_000_000_000) (omega arith) (omega arith) (omega arith)
