-- ===== src/Clock/Laws.antt =====
-- Conversions between timestamps and NTP-64 times, and the widening of a 32-bit timestamp.
use ristgo.Prelude.{ℕ, ◌+◌, ◌*◌, ◌/◌, ◌%◌, ◌^◌, ◌<◌, ◌≡◌, arith}
use ristgo.Prelude.{◌⊎◌}
use ristgo.Prelude.Int.{
  pos_part, neg_part, add64, sub64, add64_parts, sub64_parts, to_word32_parts, +ℤ_parts,
}
use ristgo.Prelude.Int.{pos, negsuc, ◌≤ℤ◌, ◌+ℤ◌, to_word}
use ristgo.Prelude.Bits.{bit_or-fields}
use ristgo.Clock.{Timestamp, ntp_from_timestamp, ntp_timestamp, from_32bit_timestamp}

-- A timestamp from 0 up to 2^32 seconds survives the way to NTP-64 and back to the microsecond.
pub ntp_timestamp-ntp_from_timestamp :
    (t : ℕ) → t < 2 ^ 32 * 1_000_000 → ntp_timestamp (ntp_from_timestamp (pos t)) ≡ pos t
unfolding ntp_timestamp ntp_from_timestamp
ntp_timestamp-ntp_from_timestamp t h =
    ground
      (arith, bit_or-fields 32 (t / 1_000_000) ((t % 1_000_000 * 2 ^ 32 + 500_000) / 1_000_000))

-- The three cases of the widening, with the arithmetic done without wrapping.
widen_cases :
    (ts32 : ℕ) (reference : Timestamp)
    → ts32 < 2 ^ 32
    → negsuc (2 ^ 62) ≤ℤ reference
    → reference ≤ℤ pos (2 ^ 62)
    → let r = from_32bit_timestamp ts32 reference in
      let low = to_word (2 ^ 32) reference in
      (r ≤ℤ reference +ℤ pos (2 ^ 31))
      × (reference ≤ℤ r +ℤ pos (2 ^ 31))
      × ((pos_part r + neg_part reference + low ≡ neg_part r + pos_part reference + ts32)
          ⊎ (pos_part r + neg_part reference + low + 2 ^ 32
              ≡ neg_part r + pos_part reference + ts32)
          ⊎ (pos_part r + neg_part reference + low
              ≡ neg_part r + pos_part reference + ts32 + 2 ^ 32))
unfolding from_32bit_timestamp
widen_cases ts32 reference h lo hi =
    let low = pos (to_word (2 ^ 32) reference) in
    let base = sub64 reference low in
    let candidate = add64 base (pos ts32) in
    let earlier = sub64 base (pos (2 ^ 32)) in
    let later = add64 base (pos (2 ^ 32)) in
    ground (
      arith,
      to_word32_parts reference,
      sub64_parts reference low,
      add64_parts base (pos ts32),
      sub64_parts candidate reference,
      sub64_parts base (pos (2 ^ 32)),
      add64_parts base (pos (2 ^ 32)),
      add64_parts earlier (pos ts32),
      add64_parts later (pos ts32),
      +ℤ_parts reference (pos (2 ^ 31)),
      +ℤ_parts (from_32bit_timestamp ts32 reference) (pos (2 ^ 31)),
    )

-- For a reference within 2^62 of 0, the widened timestamp has the 32 bits received, and is
-- within half a period of the reference.
pub from_32bit_timestamp_nearest :
    (ts32 : ℕ) (reference : Timestamp)
    → ts32 < 2 ^ 32
    → negsuc (2 ^ 62) ≤ℤ reference
    → reference ≤ℤ pos (2 ^ 62)
    → (to_word (2 ^ 32) (from_32bit_timestamp ts32 reference) ≡ ts32)
      × (from_32bit_timestamp ts32 reference ≤ℤ reference +ℤ pos (2 ^ 31))
      × (reference ≤ℤ from_32bit_timestamp ts32 reference +ℤ pos (2 ^ 31))
from_32bit_timestamp_nearest ts32 reference h lo hi =
    let (above, below, sum) = widen_cases ts32 reference h lo hi in
    (
      omega (
        arith,
        to_word32_parts reference,
        to_word32_parts (from_32bit_timestamp ts32 reference),
        sum,
      ),
      above,
      below,
    )
