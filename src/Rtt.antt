-- ===== src/Rtt.antt =====
-- internal/rtt/rtt.go: the smoothed and the last round-trip time of one path, as an immutable value.
pub mod Laws
mod Tests
use ristgo.Prelude.{ℕ, if◌then◌else◌}
use ristgo.Prelude.Int.{ℤ, pos, ltb_ℤ, quot, add64, sub64, mul64}
use ristgo.Prelude.Floats.{Floats}
use ristgo.Clock.{Microseconds}

pub record Estimator : Type 0 where
  pub eight_times_rtt : Microseconds
  pub last_sample : Microseconds

-- `rttMinFloor`: 3 ms.
abbrev pub rtt_min_floor : Microseconds
rtt_min_floor = pos 3000

unfoldable pub effective_rtt_min : Microseconds → Microseconds
effective_rtt_min rtt_min = if ltb_ℤ rtt_min rtt_min_floor then rtt_min_floor else rtt_min

-- `New`.
unfoldable pub new : Microseconds → Estimator
new rtt_min =
    let m = if ltb_ℤ rtt_min (pos 0) then pos 0 else rtt_min in
    record { eight_times_rtt = mul64 m (pos 8); last_sample = pos 0 }

unfoldable pub observe : Estimator → Microseconds → Estimator
observe e sample =
    let s = if ltb_ℤ sample (pos 0) then pos 0 else sample in
    let decayed = sub64 e.eight_times_rtt (quot e.eight_times_rtt 8) in
    record { eight_times_rtt = add64 decayed s; last_sample = s }

unfoldable pub smoothed : Estimator → Microseconds
smoothed e = quot e.eight_times_rtt 8

unfoldable pub clamp : Microseconds → Microseconds → Microseconds → Microseconds
clamp rtt rtt_min rtt_max =
    if ltb_ℤ rtt rtt_min then rtt_min else if ltb_ℤ rtt_max rtt then rtt_max else rtt

unfoldable pub clamped : Estimator → Microseconds → Microseconds → Microseconds
unfolding clamp smoothed effective_rtt_min
clamped e rtt_min rtt_max = clamp (smoothed e) (effective_rtt_min rtt_min) rtt_max

unfoldable pub last : Estimator → Microseconds
last e = e.last_sample

unfoldable pub last_clamped : Estimator → Microseconds → Microseconds → Microseconds
unfolding clamp last effective_rtt_min
last_clamped e rtt_min rtt_max = clamp e.last_sample (effective_rtt_min rtt_min) rtt_max

-- The float64 literal 1.1.
abbrev pub f1_1 : ℕ
f1_1 = 0x3FF199999999999A

module _ (F : Floats) where
  unfoldable pub retry_interval : Estimator → Microseconds → Microseconds → Microseconds
  unfolding clamped
  retry_interval e rtt_min rtt_max = F.trunc (F.mul (F.of_int (clamped e rtt_min rtt_max)) f1_1)
