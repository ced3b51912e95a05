-- ===== src/Flow/Config.antt =====
-- The configuration of internal/flow/flow.go and what is derived from it.
use ristgo.Prelude.{ℕ, zero, suc, ◌*◌, ◌^◌, Bool, false, ltb, if◌then◌else◌}
use ristgo.Prelude.{Option, none, some}
use ristgo.Prelude.Int.{ℤ, pos, ltb_ℤ, leb_ℤ, quot, add64, sub64, mul64}
use ristgo.Prelude.Floats.{Floats}
use ristgo.Clock.{Microseconds}
use ristgo.Rtt.{f1_1}

pub data Role : Type 0 where
  role_sender role_receiver : Role

pub data TimingMode : Type 0 where
  timing_source timing_arrival timing_rtc : TimingMode

pub data CongestionMode : Type 0 where
  congestion_off congestion_normal congestion_aggressive : CongestionMode

-- Go's int fields are signed; SSRC and StartSeq are uint32.
pub record Config : Type 0 where
  pub recovery_buffer_min : Microseconds
  pub recovery_buffer_max : Microseconds
  pub reorder_buffer : Microseconds
  pub rtt_min : Microseconds
  pub rtt_max : Microseconds
  pub rtt_multiplier : ℤ
  pub min_retries : ℤ
  pub max_retries : ℤ
  pub recovery_max_bitrate : ℤ
  pub congestion_control : CongestionMode
  pub return_max_bitrate : ℤ
  pub ring_size : ℤ
  pub recovery_depth : ℕ
  pub ssrc : ℕ
  pub start_seq : ℕ
  pub timing_mode : TimingMode
  pub no_recovery : Bool

abbrev pub default_ring_size : ℕ
default_ring_size = 2 ^ 16

abbrev pub max_derived_ring_size : ℕ
max_derived_ring_size = 2 ^ 21

abbrev pub nack_cadence : Microseconds
nack_cadence = pos 5000

abbrev pub rtt_echo_interval : Microseconds
rtt_echo_interval = pos 100_000

unfoldable pub default_config : Config
default_config = record {
  recovery_buffer_min = pos 1_000_000;
  recovery_buffer_max = pos 1_000_000;
  reorder_buffer = pos 15_000;
  rtt_min = pos 5000;
  rtt_max = pos 500_000;
  rtt_multiplier = pos 7;
  min_retries = pos 6;
  max_retries = pos 20;
  recovery_max_bitrate = pos 100_000;
  congestion_control = congestion_normal;
  return_max_bitrate = pos 0;
  ring_size = pos default_ring_size;
  recovery_depth = 0;
  ssrc = 0;
  start_seq = 0;
  timing_mode = timing_source;
  no_recovery = false;
}

unfoldable pub recovery_buffer_of : Config → Microseconds
recovery_buffer_of c =
    add64 (quot (sub64 c.recovery_buffer_max c.recovery_buffer_min) 2) c.recovery_buffer_min

abbrev max_ℤ : ℤ → ℤ → ℤ
max_ℤ a b = if ltb_ℤ a b then b else a

-- `8000 * ringPacketBytes` is 8_800_000. The shift by RecoveryDepth is on an int64.
unfoldable pub derive_ring_size : Config → ℤ
unfolding recovery_buffer_of
derive_ring_size cfg =
    let window =
      max_ℤ (add64 cfg.recovery_buffer_max (mul64 (pos 2) cfg.rtt_min)) (recovery_buffer_of cfg) in
    let kbps =
      if leb_ℤ cfg.recovery_max_bitrate (pos 0) then pos 100_000 else cfg.recovery_max_bitrate in
    let packets = quot (mul64 window kbps) 8_800_000 in
    let deep = mul64 (pos default_ring_size) (pos (2 ^ cfg.recovery_depth)) in
    let floor =
      if ltb zero cfg.recovery_depth
      then max_ℤ (pos default_ring_size) deep
      else pos default_ring_size in
    let raised = if ltb_ℤ packets floor then floor else packets in
    if ltb_ℤ (pos max_derived_ring_size) raised then pos max_derived_ring_size else raised

-- `for p < n { p <<= 1 }`; `none` means that the fuel ran out.
unfoldable pub next_pow2_from : ℕ → ℕ → ℕ → Option ℕ
next_pow2_from zero n p = none
next_pow2_from (suc fuel) n p =
    let rest = next_pow2_from fuel n (p * 2) in if ltb p n then rest else some p

unfoldable pub next_pow2 : ℕ → Option ℕ
unfolding next_pow2_from
next_pow2 n = next_pow2_from 63 n 1

-- `mul110`: float64(d) * 1.1, truncated.
module _ (F : Floats) where
  unfoldable pub mul110 : Microseconds → Microseconds
  mul110 d = F.trunc (F.mul (F.of_int d) f1_1)
