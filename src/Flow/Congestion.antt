-- ===== src/Flow/Congestion.antt =====
-- internal/flow/congestion.go: the receiver's overflow guard and the sender's pacing.
use ristgo.Prelude.{ℕ, ◌+◌, ◌^◌, Bool, true, false, if◌then◌else◌, ◌&&◌}
use ristgo.Prelude.Int.{ℤ, pos, ltb_ℤ, leb_ℤ, quot, add64, sub64, mul64, to_word, pos_part}
use ristgo.Clock.{Timestamp, since}
use ristgo.Flow.Config.{Config, CongestionMode, congestion_off, congestion_normal}
use ristgo.Flow.Config.{congestion_aggressive, recovery_buffer_of}

abbrev pub rist_header_overhead_bytes : ℕ
rist_header_overhead_bytes = 28

abbrev pub rist_max_nacks : ℕ
rist_max_nacks = 200

-- A uint32.
unfoldable pub derive_missing_counter_max : Config → ℕ
unfolding recovery_buffer_of to_word
derive_missing_counter_max cfg =
    let recovery_ms = quot (recovery_buffer_of cfg) 1000 in
    let mbps = quot cfg.recovery_max_bitrate 1000 in
    let v =
      quot (mul64 recovery_ms (if ltb_ℤ mbps (pos 1) then pos 1 else mbps))
        rist_header_overhead_bytes in
    if ltb_ℤ v (pos 0) then 0 else to_word (2 ^ 32) v

-- The divisor is positive here: `bufMaxMs` was replaced where it is not.
unfoldable pub derive_max_nacks_per_loop : Config → ℤ
derive_max_nacks_per_loop cfg =
    let kbps =
      if leb_ℤ cfg.recovery_max_bitrate (pos 0) then pos 100_000 else cfg.recovery_max_bitrate in
    let ms = quot cfg.recovery_buffer_max 1000 in
    let buf_max_ms = if leb_ℤ ms (pos 0) then 1000 else pos_part ms in
    let n = quot (mul64 (quot (mul64 kbps (pos 5)) 11_200) (pos 1000)) buf_max_ms in
    mul64 (if leb_ℤ n (pos 0) && leb_ℤ (pos 0) n then pos 1 else n) (pos 2)

pub record BitrateEwma : Type 0 where
  pub bytes_slow : ℤ
  pub bytes_fast : ℤ
  pub last_slow : Timestamp
  pub last_fast : Timestamp
  pub eight_times_slow : ℤ
  pub eight_times_fast : ℤ
  pub seeded : Bool

abbrev pub no_bitrate : BitrateEwma
no_bitrate = record {
  bytes_slow = pos 0;
  bytes_fast = pos 0;
  last_slow = pos 0;
  last_fast = pos 0;
  eight_times_slow = pos 0;
  eight_times_fast = pos 0;
  seeded = false;
}

abbrev seed : BitrateEwma → Timestamp → BitrateEwma
seed b now = if b.seeded then b else record b { last_slow = now; last_fast = now; seeded = true }

-- `sample - eight/8`, added to `eight`. `elapsed` is at least the window, so positive.
abbrev fold_sample : ℤ → ℤ → ℤ → ℤ
fold_sample eight bytes elapsed =
    let sample = quot (mul64 (mul64 (pos 8) bytes) (pos 1_000_000)) (pos_part elapsed) in
    add64 eight (sub64 sample (quot eight 8))

unfoldable pub feed_bitrate : BitrateEwma → Timestamp → ℕ → BitrateEwma
feed_bitrate b now n =
    let s = seed b now in
    let slow = add64 s.bytes_slow (pos n) in
    let fast = add64 s.bytes_fast (pos n) in
    let elapsed_slow = since now s.last_slow in
    let elapsed_fast = since now s.last_fast in
    let slow_due = leb_ℤ (pos 1_000_000) elapsed_slow in
    let fast_due = leb_ℤ (pos 100_000) elapsed_fast in
    record {
      bytes_slow = if slow_due then pos 0 else slow;
      bytes_fast = if fast_due then pos 0 else fast;
      last_slow = if slow_due then now else s.last_slow;
      last_fast = if fast_due then now else s.last_fast;
      eight_times_slow =
          if slow_due then fold_sample s.eight_times_slow slow elapsed_slow else s.eight_times_slow;
      eight_times_fast =
          if fast_due then fold_sample s.eight_times_fast fast elapsed_fast else s.eight_times_fast;
      seeded = true;
    }

unfoldable pub slow_bps : BitrateEwma → ℤ
slow_bps b = quot b.eight_times_slow 8

unfoldable pub fast_bps : BitrateEwma → ℤ
fast_bps b = quot b.eight_times_fast 8

unfoldable pub over_budget : CongestionMode → BitrateEwma → BitrateEwma → ℤ → Bool
unfolding slow_bps fast_bps
over_budget congestion_off data_bw retry_bw max_kbps = false
over_budget congestion_aggressive data_bw retry_bw max_kbps =
    ltb_ℤ (mul64 max_kbps (pos 1000)) (add64 (fast_bps data_bw) (fast_bps retry_bw))
over_budget congestion_normal data_bw retry_bw max_kbps =
    ltb_ℤ (mul64 max_kbps (pos 1000)) (add64 (slow_bps data_bw) (fast_bps retry_bw))

unfoldable pub wire_bytes : ℕ → ℕ
wire_bytes payload_len = payload_len + rist_header_overhead_bytes
