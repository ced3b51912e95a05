-- ===== src/Flow/Missing.antt =====
-- Missing detection of internal/flow/receiver.go: markMissing, addMissing and scheduleNack.
pub mod Marks
use ristgo.Prelude.{ℕ, zero, suc, ◌+◌, ◌-◌, ◌/◌, ◌%◌, ◌^◌, true, ◌||◌}
use ristgo.Prelude.{[], ◌∷◌, ◌++◌, ltb, ◌==◌, if◌then◌else◌}
use ristgo.Prelude.Int.{pos, ltb_ℤ, quot, sub64}
use ristgo.Clock.{Timestamp, Microseconds, add, since, before, after}
use ristgo.Rtt.{clamped}
use ristgo.Seq.{max_gap16}
use ristgo.Flow.Fifo.{push}
use ristgo.Flow.Effects.{timer_nack, set_timer, inc64}
use ristgo.Flow.Config.{nack_cadence}
use ristgo.Flow.State.{Flow, ReceiverState, MissingEntry, slot_at, holds}

-- The insertion time of an entry: out of [now - recoveryBuffer, now] it becomes now.
unfoldable pub insertion_of : Timestamp → Timestamp → Microseconds → Timestamp
insertion_of now nack_time recovery_buffer =
    if after nack_time now
    then now
    else if before nack_time (add now (sub64 (pos 0) recovery_buffer))
    then now
    else nack_time

-- The delay of the first NACK: half the clamped round trip, and at least the reorder buffer.
unfoldable pub first_delay : Flow → Microseconds
first_delay f =
    let half_rtt = quot (clamped f.est f.cfg.rtt_min f.cfg.rtt_max) 2 in
    if ltb_ℤ half_rtt f.cfg.reorder_buffer then f.cfg.reorder_buffer else half_rtt

abbrev pub new_entry : Timestamp → ℕ → ℕ → Timestamp → Flow → MissingEntry
new_entry now path missing_seq nack_time f = record {
  seq = missing_seq;
  path = path;
  nack_count = 0;
  insertion_time = insertion_of now nack_time f.recovery_buffer;
  next_nack = add now (first_delay f);
}

unfoldable pub add_missing : Timestamp → ℕ → ℕ → Timestamp → Flow → Flow
add_missing now path missing_seq nack_time f =
    let r = f.receiver in
    record f {
      receiver = record r {
        missing = r.missing ++ (new_entry now path missing_seq nack_time f ∷ []);
        missing_count = r.missing_count + 1;
      };
      stats = record (f.stats) { missing = inc64 f.stats.missing };
    }

-- The walk over (lastFound, current): `fuel` bounds the rounds, and the gap is enough.
unfoldable pub mark_loop : ℕ → Timestamp → ℕ → ℕ → Microseconds → Timestamp → ℕ → ℕ → Flow → Flow
mark_loop zero now path current interpacket nack_time m count f = f
mark_loop (suc fuel) now path current interpacket nack_time m count f =
    let later = add nack_time interpacket in
    let f' = add_missing now path m later f in
    let rest =
      mark_loop fuel now path current interpacket later ((m + 1) % 2 ^ 32) (count + 1) f' in
    if m == current || ltb f.missing_counter_max f.receiver.missing_count
    then f
    else if count + 1 == f.receiver.ring_len
    then f'
    else rest

-- `current - r.lastFound` on uint32.
abbrev pub gap_to : ReceiverState → ℕ → ℕ
gap_to r current = (current + 2 ^ 32 - r.last_found) % 2 ^ 32

abbrev pub max_gap : ReceiverState → ℕ
max_gap r = if r.short_seq then max_gap16 else r.ring_len / 2

unfoldable pub mark_missing : Timestamp → ℕ → ℕ → Timestamp → Flow → Flow
mark_missing now path current packet_time_now f =
    let r = f.receiver in
    let gap = gap_to r current in
    let anchor = slot_at r r.last_found in
    let packet_time_last = if holds anchor r.last_found then anchor.packet_time else now in
    let spread = since packet_time_now packet_time_last in
    let delta = if ltb_ℤ spread (pos 0) then pos 0 else spread in
    let marked =
      mark_loop gap now path current (quot delta (gap + 1)) packet_time_last
        ((r.last_found + 1) % 2 ^ 32) 1 f in
    if f.cfg.no_recovery || ltb (max_gap r) gap || gap == 0 then f else marked

unfoldable pub schedule_nack : Timestamp → Flow → Flow
schedule_nack now f =
    let r = f.receiver in
    if r.missing_count == 0 || r.nack_armed then f else record f {
      receiver = record r { nack_armed = true };
      outputs = push f.outputs (set_timer timer_nack (add now nack_cadence));
    }
