-- ===== src/Flow/Receiver.antt =====
-- Ingest of internal/flow/receiver.go: feed, start, resetReceiver, and the buffer's bounds.
pub mod Merging
use ristgo.Prelude.{ℕ, ◌+◌, ◌-◌, ◌*◌, ◌/◌, ◌%◌, ◌^◌, Bool, true, false, not, ◌&&◌, ◌||◌}
use ristgo.Prelude.{[], length, ltb, ◌==◌, if◌then◌else◌}
use ristgo.Prelude.{bit_and, bit_or}
use ristgo.Prelude.Int.{pos, ltb_ℤ, leb_ℤ, add64, mul64}
use ristgo.Clock.{Timestamp, Microseconds, add, since, before, after, ntp_timestamp}
use ristgo.Seq.{w32, less}
use ristgo.Wire.{MediaPacket}
use ristgo.Flow.Fifo.{push}
use ristgo.Flow.Effects.{timer_rtt_echo, set_timer, Stats, inc64, add_u64}
use ristgo.Flow.Config.{
  TimingMode, timing_source, timing_arrival, Role, role_sender, role_receiver, rtt_echo_interval,
}
use ristgo.Flow.State.{Flow, Slot, slot_filled, is_filled, empty_slot, slot_at, put_slot}
use ristgo.Flow.Missing.{mark_missing, schedule_nack}
use ristgo.Flow.Playout.{arm_playout}

abbrev pub src_wrap_period_ntp : ℕ
src_wrap_period_ntp = 0xFFFFFFFF * 2 ^ 32 / 90_000

abbrev pub src_wrap_half_ntp : ℕ
src_wrap_half_ntp = src_wrap_period_ntp / 2

abbrev pub src_wrap_period_micros : Microseconds
src_wrap_period_micros = pos (2 ^ 32 * 100 / 9)

unfoldable pub path_bit : ℕ → ℕ
path_bit path = 2 ^ bit_and path 63

abbrev pub is_receiver : Role → Bool
is_receiver role_receiver = true
is_receiver role_sender = false

abbrev pub is_arrival : TimingMode → Bool
is_arrival timing_arrival = true
is_arrival _ = false

abbrev pub is_source : TimingMode → Bool
is_source timing_source = true
is_source _ = false

unfoldable pub set_sender_max_buffer : Microseconds → Flow → Flow
set_sender_max_buffer max_buffer f =
    let r = f.receiver in
    let activated = record r { loss_snap = f.stats.lost; recovered_snap = f.stats.recovered } in
    let off = leb_ℤ r.sender_max_buffer (pos 0) && leb_ℤ (pos 0) r.sender_max_buffer in
    if not (is_receiver f.role)
    then f
    else if ltb_ℤ max_buffer f.cfg.recovery_buffer_min
    then record f { receiver = record r { sender_max_buffer = pos 0 } }
    else record f {
      receiver = record (if off then activated else r) { sender_max_buffer = max_buffer };
    }

unfoldable pub map_source_time : ℕ → Flow → Timestamp
map_source_time source_time f = add (ntp_timestamp source_time) f.receiver.offset

-- The inter-packet spacing at the head of `feed`.
unfoldable pub sample_spacing : Timestamp → Flow → Flow
sample_spacing now f =
    let r = f.receiver in
    let delta = since now r.ips_last_arrival in
    let sampled = record r {
      ips_cur_us = delta;
      ips_min_us = if ltb_ℤ delta r.ips_min_us then delta else r.ips_min_us;
      ips_max_us = if ltb_ℤ r.ips_max_us delta then delta else r.ips_max_us;
    } in
    record f { receiver = record (if r.started then sampled else r) { ips_last_arrival = now } }

unfoldable pub reset_receiver : Flow → Flow
reset_receiver f = record f {
  receiver = record (f.receiver) {
    ring = λ i. empty_slot;
    missing = [];
    missing_count = 0;
    started = false;
    pending_discontinuity = false;
    playout_armed = false;
    nack_armed = false;
  };
}

-- `ssrc &^ 1` on uint32.
abbrev pub flow_id : ℕ → ℕ
flow_id ssrc = bit_and ssrc 0xFFFFFFFE

unfoldable pub check_flow_id : MediaPacket → Flow → Flow
unfolding reset_receiver
check_flow_id pkt f =
    let g = reset_receiver f in
    if f.receiver.started && not pkt.retransmit && not (flow_id pkt.ssrc == flow_id f.receiver.ssrc)
    then record g { stats = record (g.stats) { flow_resets = inc64 g.stats.flow_resets } }
    else f

abbrev same_bool : Bool → Bool → Bool
same_bool true b = b
same_bool false b = not b

unfoldable pub check_framing : Timestamp → MediaPacket → Flow → Flow
check_framing now pkt f =
    let r = f.receiver in
    if r.started && not pkt.retransmit && not (same_bool pkt.short_seq r.short_seq)
    then record f {
      receiver = record r {
        offset = since now (ntp_timestamp pkt.source_time);
        max_source_time = pkt.source_time;
        last_packet_time = now;
        last_resync = now;
        short_seq = pkt.short_seq;
      };
      stats = record (f.stats) { framing_resets = inc64 f.stats.framing_resets };
    }
    else f

-- A ring slot for a packet that arrived at `now`.
unfoldable pub slot_of : MediaPacket → Timestamp → Timestamp → Microseconds → ℕ → Slot
unfolding path_bit
slot_of pkt now packet_time buffer path = record {
  payload = pkt.payload;
  source_time = pkt.source_time;
  arrival = now;
  packet_time = packet_time;
  output_time = add packet_time buffer;
  path_seen = path_bit path;
  seq = pkt.seq;
  frag = pkt.frag;
  virt_src_port = pkt.virt_src_port;
  virt_dst_port = pkt.virt_dst_port;
  state = slot_filled;
}

abbrev count_received : MediaPacket → Stats → Stats
count_received pkt st = record st {
  received = inc64 st.received;
  received_bytes = add_u64 st.received_bytes (length pkt.payload);
}

unfoldable pub start : Timestamp → ℕ → MediaPacket → Flow → Flow
unfolding slot_of
start now path pkt f =
    let r = f.receiver in
    let s = slot_of pkt now now f.recovery_buffer path in
    let anchored = record (put_slot r pkt.seq s) {
      offset = since now (ntp_timestamp pkt.source_time);
      started = true;
      ssrc = pkt.ssrc;
      short_seq = pkt.short_seq;
      last_found = pkt.seq;
      max_source_time = pkt.source_time;
      last_packet_time = now;
      last_resync = now;
      highest = pkt.seq;
      deliver_next = pkt.seq;
      last_path = path;
    } in
    let g =
      arm_playout s.output_time
        (record f { receiver = anchored; stats = count_received pkt f.stats }) in
    if f.cfg.no_recovery then g else record g {
      outputs = push g.outputs (set_timer timer_rtt_echo (add now rtt_echo_interval));
    }

-- The source-clock re-anchor after a backward wrap.
unfoldable pub wraps_back : Timestamp → MediaPacket → Flow → Bool
wraps_back now pkt f =
    let r = f.receiver in
    is_source f.cfg.timing_mode
    && not pkt.retransmit
    && ltb pkt.source_time r.max_source_time
    && ltb src_wrap_half_ntp (r.max_source_time - pkt.source_time)
    && leb_ℤ (mul64 (pos 3) f.recovery_buffer) (since now r.last_resync)

unfoldable pub reanchor : Timestamp → MediaPacket → Flow → Flow
unfolding map_source_time
reanchor now pkt f =
    let r = f.receiver in
    let g : Flow = record f {
      receiver = record r { offset = add64 r.offset src_wrap_period_micros };
    } in
    record g {
      receiver = record (g.receiver) {
        max_source_time = pkt.source_time;
        last_packet_time = map_source_time pkt.source_time g;
        last_resync = now;
      };
      stats = record (g.stats) { clock_resync = inc64 g.stats.clock_resync };
    }

-- The packet's local time, with the state after a re-anchor.
unfoldable pub packet_time_of : Timestamp → MediaPacket → Flow → Timestamp × Flow
unfolding map_source_time wraps_back reanchor
packet_time_of now pkt f =
    let g = reanchor now pkt f in
    if is_arrival f.cfg.timing_mode
    then (now, f)
    else if wraps_back now pkt f
    then (map_source_time pkt.source_time g, g)
    else (map_source_time pkt.source_time f, f)

unfoldable pub track_newest : Timestamp → MediaPacket → Flow → Flow
track_newest packet_time pkt f =
    let r = f.receiver in
    if ltb r.max_source_time pkt.source_time
    then record f {
      receiver = record r { max_source_time = pkt.source_time; last_packet_time = packet_time };
    }
    else f

-- Older than the newest packet time, and not the successor of lastFound.
unfoldable pub behind : Timestamp → MediaPacket → Flow → Bool
behind packet_time pkt f =
    let r = f.receiver in
    not (is_arrival f.cfg.timing_mode)
    && before packet_time r.last_packet_time
    && not (pkt.seq == (r.last_found + 1) % 2 ^ 32)

-- Shed as too late: past the source-time deadline, or behind the playout cursor.
unfoldable pub too_late : Timestamp → Timestamp → MediaPacket → Flow → Bool
unfolding behind
too_late now packet_time pkt f =
    behind packet_time pkt f && after now (add packet_time f.recovery_buffer110)
    || less w32 pkt.seq f.receiver.deliver_next

abbrev count_too_late : MediaPacket → Stats → Stats
count_too_late pkt st = record st {
  too_late = inc64 st.too_late;
  too_late_retransmit =
      if pkt.retransmit then inc64 st.too_late_retransmit else st.too_late_retransmit;
}

-- The duplicate test: the whole multipath merge.
abbrev pub is_duplicate : Slot → MediaPacket → Bool
is_duplicate s pkt = is_filled s.state && s.seq == pkt.seq && s.source_time == pkt.source_time

unfoldable pub drop_duplicate : ℕ → MediaPacket → Flow → Flow
unfolding path_bit
drop_duplicate path pkt f =
    let r = f.receiver in
    let s = slot_at r pkt.seq in
    record f {
      receiver = put_slot r pkt.seq (record s { path_seen = bit_or s.path_seen (path_bit path) });
      stats = record (f.stats) { duplicates = inc64 f.stats.duplicates };
    }

-- The insertion, up to and with the choice of the feedback path.
unfoldable pub insert : Timestamp → ℕ → Timestamp → Bool → MediaPacket → Flow → Flow
unfolding slot_of
insert now path packet_time out_of_order pkt f =
    let r = f.receiver in
    let st = f.stats in
    let stale = is_filled (slot_at r pkt.seq).state in
    record f {
      receiver = record (put_slot r pkt.seq (slot_of pkt now packet_time f.recovery_buffer path)) {
        highest = if less w32 r.highest pkt.seq then pkt.seq else r.highest;
        last_path = path;
      };
      stats = count_received pkt (record st {
        overwritten = if stale then inc64 st.overwritten else st.overwritten;
        reordered = if out_of_order then inc64 st.reordered else st.reordered;
      });
    }

-- Missing detection and the advance of lastFound.
unfoldable pub advance : Timestamp → ℕ → Timestamp → Bool → MediaPacket → Flow → Flow
advance now path packet_time out_of_order pkt f =
    let g =
      if (pkt.seq + 2 ^ 32 - 1) % 2 ^ 32 == f.receiver.last_found
      then f
      else mark_missing now path pkt.seq packet_time f in
    if pkt.retransmit || out_of_order
    then f
    else record g { receiver = record (g.receiver) { last_found = pkt.seq } }

-- From the too-late tests on.
unfoldable pub admit : Timestamp → ℕ → Timestamp → MediaPacket → Flow → Flow
unfolding too_late behind drop_duplicate
admit now path packet_time pkt f =
    let out_of_order = behind packet_time pkt f && not pkt.retransmit in
    let g =
      advance now path packet_time out_of_order pkt
        (insert now path packet_time out_of_order pkt f) in
    if too_late now packet_time pkt f
    then record f { stats = count_too_late pkt f.stats }
    else if is_duplicate (slot_at f.receiver pkt.seq) pkt
    then drop_duplicate path pkt f
    else schedule_nack now (arm_playout (add packet_time f.recovery_buffer) g)

-- A started flow's packet.
unfoldable pub ingest : Timestamp → ℕ → MediaPacket → Flow → Flow
unfolding packet_time_of track_newest
ingest now path pkt f =
    let st = f.stats in
    let counted : Flow =
      if pkt.retransmit
      then record f {
        stats = record st { retransmitted_received = inc64 st.retransmitted_received };
      }
      else f in
    let (packet_time, timed) = packet_time_of now pkt counted in
    admit now path packet_time pkt (track_newest packet_time pkt timed)

-- The steps of `feed` before the flow is known to be started.
unfoldable pub prepare : Timestamp → MediaPacket → Flow → Flow
unfolding sample_spacing check_flow_id check_framing
prepare now pkt f = check_framing now pkt (check_flow_id pkt (sample_spacing now f))

unfoldable pub feed : Timestamp → ℕ → MediaPacket → Flow → Flow
unfolding prepare
feed now path pkt f =
    let g = prepare now pkt f in
    if g.receiver.started
    then ingest now path pkt g
    else if pkt.retransmit
    then g
    else start now path pkt g
