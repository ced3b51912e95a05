-- ===== src/Flow/Sender.antt =====
-- internal/flow/sender.go: numbering and history of transmissions, and retransmission on NACK.
pub mod History
use ristgo.Prelude.{ℕ, ◌+◌, ◌%◌, ◌^◌, Bool, true, false, not, ◌&&◌, ◌||◌}
use ristgo.Prelude.{Option, none, some, List, [], ◌∷◌, length, ◌==◌, if◌then◌else◌}
use ristgo.Prelude.Int.{pos, ltb_ℤ, leb_ℤ, mul64}
use ristgo.Clock.{Timestamp, Microseconds, add, since, ntp_from_timestamp}
use ristgo.Rtt.{last_clamped}
use ristgo.Wire.{MediaPacket, FragRole, rtt_echo_request}
use ristgo.Flow.Fifo.{push}
use ristgo.Flow.Effects.{
  TimerId, timer_playout, timer_nack, timer_rtt_echo, unknown, set_timer, send_media, send_feedback,
  inc64, add_u64,
}
use ristgo.Flow.Config.{congestion_aggressive, rtt_echo_interval}
use ristgo.Flow.Congestion.{feed_bitrate, over_budget, wire_bytes}
use ristgo.Flow.State.{
  Flow, SenderState, SenderSlot, slot_filled, is_filled, sender_slot_at, put_sender_slot,
}

abbrev pub or_default : Option ℕ → ℕ → ℕ
or_default none d = d
or_default (some x) d = x

-- The first transmission arms the echo timer.
unfoldable pub start_sender : Timestamp → Flow → Flow
start_sender now f =
    let g : Flow = record f { sender = record (f.sender) { started = true } } in
    if f.sender.started then f else if f.cfg.no_recovery then g else record g {
      outputs = push g.outputs (set_timer timer_rtt_echo (add now rtt_echo_interval));
    }

abbrev pub history_slot : ℕ → ℕ → List ℕ → FragRole → SenderSlot
history_slot seqn src_time payload frag = record {
  payload = payload;
  source_time = src_time;
  seq = seqn;
  transmit_count = 0;
  last_retry = pos 0;
  retried = false;
  frag = frag;
  state = slot_filled;
}

-- The packet of a SendMedia effect; the sender leaves the receive-only fields at zero.
abbrev pub media_of : SenderState → SenderSlot → Bool → MediaPacket
media_of s sl retransmit = record {
  seq = sl.seq;
  source_time = sl.source_time;
  ssrc = s.ssrc;
  payload = sl.payload;
  retransmit = retransmit;
  path_id = s.tx_path;
  frag = sl.frag;
  virt_src_port = 0;
  virt_dst_port = 0;
  short_seq = false;
}

-- `pushAppBlock`; a nil pointer is `none`.
unfoldable pub push_app_block : Timestamp → List ℕ → FragRole → Option ℕ → Option ℕ → Flow → Flow
unfolding start_sender
push_app_block now payload frag seq source_time f =
    let g = start_sender now f in
    let s = g.sender in
    let seqn = or_default seq s.next_seq in
    let src_time = or_default source_time (ntp_from_timestamp now) in
    let sl = history_slot seqn src_time payload frag in
    let kept = if g.cfg.no_recovery then s else put_sender_slot s seqn sl in
    let st = g.stats in
    record g {
      sender = record kept {
        next_seq = (seqn + 1) % 2 ^ 32;
        data_bw = feed_bitrate s.data_bw now (wire_bytes (length payload));
      };
      outputs = push g.outputs (send_media s.tx_path (media_of s sl false));
      stats = record st {
        sent = inc64 st.sent;
        sent_bytes = add_u64 st.sent_bytes (length payload);
      };
    }

-- The cases of the switch of `serviceNack`, in its order.
pub data Gate : Type 0 where
  aged suppressed over exhausted resend : Gate

unfoldable pub gate : Timestamp → Microseconds → Flow → ℕ → Gate
gate now rtt f missing =
    let s = f.sender in
    let sl = sender_slot_at s missing in
    if not (is_filled sl.state) || not (sl.seq == missing)
    then aged
    else if sl.retried && ltb_ℤ (since now sl.last_retry) rtt
    then suppressed
    else if over_budget f.cfg.congestion_control s.data_bw s.retry_bw f.cfg.recovery_max_bitrate
    then over
    else if leb_ℤ f.cfg.max_retries (pos sl.transmit_count)
    then exhausted
    else resend

unfoldable pub retransmit : Timestamp → ℕ → Flow → Flow
retransmit now missing f =
    let s = f.sender in
    let sl = sender_slot_at s missing in
    let sl' : SenderSlot = record sl {
      last_retry = now;
      retried = true;
      transmit_count = sl.transmit_count + 1;
    } in
    let st = f.stats in
    record f {
      sender = record (put_sender_slot s missing sl') {
        retry_bw = feed_bitrate s.retry_bw now (wire_bytes (length sl.payload));
      };
      outputs = push f.outputs (send_media s.tx_path (media_of s sl true));
      stats = record st {
        retransmitted = inc64 st.retransmitted;
        retransmitted_bytes = add_u64 st.retransmitted_bytes (length sl.payload);
      };
    }

-- A request refused by a gate only moves that gate's counter.
unfoldable pub refuse : Gate → Flow → Flow
refuse aged f =
    let st = f.stats in
    record f { stats = record st { retransmit_skipped = inc64 st.retransmit_skipped } }
refuse suppressed f =
    let st = f.stats in
    record f { stats = record st { retransmit_suppressed = inc64 st.retransmit_suppressed } }
refuse over f =
    let st = f.stats in
    record f { stats = record st { bandwidth_skipped = inc64 st.bandwidth_skipped } }
refuse exhausted f =
    let st = f.stats in
    record f { stats = record st { retransmit_exhausted = inc64 st.retransmit_exhausted } }
refuse resend f = f

abbrev pub is_resend : Gate → Bool
is_resend resend = true
is_resend _ = false

-- The loop over the requested sequences; `emitted` counts this pass's retransmissions.
unfoldable pub service_loop : Timestamp → Microseconds → List ℕ → ℕ → Flow → Flow
unfolding gate retransmit refuse
service_loop now rtt [] emitted f = f
service_loop now rtt (missing ∷ rest) emitted f =
    let sent = retransmit now missing f in
    let after_sent = service_loop now rtt rest (emitted + 1) sent in
    let after_refused = service_loop now rtt rest emitted (refuse (gate now rtt f missing) f) in
    if is_resend (gate now rtt f missing)
    then (if leb_ℤ f.max_nacks_per_loop (pos (emitted + 1)) then sent else after_sent)
    else after_refused

-- The suppression spacing: one clamped round trip, or two under aggressive control.
unfoldable pub spacing : Flow → Microseconds
spacing f =
    let rtt = last_clamped f.est f.cfg.rtt_min f.cfg.rtt_max in
    elim (f.cfg.congestion_control) [ congestion_aggressive ↦ mul64 rtt (pos 2) | _ ↦ rtt ]

unfoldable pub refresh_rates : Timestamp → Flow → Flow
refresh_rates now f =
    let s = f.sender in
    record f {
      sender = record s {
        data_bw = feed_bitrate s.data_bw now 0;
        retry_bw = feed_bitrate s.retry_bw now 0;
      };
    }

unfoldable pub service_nack : Timestamp → List ℕ → Flow → Flow
unfolding service_loop spacing refresh_rates
service_nack now missing f = service_loop now (spacing f) missing 0 (refresh_rates now f)

unfoldable pub sender_handle_timer : Timestamp → TimerId → Flow → Flow
sender_handle_timer now timer_rtt_echo f =
    let request = send_feedback f.sender.tx_path (rtt_echo_request 0 (ntp_from_timestamp now)) in
    let rearm = set_timer timer_rtt_echo (add now rtt_echo_interval) in
    if f.sender.started then record f { outputs = push (push f.outputs request) rearm } else f
sender_handle_timer now timer_playout f = f
sender_handle_timer now timer_nack f = f
sender_handle_timer now (unknown n) f = f
