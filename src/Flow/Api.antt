-- ===== src/Flow/Api.antt =====
-- The entry points of internal/flow/flow.go, and the buffer's auto-scaling that a timer drives.
use ristgo.Prelude.{ℕ, ◌+◌, ◌-◌, ◌%◌, ◌^◌, Bool, false, ◌&&◌, ◌||◌, ltb, if◌then◌else◌}
use ristgo.Prelude.{Option, none, List}
use ristgo.Prelude.Int.{ℤ, pos, ltb_ℤ, leb_ℤ, add64, sub64, mul64}
use ristgo.Prelude.Floats.{Floats}
use ristgo.Clock.{Timestamp, Microseconds, add, since, ntp_timestamp, ntp_from_timestamp}
use ristgo.Rtt.{observe, smoothed}
use ristgo.Wire.{
  MediaPacket, Feedback, FragRole, frag_standalone, nack_request, rtt_echo_request,
  rtt_echo_response,
}
use ristgo.Flow.Fifo.{push, pop}
use ristgo.Flow.Effects.{
  TimerId, timer_playout, timer_nack, timer_rtt_echo, unknown, Output, Deliver, set_timer,
  send_feedback, inc64,
}
use ristgo.Flow.Config.{role_sender, role_receiver, mul110, rtt_echo_interval}
use ristgo.Flow.State.{Flow}
use ristgo.Flow.Receiver
use ristgo.Flow.Missing.{schedule_nack}
use ristgo.Flow.Nacks.{process_nacks}
use ristgo.Flow.Playout.{deliver_due}
use ristgo.Flow.Sender.{push_app_block, service_nack, sender_handle_timer}

unfoldable pub feed : Timestamp → ℕ → MediaPacket → Flow → Flow
feed now path pkt f = elim (f.role) [
  | role_receiver ↦ Receiver.feed now path pkt f
  | role_sender ↦ f
]

unfoldable pub push_app_frag : Timestamp → List ℕ → FragRole → Flow → Flow
push_app_frag now payload frag f = elim (f.role) [
  | role_sender ↦ push_app_block now payload frag none none f
  | role_receiver ↦ f
]

unfoldable pub push_app : Timestamp → List ℕ → Flow → Flow
unfolding push_app_frag
push_app now payload f = push_app_frag now payload frag_standalone f

-- `PushAppBlock`, the explicit form; a nil pointer is `none`.
unfoldable pub push_app_explicit : Timestamp → List ℕ → FragRole → Option ℕ → Option ℕ → Flow → Flow
push_app_explicit now payload frag seq source_time f = elim (f.role) [
  | role_sender ↦ push_app_block now payload frag seq source_time f
  | role_receiver ↦ f
]

unfoldable pub set_rtt_multiplier : ℤ → Flow → Flow
set_rtt_multiplier multiplier f = record f { cfg = record (f.cfg) { rtt_multiplier = multiplier } }

unfoldable pub feedback_path : Flow → ℕ
feedback_path f = elim (f.role) [
  | role_sender ↦ f.sender.tx_path
  | role_receiver ↦ f.receiver.last_path
]

unfoldable pub ignore : Flow → Flow
ignore f =
    let st = f.stats in
    record f { stats = record st { ignored_feedback = inc64 st.ignored_feedback } }

unfoldable pub feed_feedback : Timestamp → Feedback → Flow → Flow
unfolding feedback_path ignore
feed_feedback now (rtt_echo_request ssrc timestamp) f = record f {
  outputs = push f.outputs (send_feedback (feedback_path f) (rtt_echo_response ssrc timestamp 0));
}
feed_feedback now (rtt_echo_response ssrc timestamp processing_delay) f =
    let sample = sub64 (since now (ntp_timestamp timestamp)) (pos processing_delay) in
    record f { est = observe f.est sample }
feed_feedback now (nack_request ssrc missing) f = elim (f.role) [
  | role_sender ↦ service_nack now missing f
  | role_receiver ↦ ignore f
]
feed_feedback now _ f = ignore f

-- The float64 constants 1, 0.05 and 0.02.
abbrev f1 : ℕ
f1 = 0x3FF0000000000000

abbrev f0_05 : ℕ
f0_05 = 0x3FA999999999999A

abbrev f0_02 : ℕ
f0_02 = 0x3F947AE147AE147B

abbrev buffer_decrease_step : Microseconds
buffer_decrease_step = pos 50_000

module _ (F : Floats) where
  -- The buffer that a recalculation wants, before the clamps.
  unfoldable pub desired_buffer : Flow → Microseconds
  desired_buffer f =
      let base = add64 (mul64 (smoothed f.est) f.cfg.rtt_multiplier) f.cfg.reorder_buffer in
      let lost = (f.stats.lost + 2 ^ 64 - f.receiver.loss_snap) % 2 ^ 64 in
      let recovered = (f.stats.recovered + 2 ^ 64 - f.receiver.recovered_snap) % 2 ^ 64 in
      let modifier =
        F.add (F.add f1 (F.mul (F.of_int (pos lost)) f0_05))
          (F.mul (F.of_int (pos recovered)) f0_02) in
      let grown = F.trunc (F.mul (F.of_int base) modifier) in
      let wanted = if ltb 25 lost then f.receiver.sender_max_buffer else grown in
      let cur = f.recovery_buffer in
      if ltb_ℤ wanted cur && ltb_ℤ buffer_decrease_step (sub64 cur wanted)
      then sub64 cur buffer_decrease_step
      else wanted

  -- Clamped to the window, then to what the sender retains.
  unfoldable pub clamp_buffer : Flow → Microseconds → Microseconds
  clamp_buffer f desired =
      let lo = f.cfg.recovery_buffer_min in
      let hi = f.cfg.recovery_buffer_max in
      let sender_max = f.receiver.sender_max_buffer in
      let windowed = if ltb_ℤ desired lo then lo else if ltb_ℤ hi desired then hi else desired in
      if ltb_ℤ sender_max windowed then sender_max else windowed

  abbrev eq_ℤ : ℤ → ℤ → Bool
  eq_ℤ a b = leb_ℤ a b && leb_ℤ b a

  unfoldable pub auto_scale_buffer : Flow → Flow
  unfolding desired_buffer clamp_buffer
  auto_scale_buffer f =
      let r = f.receiver in
      let sampled : Flow = record f {
        receiver = record r {
          buffer_time_sum = add64 r.buffer_time_sum f.recovery_buffer;
          buffer_time_samples = inc64 r.buffer_time_samples;
        };
      } in
      let desired = clamp_buffer f (desired_buffer f) in
      if Receiver.is_receiver f.role
      then (if leb_ℤ f.cfg.rtt_multiplier (pos 0)
            || eq_ℤ f.cfg.recovery_buffer_min f.cfg.recovery_buffer_max
            || leb_ℤ r.sender_max_buffer (pos 0)
          then sampled
          else record sampled {
            recovery_buffer = desired;
            recovery_buffer110 = mul110 F desired;
            receiver = record (sampled.receiver) {
              loss_snap = f.stats.lost;
              recovered_snap = f.stats.recovered;
            };
          })
      else f

  -- The receiver's timers.
  unfoldable pub receiver_handle_timer : Timestamp → TimerId → Flow → Flow
  unfolding auto_scale_buffer
  receiver_handle_timer now timer_playout f =
      deliver_due now (record f { receiver = record (f.receiver) { playout_armed = false } })
  receiver_handle_timer now timer_nack f =
      schedule_nack now
        (process_nacks F now (record f { receiver = record (f.receiver) { nack_armed = false } }))
  receiver_handle_timer now timer_rtt_echo f =
      let request =
        send_feedback f.receiver.last_path (rtt_echo_request 0 (ntp_from_timestamp now)) in
      let rearm = set_timer timer_rtt_echo (add now rtt_echo_interval) in
      if f.receiver.started
      then auto_scale_buffer (record f { outputs = push (push f.outputs request) rearm })
      else f
  receiver_handle_timer now (unknown n) f = f

  unfoldable pub handle_timer : Timestamp → TimerId → Flow → Flow
  unfolding receiver_handle_timer
  handle_timer now id f = elim (f.role) [
    | role_sender ↦ sender_handle_timer now id f
    | role_receiver ↦ receiver_handle_timer now id f
  ]

  unfoldable pub tick : Timestamp → Flow → Flow
  tick now f = elim (f.role) [
    | role_sender ↦ f
    | role_receiver ↦ process_nacks F now (deliver_due now f)
  ]

-- `z` is the zero value of the fifo's elements, which the code leaves in a slot that it popped.
unfoldable pub poll_output : Output → Flow → Option Output × Flow
poll_output z f = let (o, rest) = pop z f.outputs in (o, record f { outputs = rest })

unfoldable pub poll_event : Deliver → Flow → Option Deliver × Flow
poll_event z f = let (e, rest) = pop z f.events in (e, record f { events = rest })
