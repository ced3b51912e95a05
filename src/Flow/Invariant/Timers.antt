-- ===== src/Flow/Invariant/Timers.antt =====
-- NACK passes, auto-scaling, timers and feedback keep the receiver's invariant.
use ristgo.Prelude.{◌≡◌, ◌∙◌, refl, arith, Bool, true, false, if◌then◌else◌}
use ristgo.Prelude.Floats.{Floats}
use ristgo.Clock.{Timestamp, add, ntp_from_timestamp}
use ristgo.Wire.{
  Feedback, nack_request, rtt_echo_request, rtt_echo_response, sender_report, keepalive, ext_seq,
  link_quality, flow_attribute, peer_identity, unsupported_control,
}
use ristgo.Flow.Effects.{
  TimerId, timer_playout, timer_nack, timer_rtt_echo, unknown, set_timer, send_feedback,
}
use ristgo.Flow.Config.{role_receiver, rtt_echo_interval}
use ristgo.Flow.Fifo.{push}
use ristgo.Flow.State.{Flow}
use ristgo.Flow.Nacks.{process_nacks, refill}
use ristgo.Flow.Nacks.Passes.{process_nacks_lem}
use ristgo.Flow.Api.{auto_scale_buffer, receiver_handle_timer, feed_feedback, ignore}
use ristgo.Flow.Invariant.{Inv, Quiet, Quiet-Inv, deliver_due-Inv}
use ristgo.Flow.Invariant.Ingest.{schedule_nack-Inv}

pub unmoved : (f : Flow) → Quiet f f
unmoved f = (refl, refl, refl, refl, refl, refl, refl, refl)

if-Inv : (b : Bool) (g f : Flow) → Inv g → Inv f → Inv (if b then g else f)
if-Inv true g f u v = u
if-Inv false g f u v = v

module _ (F : Floats) (now : Timestamp) where
  -- What a pass leaves alone.
  abbrev Apart : Flow → Flow → Type 0
  Apart f g =
      (g.receiver.ring_len ≡ f.receiver.ring_len)
      × (g.receiver.mask ≡ f.receiver.mask)
      × (g.receiver.deliver_next ≡ f.receiver.deliver_next)
      × (g.receiver.highest ≡ f.receiver.highest)
      × (g.receiver.last_found ≡ f.receiver.last_found)

  process_nacks-Apart : (f : Flow) → Apart f (process_nacks F now f)
  unfolding process_nacks refill
  process_nacks-Apart f = ground arith

  pub process_nacks-Inv : (f : Flow) → Inv f → Inv (process_nacks F now f)
  process_nacks-Inv f v =
      let (asked, sound) = process_nacks_lem F now f v.queue in
      let (len, mask, cursor, top, last) = process_nacks-Apart f in
      record {
        shaped = record {
          bits = v.shaped.bits;
          len = len ∙ v.shaped.len;
          ones = mask ∙ v.shaped.ones;
          cursor = rw cursor v.shaped.cursor;
          top = rw top v.shaped.top;
        };
        last = rw last v.last;
        queue = sound;
      }

  auto_scale-Quiet : (f : Flow) → Quiet f (auto_scale_buffer F f)
  unfolding auto_scale_buffer
  auto_scale-Quiet f = ground arith

  auto_scale-Inv : (f : Flow) → Inv f → Inv (auto_scale_buffer F f)
  auto_scale-Inv f v = Quiet-Inv f _ (auto_scale-Quiet f) v

  pub timer-Inv : (id : TimerId) (f : Flow) → Inv f → Inv (receiver_handle_timer F now id f)
  unfolding receiver_handle_timer
  timer-Inv timer_playout f v = deliver_due-Inv now _ (Quiet-Inv f _ (unmoved f) v)
  timer-Inv timer_nack f v =
      schedule_nack-Inv now _ (process_nacks-Inv _ (Quiet-Inv f _ (unmoved f) v))
  timer-Inv timer_rtt_echo f v =
      let request =
        send_feedback f.receiver.last_path (rtt_echo_request 0 (ntp_from_timestamp now)) in
      let rearm = set_timer timer_rtt_echo (add now rtt_echo_interval) in
      let g : Flow = record f { outputs = push (push f.outputs request) rearm } in
      let scaled = auto_scale-Inv g (Quiet-Inv f g (unmoved f) v) in
      if-Inv f.receiver.started _ f scaled v
  timer-Inv (unknown n) f v = v

feedback-Quiet :
    (now : Timestamp) (fb : Feedback) (f : Flow)
    → f.role ≡ role_receiver
    → Quiet f (feed_feedback now fb f)
unfolding feed_feedback ignore
feedback-Quiet now (nack_request ssrc missing) f e = rw e (unmoved f)
feedback-Quiet now (rtt_echo_request ssrc t) f e = unmoved f
feedback-Quiet now (rtt_echo_response ssrc t d) f e = unmoved f
feedback-Quiet now (sender_report ntp t) f e = unmoved f
feedback-Quiet now keepalive f e = unmoved f
feedback-Quiet now (ext_seq n) f e = unmoved f
feedback-Quiet now (link_quality l) f e = unmoved f
feedback-Quiet now (flow_attribute j) f e = unmoved f
feedback-Quiet now (peer_identity c) f e = unmoved f
feedback-Quiet now (unsupported_control c h) f e = unmoved f

pub feedback-Inv :
    (now : Timestamp) (fb : Feedback) (f : Flow)
    → f.role ≡ role_receiver
    → Inv f
    → Inv (feed_feedback now fb f)
feedback-Inv now fb f e v = Quiet-Inv f _ (feedback-Quiet now fb f e) v
