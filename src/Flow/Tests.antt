-- ===== src/Flow/Tests.antt =====
-- Runs of a small flow, and the theorems at it.
use ristgo.Prelude.{ℕ, ◌+◌, ◌-◌, ◌%◌, ◌^◌, ◌≤◌, ◌≡◌, ◌⊎◌, inl, refl, arith}
use ristgo.Prelude.{true, false, some, none, [], ◌∷◌, ◌++◌, length, ltb, ◌==◌, if◌then◌else◌}
use ristgo.Prelude.Int.{pos, pos_part}
use ristgo.Prelude.Floats.{Floats}
use ristgo.Rtt
use ristgo.Wire.{MediaPacket, frag_standalone}
use ristgo.Flow.Fifo
use ristgo.Flow.Fifo.{Fifo, pending, take_front}
use ristgo.Flow.Effects.{no_stats, send_media}
use ristgo.Flow.Config.{
  Config, role_receiver, role_sender, timing_arrival, congestion_off, recovery_buffer_of, mul110,
  next_pow2,
}
use ristgo.Flow.Congestion.{derive_missing_counter_max, derive_max_nacks_per_loop}
use ristgo.Flow.State.{
  Flow, ReceiverState, Slot, slot_filled, empty_slot, no_receiver, no_sender, new, new_receiver,
}
use ristgo.Flow.Missing.{mark_missing, gap_to}
use ristgo.Flow.Missing.Marks.{Unmarked, gap_cap, Marks, mark_missing-Marks}
use ristgo.Flow.Nacks.{process_nacks}
use ristgo.Flow.Nacks.Passes.{QueueSound, Asked, process_nacks_lem}
use ristgo.Prelude.{◌≢◌}
use ristgo.Flow.State.{slot_at, put_slot, empty_slot}
use ristgo.Flow.Playout.{deliver_loop, deliver_fuel, deliver_due}
use ristgo.Flow.Playout.Measure.{Shaped, slot_at-put_slot}
use ristgo.Flow.Playout.Order.{Played, deliver_due-Played}
use ristgo.Flow.Sender.{service_nack, push_app_block, media_of, history_slot}
use ristgo.Flow.Sender.History.{Serviced, service_nack-Serviced, nack_after_push}
use ristgo.Flow.Api.{feed}
use ristgo.Flow.Invariant.{Inv}
use ristgo.Flow.Reach.{made, after, fed, reachable-Inv}

-- Arithmetic on whole numbers, each its own pattern.
abbrev whole : Floats
whole = record {
  of_int = pos_part;
  trunc = pos;
  mul = λ a b. a;
  div = λ a b. a;
  add = λ a b. a + b;
  sub = λ a b. a - b;
  lt = λ a b. ltb a b;
  le = λ a b. ltb a (b + 1);
}

abbrev small_config : Config
small_config = record {
  recovery_buffer_min = pos 1000;
  recovery_buffer_max = pos 1000;
  reorder_buffer = pos 100;
  rtt_min = pos 5000;
  rtt_max = pos 500_000;
  rtt_multiplier = pos 7;
  min_retries = pos 6;
  max_retries = pos 20;
  recovery_max_bitrate = pos 100_000;
  congestion_control = congestion_off;
  return_max_bitrate = pos 0;
  ring_size = pos 4;
  recovery_depth = 0;
  ssrc = 2;
  start_seq = 0;
  timing_mode = timing_arrival;
  no_recovery = false;
}

abbrev packet : ℕ → MediaPacket
packet n = record {
  seq = n;
  source_time = 0;
  ssrc = 2;
  payload = 7 ∷ n ∷ [];
  retransmit = false;
  path_id = 0;
  frag = frag_standalone;
  virt_src_port = 0;
  virt_dst_port = 0;
  short_seq = false;
}

abbrev filled_slot : ℕ → Slot
filled_slot n = record empty_slot {
  payload = 7 ∷ n ∷ [];
  output_time = pos 20;
  seq = n;
  state = slot_filled;
}

-- A receiver that waits for 2 and holds 1 and 3.
abbrev waiting_receiver : ReceiverState
waiting_receiver = record no_receiver {
  ring = λ i. if i == 1 then filled_slot 1 else if i == 3 then filled_slot 3 else empty_slot;
  ring_len = 4;
  mask = 3;
  started = true;
  last_found = 3;
  highest = 3;
  deliver_next = 1;
  missing =
      record { seq = 2; path = 0; nack_count = 0; insertion_time = pos 10; next_nack = pos 12 }
      ∷ [];
  missing_count = 1;
}

abbrev waiting : Flow
waiting = record {
  role = role_receiver;
  cfg = small_config;
  recovery_buffer = pos 1000;
  recovery_buffer110 = pos 1100;
  missing_counter_max = 50;
  max_nacks_per_loop = pos 10;
  est = Rtt.new (pos 5000);
  outputs = Fifo.empty;
  events = Fifo.empty;
  stats = no_stats;
  receiver = waiting_receiver;
  sender = no_sender;
}

waiting-Shaped : Shaped waiting_receiver
waiting-Shaped = record {
  bits = 2;
  len = refl;
  ones = refl;
  cursor = omega arith;
  top = omega arith;
}

waiting_sound : QueueSound waiting
waiting_sound = record { count = refl; bounded = (inl refl, tt) }

deliver_due-Played_example :
    (deliver_loop (deliver_fuel waiting) (pos 50) waiting ≡ some (deliver_due (pos 50) waiting))
    × Played (pos 50) waiting (deliver_due (pos 50) waiting)
deliver_due-Played_example = deliver_due-Played (pos 50) waiting waiting-Shaped refl

process_nacks_lem_example :
    Asked whole (pos 50) waiting × QueueSound (process_nacks whole (pos 50) waiting)
process_nacks_lem_example = process_nacks_lem whole (pos 50) waiting waiting_sound

mark_missing-Marks_example :
    (Unmarked 6 waiting × (mark_missing (pos 50) 0 6 (pos 50) waiting ≡ waiting))
    ⊎ ((waiting.cfg.no_recovery ≡ false)
        × (1 ≤ gap_to waiting.receiver 6)
        × (gap_to waiting.receiver 6 ≤ gap_cap waiting)
        × Marks 0
            ((3 + 1) % 2 ^ 32)
            (gap_to waiting.receiver 6 - 1)
            1
            waiting
            (mark_missing (pos 50) 0 6 (pos 50) waiting))
mark_missing-Marks_example =
    mark_missing-Marks (pos 50) 0 6 (pos 50) waiting (omega arith) (omega arith)

slot_at-put_slot_example :
    let r = waiting_receiver in
    ((6 % 4 ≡ 10 % 4) × (slot_at (put_slot r 6 empty_slot) 10 ≡ empty_slot))
    ⊎ ((6 % 4 ≢ 10 % 4) × (slot_at (put_slot r 6 empty_slot) 10 ≡ slot_at r 10))
slot_at-put_slot_example = slot_at-put_slot waiting_receiver 6 10 empty_slot waiting-Shaped

-- The sender that has sent nothing yet.
abbrev fresh_sender : Flow
fresh_sender = record waiting {
  role = role_sender;
  receiver = no_receiver;
  sender = record no_sender { ring_len = 4; mask = 3; ssrc = 2 };
}

service_nack-Serviced_example :
    let g = push_app_block (pos 10) (7 ∷ []) frag_standalone none none fresh_sender in
    Serviced g.sender g (0 ∷ 9 ∷ []) 0 (service_nack (pos 90) (0 ∷ 9 ∷ []) g)
service_nack-Serviced_example =
    service_nack-Serviced (pos 90) (0 ∷ 9 ∷ [])
      (push_app_block (pos 10) (7 ∷ []) frag_standalone none none fresh_sender)

nack_after_push_example :
    let g = push_app_block (pos 10) (7 ∷ []) frag_standalone (some 5) (some 40) fresh_sender in
    (service_nack (pos 90) (5 ∷ []) g).outputs.items
    ≡ g.outputs.items
      ++ (send_media 0
            (media_of fresh_sender.sender (history_slot 5 40 (7 ∷ []) frag_standalone) true)
          ∷ [])
nack_after_push_example =
    nack_after_push (pos 10) (pos 90) (7 ∷ []) frag_standalone 5 40 fresh_sender refl refl refl

pop-pending_example :
    let q : Fifo ℕ = record { items = 0 ∷ 4 ∷ 5 ∷ []; head = 1 } in
    let (o, q') = Fifo.pop 0 q in
    ((o, pending q') ≡ take_front (4 ∷ 5 ∷ [])) × (q'.head ≤ length q'.items)
pop-pending_example = Fifo.pop-pending 0 (record { items = 0 ∷ 4 ∷ 5 ∷ []; head = 1 }) (omega arith)

push-pending_example :
    let q : Fifo ℕ = record { items = 0 ∷ 4 ∷ []; head = 1 } in
    (pending (Fifo.push q 5) ≡ 4 ∷ 5 ∷ []) × ((Fifo.push q 5).head ≤ length (Fifo.push q 5).items)
push-pending_example = Fifo.push-pending (record { items = 0 ∷ 4 ∷ []; head = 1 }) 5 (omega arith)

-- What `New` makes of the small configuration.
abbrev first_flow : Flow
first_flow = record {
  role = role_receiver;
  cfg = small_config;
  recovery_buffer = recovery_buffer_of small_config;
  recovery_buffer110 = mul110 whole (recovery_buffer_of small_config);
  missing_counter_max = derive_missing_counter_max small_config;
  max_nacks_per_loop = derive_max_nacks_per_loop small_config;
  est = Rtt.new (pos 5000);
  outputs = Fifo.empty;
  events = Fifo.empty;
  stats = no_stats;
  receiver = new_receiver whole small_config 4;
  sender = no_sender;
}

first_made : new whole role_receiver small_config ≡ some first_flow
unfolding new next_pow2
first_made = refl

abbrev second_flow : Flow
second_flow = feed (pos 10) 0 (packet 7) first_flow

reachable-Inv_example : Inv second_flow × Asked whole (pos 50) second_flow
reachable-Inv_example = reachable-Inv whole small_config second_flow (pos 50) (omega arith) (
    after first_flow second_flow (made first_flow first_made) refl
      (fed (pos 10) 0 (packet 7) (omega arith)))
