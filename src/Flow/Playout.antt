-- ===== src/Flow/Playout.antt =====
-- Playout of internal/flow/receiver.go: timers, in-order delivery, and skipping of holes.
pub mod Measure
pub mod Rounds
pub mod Steps
pub mod Order
use ristgo.Prelude.{ℕ, zero, suc, ◌+◌, ◌-◌, ◌*◌, ◌%◌, ◌^◌, Bool, true, false, not, ◌&&◌, min}
use ristgo.Prelude.{Option, none, some, List, [], ltb, ◌==◌, if◌then◌else◌}
use ristgo.Prelude.Int.{ℤ, pos, leb_ℤ, pos_part}
use ristgo.Clock.{Timestamp, before}
use ristgo.Seq.{w32, distance}
use ristgo.Flow.Fifo.{push}
use ristgo.Flow.Effects.{timer_playout, set_timer, clear_timer, Deliver, Stats, inc64, add_u64}
use ristgo.Flow.State.{Flow, ReceiverState, Slot, slot_empty, is_filled, slot_at, put_slot, holds}

unfoldable pub arm_playout : Timestamp → Flow → Flow
arm_playout deadline f =
    if f.receiver.playout_armed && not (before deadline f.receiver.playout_deadline)
    then f
    else record f {
      receiver = record (f.receiver) { playout_armed = true; playout_deadline = deadline };
      outputs = push f.outputs (set_timer timer_playout deadline);
    }

unfoldable pub disarm_playout : Flow → Flow
disarm_playout f = if not f.receiver.playout_armed then f else record f {
  receiver = record (f.receiver) { playout_armed = false };
  outputs = push f.outputs (clear_timer timer_playout);
}

abbrev pub cleared : Slot → Slot
cleared s = record s { state = slot_empty; payload = [] }

abbrev pub next_seq : ℕ → ℕ
next_seq n = (n + 1) % 2 ^ 32

-- The event for a slot's packet.
abbrev pub deliver_event : Slot → Bool → Deliver
deliver_event s discontinuity = record {
  seq = s.seq;
  source_time = s.source_time;
  payload = s.payload;
  discontinuity = discontinuity;
  frag = s.frag;
  virt_src_port = s.virt_src_port;
  virt_dst_port = s.virt_dst_port;
}

-- `emitDeliver`, called on the slot at the cursor.
unfoldable pub emit_deliver : Flow → Flow
emit_deliver f =
    let r = f.receiver in
    let s = slot_at r r.deliver_next in
    record f {
      events = push f.events (deliver_event s r.pending_discontinuity);
      stats = record (f.stats) { delivered = inc64 f.stats.delivered };
      receiver = record (put_slot r r.deliver_next (cleared s)) {
        pending_discontinuity = false;
        deliver_next = next_seq r.deliver_next;
      };
    }

-- The body of the loop of `skipTo`, and the loop over the sequences passed over.
unfoldable pub clear_one : ℕ → ReceiverState → ReceiverState
clear_one n r = if is_filled (slot_at r n).state then put_slot r n (cleared (slot_at r n)) else r

unfoldable pub clear_slots : ℕ → ℕ → ReceiverState → ReceiverState
clear_slots zero n r = r
clear_slots (suc k) n r = clear_slots k (next_seq n) (clear_one n r)

unfoldable pub skip_to : ℕ → Flow → Flow
skip_to target f =
    let r = f.receiver in
    let lost = (target + 2 ^ 32 - r.deliver_next) % 2 ^ 32 in
    record f {
      receiver = record (clear_slots lost r.deliver_next r) {
        deliver_next = target;
        pending_discontinuity = true;
      };
      stats = record (f.stats) {
        lost = add_u64 f.stats.lost lost;
        discontinuities = inc64 f.stats.discontinuities;
      };
    }

-- The loop over `k`: the first of `count` sequences after `cursor + k - 1` that the ring holds.
unfoldable pub find_buffered : ReceiverState → ℕ → ℕ → Option ℕ
find_buffered r zero k = none
find_buffered r (suc count) k =
    let n = (r.deliver_next + k) % 2 ^ 32 in
    let rest = find_buffered r count (k + 1) in if holds (slot_at r n) n then some n else rest

-- One round of `deliverDue`: the loop returns or goes on.
pub data Round : Type 0 where
  stop : Flow → Round
  more : Flow → Round

abbrev cursor_distance : ReceiverState → ℤ
cursor_distance r = distance w32 r.deliver_next r.highest

-- The rest of a round when there is a hole at the cursor and something may lie ahead of it.
unfoldable pub hole_round : Timestamp → Flow → Option ℕ → Round
hole_round now f none =
    let r = f.receiver in
    if ltb r.ring_len (pos_part (cursor_distance r))
    then more (skip_to ((r.deliver_next + r.ring_len) % 2 ^ 32) f)
    else stop (disarm_playout f)
hole_round now f (some found) =
    let deadline = (slot_at f.receiver found).output_time in
    if before now deadline then stop (arm_playout deadline f) else more (skip_to found f)

unfoldable pub deliver_round : Timestamp → Flow → Round
unfolding hole_round find_buffered
deliver_round now f =
    let r = f.receiver in
    let s = slot_at r r.deliver_next in
    if holds s r.deliver_next
    then (if before now s.output_time
        then stop (arm_playout s.output_time f)
        else more (emit_deliver f))
    else (let dist = cursor_distance r in
        if leb_ℤ dist (pos 0)
        then stop (disarm_playout f)
        else hole_round now f (find_buffered r (min (pos_part dist) r.ring_len) 1))

-- `none` means that the fuel ran out.
unfoldable pub deliver_loop : ℕ → Timestamp → Flow → Option Flow
deliver_loop zero now f = none
deliver_loop (suc fuel) now f = elim (deliver_round now f) [
  | stop f' ↦ some f'
  | more f' ↦ deliver_loop fuel now f'
]

-- Each delivery empties one of `ring_len` slots, and each skip shortens the distance to `highest`.
unfoldable pub deliver_fuel : Flow → ℕ
deliver_fuel f = f.receiver.ring_len * 2 ^ 32 + 2 ^ 32

abbrev pub or_else : Option Flow → Flow → Flow
or_else none f = f
or_else (some f') f = f'

unfoldable pub deliver_due : Timestamp → Flow → Flow
deliver_due now f =
    let run = deliver_loop (deliver_fuel f) now f in
    if not f.receiver.started then f else or_else run f
