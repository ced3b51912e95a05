-- ===== src/Flow/Playout/Steps.antt =====
-- Skipping and handing on: what each leaves as it was, and that each brings the loop nearer its end.
use ristgo.Prelude.{ℕ, zero, suc, ◌+◌, ◌-◌, ◌%◌, ◌^◌, ◌≤◌, ◌<◌, ◌≡◌, refl, arith, ◌∙◌, ap, sym}
use ristgo.Prelude.{true, Bool-cases, bit_and}
use ristgo.Prelude.{inl, inr}
use ristgo.Flow.State.{Flow, ReceiverState, Slot, slot_at, holds, is_filled}
use ristgo.Flow.Playout.{cleared, next_seq, emit_deliver, clear_one, clear_slots, skip_to}
use ristgo.Flow.Playout.Measure.{
  Shaped, index_in_ring, weight, count_upd_in, filled, ahead, measure, ahead_step, ahead_bound,
}
use ristgo.Flow.Playout.Rounds.{Emptied}
use mathlib.Core.Path.{subst}

abbrev with_ring : ReceiverState → (ℕ → Slot) → ReceiverState
with_ring r ring = record r { ring = ring }

clear_one-frame : (n : ℕ) (r : ReceiverState) → clear_one n r ≡ with_ring r (clear_one n r).ring
unfolding clear_one
clear_one-frame n r = elim (Bool-cases (is_filled (slot_at r n).state)) [
  | inl e ↦ rw e
  | inr e ↦ rw e
]

-- Clearing touches nothing but the ring.
clear_slots-frame :
    (k n : ℕ) (r : ReceiverState) → clear_slots k n r ≡ with_ring r (clear_slots k n r).ring
unfolding clear_slots
clear_slots-frame zero n r = refl
clear_slots-frame (suc k) n r =
    clear_slots-frame k (next_seq n) (clear_one n r)
    ∙ ap (λ q. with_ring q (clear_slots k (next_seq n) (clear_one n r)).ring) (clear_one-frame n r)

clear_one-Emptied : (n : ℕ) (r : ReceiverState) → Emptied r (clear_one n r)
unfolding clear_one
clear_one-Emptied n r i h = elim (Bool-cases (is_filled (slot_at r n).state)) [
  | inl e ↦ ground arith
  | inr e ↦ rw e
]

pub clear_slots-Emptied : (k n : ℕ) (r : ReceiverState) → Emptied r (clear_slots k n r)
unfolding clear_slots
clear_slots-Emptied zero n r i h = refl
clear_slots-Emptied (suc k) n r i h =
    let same = clear_slots-Emptied k (next_seq n) (clear_one n r) i h in
    same ∙ clear_one-Emptied n r i (rw same at h)

clear_one-Shaped : (n : ℕ) (r : ReceiverState) → Shaped r → Shaped (clear_one n r)
clear_one-Shaped n r v =
    subst Shaped (sym (clear_one-frame n r))
      (record { bits = v.bits; len = v.len; ones = v.ones; cursor = v.cursor; top = v.top })

clear_one-filled : (n : ℕ) (r : ReceiverState) → Shaped r → filled (clear_one n r) ≤ filled r
unfolding clear_one weight
clear_one-filled n r v = ground (
  arith,
  count_upd_in r.ring (bit_and n r.mask) (cleared (slot_at r n)) r.ring_len (index_in_ring r n v),
)

clear_slots-filled :
    (k n : ℕ) (r : ReceiverState) → Shaped r → filled (clear_slots k n r) ≤ filled r
unfolding clear_slots
clear_slots-filled zero n r v = omega arith
clear_slots-filled (suc k) n r v = omega (
  arith,
  clear_one-filled n r v,
  clear_slots-filled k (next_seq n) (clear_one n r) (clear_one-Shaped n r v),
)

-- The receiver after a skip.
abbrev pub skipped : ReceiverState → ℕ → ReceiverState
skipped r target = record r {
  ring = (clear_slots ((target + 2 ^ 32 - r.deliver_next) % 2 ^ 32) r.deliver_next r).ring;
  deliver_next = target;
  pending_discontinuity = true;
}

pub skip_to-receiver :
    (target : ℕ) (f : Flow) → (skip_to target f).receiver ≡ skipped f.receiver target
unfolding skip_to
skip_to-receiver target f =
    let r = f.receiver in
    ap {B = ReceiverState}
      (λ (q : ReceiverState). record q { deliver_next = target; pending_discontinuity = true })
      (clear_slots-frame ((target + 2 ^ 32 - r.deliver_next) % 2 ^ 32) r.deliver_next r)

skipped-filled : (r : ReceiverState) (target : ℕ) → Shaped r → filled (skipped r target) ≤ filled r
skipped-filled r target v =
    let lost = (target + 2 ^ 32 - r.deliver_next) % 2 ^ 32 in
    let len : (clear_slots lost r.deliver_next r).ring_len ≡ r.ring_len =
      ap (λ q. q.ring_len) (clear_slots-frame lost r.deliver_next r) in
    rw len at (clear_slots-filled lost r.deliver_next r v)

skipped-Shaped : (r : ReceiverState) (n : ℕ) → Shaped r → Shaped (skipped r (n % 2 ^ 32))
skipped-Shaped r n v = record {
  bits = v.bits;
  len = v.len;
  ones = v.ones;
  cursor = omega arith;
  top = v.top;
}

pub skip_to-Shaped :
    (f : Flow) (n : ℕ) → Shaped f.receiver → Shaped (skip_to (n % 2 ^ 32) f).receiver
skip_to-Shaped f n v =
    subst Shaped (sym (skip_to-receiver (n % 2 ^ 32) f)) (skipped-Shaped f.receiver n v)

pub skip_to-measure :
    (f : Flow) (k : ℕ)
    → Shaped f.receiver
    → 1 ≤ k
    → k ≤ ahead f.receiver
    → measure (skip_to ((f.receiver.deliver_next + k) % 2 ^ 32) f) < measure f
skip_to-measure f k v lo hi =
    let r = f.receiver in
    let target = (r.deliver_next + k) % 2 ^ 32 in
    let shorter = ahead_step r.deliver_next r.highest k v.cursor v.top lo hi in
    let fewer = skipped-filled r target v in
    rw (skip_to-receiver target f) (omega (arith, shorter, fewer))

-- The receiver after a delivery.
pub emit_deliver-Shaped : (f : Flow) → Shaped f.receiver → Shaped (emit_deliver f).receiver
unfolding emit_deliver
emit_deliver-Shaped f v = record {
  bits = v.bits;
  len = v.len;
  ones = v.ones;
  cursor = omega arith;
  top = v.top;
}

pub emit_deliver-measure :
    (f : Flow)
    → Shaped f.receiver
    → holds (slot_at f.receiver f.receiver.deliver_next) f.receiver.deliver_next ≡ true
    → measure (emit_deliver f) < measure f
unfolding emit_deliver weight
emit_deliver-measure f v full =
    let r = f.receiver in
    let c = r.deliver_next in
    ground (
      arith,
      count_upd_in r.ring (bit_and c r.mask) (cleared (slot_at r c)) r.ring_len
          (index_in_ring r c v),
      ahead_bound (next_seq c) r.highest (omega arith) v.top,
    )
