-- ===== src/Flow/Invariant.antt =====
-- The receiver's invariant, and that playout keeps it.
pub mod Ingest
pub mod Timers
use ristgo.Prelude.{ℕ, zero, suc, ◌+◌, ◌-◌, ◌%◌, ◌^◌, ◌≤◌, ◌<◌, ◌≡◌, ◌⊎◌, inl, inr, refl, arith}
use ristgo.Prelude.{Bool, true, false, Bool-cases, Option, none, some, List, [], ◌∷◌, ◌++◌, length}
use ristgo.Prelude.{All, All-append, length-append, ap, sym, ◌∙◌, ltb, ◌==◌, if◌then◌else◌}
use ristgo.Prelude.Floats.{Floats}
use ristgo.Clock.{Timestamp}
use ristgo.Wire.{MediaPacket}
use ristgo.Flow.State.{Flow, ReceiverState, MissingEntry, Slot, put_slot}
use ristgo.Flow.Playout.{
  Round, stop, more, emit_deliver, skip_to, deliver_round, deliver_loop, deliver_fuel, deliver_due,
  arm_playout, disarm_playout, or_else, next_seq,
}
use ristgo.Flow.Playout.Measure.{Shaped}
use ristgo.Flow.Playout.Rounds.{
  Same, RoundCase, rests, hands, skips, deliver_round_cases, arm_playout-Same,
}
use ristgo.Flow.Playout.Steps.{skip_to-receiver, skip_to-Shaped, emit_deliver-Shaped}
use ristgo.Flow.Missing.{mark_missing, schedule_nack, gap_to}
use ristgo.Flow.Missing.Marks.{Fresh, Marks, marked, mark_missing-Marks}
use ristgo.Flow.Nacks.Requests.{Bounded}
use ristgo.Flow.Nacks.Passes.{QueueSound}
use ristgo.Flow.Receiver.{insert, advance, admit}
use mathlib.Core.Path.{subst}
use native.Mathlib.Nat.{one-le-pow}

-- A ring of a power of two with cursors of 32 bits, and a sound missing queue.
pub record Inv (f : Flow) : Type 0 where
  pub shaped : Shaped f.receiver
  pub last : f.receiver.last_found < 2 ^ 32
  pub queue : QueueSound f

-- What most steps leave alone.
pub record Keeps (f f' : Flow) : Type 0 where
  pub len : f'.receiver.ring_len ≡ f.receiver.ring_len
  pub mask : f'.receiver.mask ≡ f.receiver.mask
  pub missing : f'.receiver.missing ≡ f.receiver.missing
  pub missing_count : f'.receiver.missing_count ≡ f.receiver.missing_count
  pub cfg : f'.cfg ≡ f.cfg

pub Keeps-Inv :
    (f f' : Flow)
    → Keeps f f'
    → f'.receiver.deliver_next < 2 ^ 32
    → f'.receiver.highest < 2 ^ 32
    → f'.receiver.last_found < 2 ^ 32
    → Inv f
    → Inv f'
Keeps-Inv f f' k c h l v = record {
  shaped = record {
    bits = v.shaped.bits;
    len = k.len ∙ v.shaped.len;
    ones = k.mask ∙ v.shaped.ones;
    cursor = c;
    top = h;
  };
  last = l;
  queue = record {
    count = k.missing_count ∙ (v.queue.count ∙ ap length (sym k.missing));
    bounded = rw (k.missing, k.cfg) v.queue.bounded;
  };
}

-- A step that leaves the shape, the cursors and the queue alone.
abbrev pub Quiet : Flow → Flow → Type 0
Quiet f f' =
    (f'.receiver.ring_len ≡ f.receiver.ring_len)
    × (f'.receiver.mask ≡ f.receiver.mask)
    × (f'.receiver.missing ≡ f.receiver.missing)
    × (f'.receiver.missing_count ≡ f.receiver.missing_count)
    × (f'.cfg ≡ f.cfg)
    × (f'.receiver.deliver_next ≡ f.receiver.deliver_next)
    × (f'.receiver.highest ≡ f.receiver.highest)
    × (f'.receiver.last_found ≡ f.receiver.last_found)

pub Quiet-Inv : (f f' : Flow) → Quiet f f' → Inv f → Inv f'
Quiet-Inv f f' (len, mask, missing, count, cfg, cursor, top, last) v =
    Keeps-Inv f f'
      (record { len = len; mask = mask; missing = missing; missing_count = count; cfg = cfg })
      (rw cursor v.shaped.cursor) (rw top v.shaped.top) (rw last v.last) v

pub Same-Inv : (f f' : Flow) → Same f f' → Inv f → Inv f'
Same-Inv f f' s v =
    Keeps-Inv f f'
      (record {
        len = s.len;
        mask = s.mask;
        missing = s.missing;
        missing_count = s.missing_count;
        cfg = s.cfg;
      })
      (rw s.cursor v.shaped.cursor) (rw s.highest v.shaped.top) (rw s.last_found v.last) v

emit_deliver-Inv : (f : Flow) → Inv f → Inv (emit_deliver f)
unfolding emit_deliver
emit_deliver-Inv f v =
    Keeps-Inv f (emit_deliver f)
      (record { len = refl; mask = refl; missing = refl; missing_count = refl; cfg = refl })
      (omega arith) v.shaped.top v.last v

skip_to-Inv : (f : Flow) (n : ℕ) → Inv f → Inv (skip_to (n % 2 ^ 32) f)
skip_to-Inv f n v =
    let recv = skip_to-receiver (n % 2 ^ 32) f in
    Keeps-Inv f (skip_to (n % 2 ^ 32) f)
      (record {
        len = ap (λ r. r.ring_len) recv;
        mask = ap (λ r. r.mask) recv;
        missing = ap (λ r. r.missing) recv;
        missing_count = ap (λ r. r.missing_count) recv;
        cfg = unfold skip_to in refl;
      })
      (rw (ap (λ r. r.deliver_next) recv) (omega arith))
      (rw (ap (λ r. r.highest) recv) v.shaped.top) (rw (ap (λ r. r.last_found) recv) v.last) v

ring_pos : (f : Flow) → Inv f → 1 ≤ f.receiver.ring_len
ring_pos f v = rw v.shaped.len (one-le-pow v.shaped.bits 2 (omega arith))

Round-Inv : Round → Type 0
Round-Inv (stop f') = Inv f'
Round-Inv (more f') = Inv f'

case-Inv : (now : Timestamp) (f : Flow) (o : Round) → RoundCase now f o → Inv f → Round-Inv o
unfolding Round-Inv
case-Inv now f o (rests f' s q e) v = rw e (Same-Inv f f' s v)
case-Inv now f o (hands full due e) v = rw e (emit_deliver-Inv f v)
case-Inv now f o (skips k lo hi e) v = rw e (skip_to-Inv f (f.receiver.deliver_next + k) v)

deliver_loop-Inv :
    (fuel : ℕ) (now : Timestamp) (f d : Flow)
    → Inv f
    → Inv d
    → Inv (or_else (deliver_loop fuel now f) d)
unfolding deliver_loop Round-Inv
deliver_loop-Inv zero now f d v w = w
deliver_loop-Inv (suc fuel) now f d v w =
    go (deliver_round now f) (case-Inv now f _ (deliver_round_cases now f (ring_pos f v)) v)
      (λ f' u. deliver_loop-Inv fuel now f' d u w)
  where
    go :
        (o : Round)
        → Round-Inv o
        → ((f' : Flow) → Inv f' → Inv (or_else (deliver_loop fuel now f') d))
        → Inv (or_else (elim o [ stop f' ↦ some f' | more f' ↦ deliver_loop fuel now f' ]) d)
    go (stop f') u next = u
    go (more f') u next = next f' u

pub deliver_due-Inv : (now : Timestamp) (f : Flow) → Inv f → Inv (deliver_due now f)
unfolding deliver_due
deliver_due-Inv now f v = elim (Bool-cases f.receiver.started) [
  | inl e ↦ simp e (deliver_loop-Inv (deliver_fuel f) now f f v v)
  | inr e ↦ simp e v
]
