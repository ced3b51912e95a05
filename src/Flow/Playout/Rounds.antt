-- ===== src/Flow/Playout/Rounds.antt =====
-- What one round of `deliverDue` can do: rest, hand on the packet at the cursor, or skip ahead.
use ristgo.Prelude.{not, ◌&&◌}
use ristgo.Prelude.{ℕ, zero, suc, ◌+◌, ◌%◌, ◌^◌, ◌≤◌, ◌<◌, ◌≡◌, inl, inr, refl, arith}
use ristgo.Prelude.{true, false, min, Option, none, some, Bool-cases}
use ristgo.Prelude.{ltb, ltb→lt}
use ristgo.Prelude.Int.{pos, leb_ℤ}
use ristgo.Clock.{Timestamp, before}
use ristgo.Seq.{w32, distance}
use ristgo.Flow.State.{Flow, ReceiverState, slot_at, holds, is_filled}
use ristgo.Flow.Playout.{
  emit_deliver, skip_to, find_buffered, Round, stop, more, hole_round, deliver_round, arm_playout,
  disarm_playout,
}
use ristgo.Flow.Playout.Measure.{ahead}

-- Slots may be emptied, and those that stay filled stay as they were.
abbrev pub Emptied : ReceiverState → ReceiverState → Type 0
Emptied r r' = (i : ℕ) → is_filled (r'.ring i).state ≡ true → r'.ring i ≡ r.ring i

-- Only timers changed.
pub record Same (f f' : Flow) : Type 0 where
  pub ring : f'.receiver.ring ≡ f.receiver.ring
  pub mask : f'.receiver.mask ≡ f.receiver.mask
  pub cursor : f'.receiver.deliver_next ≡ f.receiver.deliver_next
  pub pending : f'.receiver.pending_discontinuity ≡ f.receiver.pending_discontinuity
  pub events : f'.events ≡ f.events
  pub stats : f'.stats ≡ f.stats
  pub len : f'.receiver.ring_len ≡ f.receiver.ring_len
  pub highest : f'.receiver.highest ≡ f.receiver.highest
  pub last_found : f'.receiver.last_found ≡ f.receiver.last_found
  pub missing : f'.receiver.missing ≡ f.receiver.missing
  pub missing_count : f'.receiver.missing_count ≡ f.receiver.missing_count
  pub cfg : f'.cfg ≡ f.cfg

pub arm_playout-Same : (t : Timestamp) (f : Flow) → Same f (arm_playout t f)
unfolding arm_playout
arm_playout-Same t f = ground arith

disarm_playout-Same : (f : Flow) → Same f (disarm_playout f)
unfolding disarm_playout
disarm_playout-Same f = ground arith

-- The packet at the cursor, if it is there, is not due yet.
abbrev pub NotDue : Timestamp → Flow → Type 0
NotDue now f =
    let s = slot_at f.receiver f.receiver.deliver_next in
    (holds s f.receiver.deliver_next && not (before now s.output_time)) ≡ false

pub data RoundCase (now : Timestamp) (f : Flow) (o : Round) : Type 0 where
  rests : (f' : Flow) → Same f f' → NotDue now f → o ≡ stop f' → RoundCase now f o
  hands :
      holds (slot_at f.receiver f.receiver.deliver_next) f.receiver.deliver_next ≡ true
      → before now (slot_at f.receiver f.receiver.deliver_next).output_time ≡ false
      → o ≡ more (emit_deliver f)
      → RoundCase now f o
  skips :
      (k : ℕ)
      → 1 ≤ k
      → k ≤ ahead f.receiver
      → o ≡ more (skip_to ((f.receiver.deliver_next + k) % 2 ^ 32) f)
      → RoundCase now f o

-- What the search over the ring finds lies ahead by as much as was searched, at most.
find_buffered-bounds :
    (r : ReceiverState) (count k n : ℕ)
    → find_buffered r count k ≡ some n
    → (j : ℕ) × (k ≤ j) × (j < k + count) × (n ≡ (r.deliver_next + j) % 2 ^ 32)
unfolding find_buffered
find_buffered-bounds r zero k n e = cc
find_buffered-bounds r (suc count) k n e =
    let m = (r.deliver_next + k) % 2 ^ 32 in
    elim (Bool-cases (holds (slot_at r m) m)) [
      | inl here ↦ (k, omega arith, omega arith, ground arith)
      | inr further ↦ later (find_buffered-bounds r count (k + 1) n (rw further at e))
    ]
  where
    later :
        (j : ℕ) × (k + 1 ≤ j) × (j < k + 1 + count) × (n ≡ (r.deliver_next + j) % 2 ^ 32)
        → (j : ℕ) × (k ≤ j) × (j < k + suc count) × (n ≡ (r.deliver_next + j) % 2 ^ 32)
    later (j, lo, hi, q) = (j, omega arith, omega arith, q)

hole_round_cases :
    (now : Timestamp) (f : Flow) (o : Option ℕ) (count : ℕ)
    → find_buffered f.receiver count 1 ≡ o
    → count ≤ ahead f.receiver
    → 1 ≤ f.receiver.ring_len
    → NotDue now f
    → RoundCase now f (hole_round now f o)
unfolding hole_round
hole_round_cases now f none count e h l q =
    elim (Bool-cases (ltb f.receiver.ring_len (ahead f.receiver))) [
      | inl lapped ↦ skips f.receiver.ring_len l (omega (arith, ltb→lt _ _ lapped)) (rw lapped)
      | inr near ↦ rests (disarm_playout f) (disarm_playout-Same f) q (rw near)
    ]
hole_round_cases now f (some n) count e h l q =
    let (j, lo, hi, at) = find_buffered-bounds f.receiver count 1 n e in
    let deadline = (slot_at f.receiver n).output_time in
    elim (Bool-cases (before now deadline)) [
      | inl early ↦ rests (arm_playout deadline f) (arm_playout-Same deadline f) q (rw early)
      | inr due ↦ skips j lo (omega arith) (rw (due, at))
    ]

not_held :
    (now : Timestamp) (f : Flow)
    → holds (slot_at f.receiver f.receiver.deliver_next) f.receiver.deliver_next ≡ false
    → NotDue now f
not_held now f hole = simp hole refl

pub deliver_round_cases :
    (now : Timestamp) (f : Flow) → 1 ≤ f.receiver.ring_len → RoundCase now f (deliver_round now f)
unfolding deliver_round
deliver_round_cases now f l =
    let r = f.receiver in
    let s = slot_at r r.deliver_next in
    let count = min (ahead r) r.ring_len in
    elim (Bool-cases (holds s r.deliver_next)) [
      | inl full ↦ elim (Bool-cases (before now s.output_time)) [
        | inl early ↦
            rests (arm_playout s.output_time f) (arm_playout-Same s.output_time f) (ground arith)
              (rw (full, early))
        | inr due ↦ hands full due (rw (full, due))
      ]
      | inr hole ↦ elim (Bool-cases (leb_ℤ (distance w32 r.deliver_next r.highest) (pos 0))) [
        | inl past ↦
            rests (disarm_playout f) (disarm_playout-Same f) (not_held now f hole) (rw (hole, past))
        | inr ahead_of ↦
            rw (hole, ahead_of)
              (hole_round_cases now f (find_buffered r count 1) count refl (omega arith) l
                (not_held now f hole))
      ]
    ]
