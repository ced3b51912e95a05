-- ===== src/Flow/Playout/Order.antt =====
-- Playout against its specification: in order, each gap flagged, nothing early, and it ends.
use ristgo.Prelude.{ℕ, zero, suc, ◌+◌, ◌-◌, ◌%◌, ◌^◌, ◌≤◌, ◌<◌, ◌≡◌, refl, arith, ◌∙◌, ap, sym}
use ristgo.Prelude.{Bool, true, false, some, bit_and, List, [], ◌∷◌, ◌++◌}
use ristgo.Prelude.{length, All}
use ristgo.Clock.{Timestamp, before}
use ristgo.Flow.Effects.{Deliver}
use ristgo.Flow.Fifo.{push}
use ristgo.Flow.State.{Flow, ReceiverState, slot_at, holds}
use ristgo.Flow.Playout.{
  next_seq, deliver_event, emit_deliver, skip_to, stop, more, deliver_round, deliver_loop,
  deliver_fuel, deliver_due,
}
use ristgo.Flow.Playout.Measure.{Shaped, ahead, measure, count_filled-le, ahead_bound}
use ristgo.Flow.Playout.Rounds.{
  Emptied, Same, NotDue, RoundCase, rests, hands, skips, deliver_round_cases,
}
use ristgo.Flow.Playout.Steps.{
  skipped, skip_to-receiver, skip_to-Shaped, skip_to-measure, emit_deliver-Shaped,
  emit_deliver-measure, clear_slots-Emptied,
}
use mathlib.Core.Path.{subst}
use mathlib.Core.List.{append-nil, append_assoc}
use native.Mathlib.Nat.{one-le-pow}

-- The specification of playout: from a cursor and a flag, the events handed on and the number of
-- sequences given up, to the cursor and flag at the end. A packet is handed on only at the cursor,
-- with the flag, and clears it; giving up sequences moves the cursor and sets the flag.
pub data Plays (c' : ℕ) (p' : Bool) : ℕ → Bool → List Deliver → ℕ → Type 0 where
  done : Plays c' p' c' p' [] 0
  skip :
      {c n lost : ℕ} {p : Bool} {ds : List Deliver} (k : ℕ)
      → 1 ≤ k
      → n ≡ (c + k) % 2 ^ 32
      → Plays c' p' n true ds lost
      → (total : ℕ) → total ≡ lost + k
      → Plays c' p' c p ds total
  hand :
      {c lost : ℕ} {p : Bool} {d : Deliver} {ds : List Deliver}
      → d.seq ≡ c
      → d.discontinuity ≡ p
      → Plays c' p' (next_seq c) false ds lost
      → Plays c' p' c p (d ∷ ds) lost

-- An event hands on a packet that the ring held and that was due.
pub record FromRing (now : Timestamp) (r : ReceiverState) (d : Deliver) : Type 0 where
  pub buffered : holds (slot_at r d.seq) d.seq ≡ true
  pub due : before now (slot_at r d.seq).output_time ≡ false
  pub content : d ≡ deliver_event (slot_at r d.seq) d.discontinuity

-- What `deliverDue` did between two states.
pub record Played (now : Timestamp) (f f' : Flow) : Type 0 where
  pub events : List Deliver
  pub lost : ℕ
  pub plays :
      Plays f'.receiver.deliver_next f'.receiver.pending_discontinuity f.receiver.deliver_next
        f.receiver.pending_discontinuity events lost
  pub appended : f'.events.items ≡ f.events.items ++ events
  pub head : f'.events.head ≡ f.events.head
  pub delivered : f'.stats.delivered % 2 ^ 64 ≡ (f.stats.delivered + length events) % 2 ^ 64
  pub given_up : f'.stats.lost % 2 ^ 64 ≡ (f.stats.lost + lost) % 2 ^ 64
  pub source : All (FromRing now f.receiver) events
  pub nothing_due : NotDue now f'

All-map :
    (P Q : Deliver → Type 0) (ds : List Deliver) → ((d : Deliver) → P d → Q d) → All P ds → All Q ds
All-map P Q [] f h = tt
All-map P Q (d ∷ ds) f (h, hs) = (f d h, All-map P Q ds f hs)

-- What a later ring holds, an earlier one held.
FromRing-earlier :
    (now : Timestamp) (r r' : ReceiverState) (d : Deliver)
    → Emptied r r'
    → r'.mask ≡ r.mask
    → FromRing now r' d
    → FromRing now r d
FromRing-earlier now r r' d e m b =
    let at_index : slot_at r' d.seq ≡ r.ring (bit_and d.seq r'.mask) =
      e (bit_and d.seq r'.mask) (ground (arith, b.buffered)) in
    let same : slot_at r' d.seq ≡ slot_at r d.seq =
      at_index ∙ ap (λ k. r.ring (bit_and d.seq k)) m in
    record {
      buffered = rw same at b.buffered;
      due = rw same at b.due;
      content = rw same at b.content;
    }

rest-Played : (now : Timestamp) (f f' : Flow) → Same f f' → NotDue now f → Played now f f'
rest-Played now f f' s q = record {
  events = [];
  lost = 0;
  plays = rw (s.cursor, s.pending) done;
  appended = rw (s.events, append-nil f.events.items);
  head = ap (λ q. q.head) s.events;
  delivered = rw s.stats (omega arith);
  given_up = rw s.stats (omega arith);
  source = tt;
  nothing_due = rw (s.ring, s.mask, s.cursor) q;
}

skip-Played :
    (now : Timestamp) (f f' : Flow) (k : ℕ)
    → f.receiver.deliver_next < 2 ^ 32
    → 1 ≤ k
    → k < 2 ^ 32
    → Played now (skip_to ((f.receiver.deliver_next + k) % 2 ^ 32) f) f'
    → Played now f f'
skip-Played now f f' k fits lo hi p =
    let r = f.receiver in
    let target = (r.deliver_next + k) % 2 ^ 32 in
    let recv = skip_to-receiver target f in
    let gone = (target + 2 ^ 32 - r.deliver_next) % 2 ^ 32 in
    record {
      events = p.events;
      lost = p.lost + k;
      plays = skip k lo refl (rw recv at p.plays) (p.lost + k) refl;
      appended = unfold skip_to in p.appended;
      head = unfold skip_to in p.head;
      delivered = unfold skip_to in p.delivered;
      given_up = unfold skip_to in omega (arith, p.given_up);
      source =
          All-map (FromRing now (skip_to target f).receiver) (FromRing now r) p.events
            (λ d b.
              FromRing-earlier now r (skipped r target) d
                (clear_slots-Emptied gone r.deliver_next r) refl (rw recv at b))
            p.source;
      nothing_due = p.nothing_due;
    }

emit-Played :
    (now : Timestamp) (f f' : Flow)
    → holds (slot_at f.receiver f.receiver.deliver_next) f.receiver.deliver_next ≡ true
    → before now (slot_at f.receiver f.receiver.deliver_next).output_time ≡ false
    → Played now (emit_deliver f) f'
    → Played now f f'
unfolding emit_deliver push
emit-Played now f f' full due p =
    let r = f.receiver in
    let s = slot_at r r.deliver_next in
    let d = deliver_event s r.pending_discontinuity in
    let at : s.seq ≡ r.deliver_next = ground arith in
    let first : FromRing now r d = record {
      buffered = subst (λ n. holds (slot_at r n) n ≡ true) (sym at) full;
      due = subst (λ n. before now (slot_at r n).output_time ≡ false) (sym at) due;
      content = subst (λ n. d ≡ deliver_event (slot_at r n) r.pending_discontinuity) (sym at) refl;
    } in
    let emptied : Emptied r (emit_deliver f).receiver = λ i h. ground arith in
    let rest =
      All-map (FromRing now (emit_deliver f).receiver) (FromRing now r) p.events
        (λ d' b. FromRing-earlier now r (emit_deliver f).receiver d' emptied refl b) p.source in
    record {
      events = d ∷ p.events;
      lost = p.lost;
      plays = hand at refl p.plays;
      appended = p.appended ∙ append_assoc f.events.items (d ∷ []) p.events;
      head = p.head;
      delivered = omega (arith, p.delivered);
      given_up = p.given_up;
      source = (first, rest);
      nothing_due = p.nothing_due;
    }

-- One round more, in each of its cases.
step_loop :
    (fuel : ℕ) (now : Timestamp) (f g : Flow) (f' : Flow)
    → deliver_round now f ≡ more g
    → deliver_loop fuel now g ≡ some f'
    → deliver_loop (suc fuel) now f ≡ some f'
unfolding deliver_loop
step_loop fuel now f g f' e h = rw (e, deliver_loop) h

rest_loop :
    (fuel : ℕ) (now : Timestamp) (f f' : Flow)
    → deliver_round now f ≡ stop f'
    → deliver_loop (suc fuel) now f ≡ some f'
unfolding deliver_loop
rest_loop fuel now f f' e = rw (e, deliver_loop)

abbrev Ends : ℕ → Timestamp → Flow → Type 0
Ends fuel now f = (f' : Flow) × (deliver_loop fuel now f ≡ some f') × Played now f f'

loop-Ends :
    (fuel : ℕ) (now : Timestamp) (f : Flow) → Shaped f.receiver → measure f < fuel → Ends fuel now f
loop-Ends zero now f v h = absurd (omega arith)
loop-Ends (suc fuel) now f v h =
    go (deliver_round_cases now f (ring_pos v))
      (λ _ full.
        loop-Ends fuel now (emit_deliver f) (emit_deliver-Shaped f v)
          (omega (arith, emit_deliver-measure f v full)))
      (λ k lo hi.
        loop-Ends fuel now (skip_to ((f.receiver.deliver_next + k) % 2 ^ 32) f)
          (skip_to-Shaped f (f.receiver.deliver_next + k) v)
          (omega (arith, skip_to-measure f k v lo hi)))
  where
    ring_pos : Shaped f.receiver → 1 ≤ f.receiver.ring_len
    ring_pos v' = rw v'.len (one-le-pow v'.bits 2 (omega arith))

    go :
        RoundCase now f (deliver_round now f)
        → (Unit {0}
            → holds (slot_at f.receiver f.receiver.deliver_next) f.receiver.deliver_next ≡ true
            → Ends fuel now (emit_deliver f))
        → ((k : ℕ)
            → 1 ≤ k
            → k ≤ ahead f.receiver
            → Ends fuel now (skip_to ((f.receiver.deliver_next + k) % 2 ^ 32) f))
        → Ends (suc fuel) now f
    go (rests f' same q e) hand_on skip_on =
        (f', rest_loop fuel now f f' e, rest-Played now f f' same q)
    go (hands full due e) hand_on skip_on =
        let (f', runs, p) = hand_on tt full in
        (f', step_loop fuel now f _ f' e runs, emit-Played now f f' full due p)
    go (skips k lo hi e) hand_on skip_on =
        let (f', runs, p) = skip_on k lo hi in
        let small : k < 2 ^ 32 =
          omega (arith, ahead_bound f.receiver.deliver_next f.receiver.highest v.cursor v.top) in
        (f', step_loop fuel now f _ f' e runs, skip-Played now f f' k v.cursor lo small p)

measure-lt-fuel : (f : Flow) → Shaped f.receiver → measure f < deliver_fuel f
unfolding deliver_fuel
measure-lt-fuel f v = omega (
  arith,
  count_filled-le f.receiver.ring f.receiver.ring_len,
  ahead_bound f.receiver.deliver_next f.receiver.highest v.cursor v.top,
)

deliver_due-result :
    (now : Timestamp) (f f' : Flow)
    → f.receiver.started ≡ true
    → deliver_loop (deliver_fuel f) now f ≡ some f'
    → deliver_due now f ≡ f'
unfolding deliver_due
deliver_due-result now f f' s runs = simp (runs, s)

-- On a started receiver with a well-shaped ring, `deliverDue` ends, and what it does is a run of
-- the playout specification from the cursor before to the cursor after: every event is at the
-- cursor, and is flagged exactly if sequences were given up since the event before it, or, for
-- the first, if the flag was pending or sequences were given up; each was in the ring, due, and
-- is handed on unchanged; Delivered and Lost count the events and the sequences given up; and
-- afterwards no packet that is due stands at the cursor.
pub deliver_due-Played :
    (now : Timestamp) (f : Flow)
    → Shaped f.receiver
    → f.receiver.started ≡ true
    → (deliver_loop (deliver_fuel f) now f ≡ some (deliver_due now f))
      × Played now f (deliver_due now f)
deliver_due-Played now f v s =
    let (f', runs, p) = loop-Ends (deliver_fuel f) now f v (measure-lt-fuel f v) in
    let same : deliver_due now f ≡ f' = deliver_due-result now f f' s runs in
    (rw same runs, rw same p)
