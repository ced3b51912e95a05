-- ===== src/Flow/Invariant/Ingest.antt =====
-- Ingest keeps the receiver's invariant.
use ristgo.Prelude.{ℕ, ◌+◌, ◌-◌, ◌%◌, ◌^◌, ◌<◌, inl, inr, refl, arith}
use ristgo.Prelude.{Bool, Bool-cases, List, [], ◌∷◌}
use ristgo.Prelude.{All, All-append, length-append, sym, ◌&&◌, not, ◌==◌, ◌||◌}
use ristgo.Clock.{Timestamp}
use ristgo.Wire.{MediaPacket}
use ristgo.Prelude.{if◌then◌else◌}
use ristgo.Flow.Effects.{inc64}
use ristgo.Flow.State.{Flow, MissingEntry, slot_at}
use ristgo.Flow.Playout.{arm_playout}
use ristgo.Flow.Playout.Rounds.{arm_playout-Same}
use ristgo.Flow.Missing.{mark_missing, schedule_nack}
use ristgo.Flow.Missing.Marks.{Fresh, Marks, mark_missing-Marks}
use ristgo.Flow.Nacks.Requests.{Bounded}
use ristgo.Flow.Invariant.{Inv, Keeps-Inv, Quiet, Quiet-Inv, Same-Inv}
use ristgo.Flow.Receiver.{
  sample_spacing, check_flow_id, check_framing, prepare, start, ingest, packet_time_of, reanchor,
  track_newest, insert, advance, admit, drop_duplicate, is_duplicate, too_late, feed,
  reset_receiver, flow_id,
}
use mathlib.Core.Path.{subst}

Fresh-Bounded :
    (f : Flow) (path m : ℕ) (es : List MissingEntry) → Fresh path m es → All (Bounded f) es
Fresh-Bounded f path m [] h = tt
Fresh-Bounded f path m (e ∷ es) (_, never, _, hs) =
    (inl never, Fresh-Bounded f path ((m + 1) % 2 ^ 32) es hs)

Marks-Inv : (path m d count : ℕ) (f f' : Flow) → Marks path m d count f f' → Inv f → Inv f'
Marks-Inv path m d count f f' k v = subst Inv (sym k.grown) (record {
  shaped = record {
    bits = v.shaped.bits;
    len = v.shaped.len;
    ones = v.shaped.ones;
    cursor = v.shaped.cursor;
    top = v.shaped.top;
  };
  last = v.last;
  queue = record {
    count = omega (arith, v.queue.count, length-append f.receiver.missing k.added);
    bounded =
        All-append (Bounded f) f.receiver.missing k.added v.queue.bounded
          (Fresh-Bounded f path m k.added k.fresh);
  };
})

mark_missing-Inv :
    (now : Timestamp) (path current : ℕ) (t : Timestamp) (f : Flow)
    → current < 2 ^ 32
    → Inv f
    → Inv (mark_missing now path current t f)
mark_missing-Inv now path current t f h v =
    elim (mark_missing-Marks now path current t f h v.last) [
      | inl (_, same) ↦ subst Inv (sym same) v
      | inr (_, _, _, k) ↦ Marks-Inv path _ _ _ f _ k v
    ]

arm_playout-Inv : (deadline : Timestamp) (f : Flow) → Inv f → Inv (arm_playout deadline f)
arm_playout-Inv deadline f v = Same-Inv f _ (arm_playout-Same deadline f) v

pub schedule_nack-Inv : (now : Timestamp) (f : Flow) → Inv f → Inv (schedule_nack now f)
schedule_nack-Inv now f v = Quiet-Inv f (schedule_nack now f) quiet v
  where
    quiet : Quiet f (schedule_nack now f)
    quiet = unfold schedule_nack in ground arith

sample_spacing-Inv : (now : Timestamp) (f : Flow) → Inv f → Inv (sample_spacing now f)
sample_spacing-Inv now f v = Quiet-Inv f (sample_spacing now f) quiet v
  where
    quiet : Quiet f (sample_spacing now f)
    quiet = unfold sample_spacing in ground arith

check_framing-Inv :
    (now : Timestamp) (pkt : MediaPacket) (f : Flow) → Inv f → Inv (check_framing now pkt f)
check_framing-Inv now pkt f v = Quiet-Inv f (check_framing now pkt f) quiet v
  where
    quiet : Quiet f (check_framing now pkt f)
    quiet = unfold check_framing in ground arith

reset_receiver-Inv : (f : Flow) → Inv f → Inv (reset_receiver f)
unfolding reset_receiver
reset_receiver-Inv f v = record {
  shaped = record {
    bits = v.shaped.bits;
    len = v.shaped.len;
    ones = v.shaped.ones;
    cursor = v.shaped.cursor;
    top = v.shaped.top;
  };
  last = v.last;
  queue = record { count = refl; bounded = tt };
}

check_flow_id-Inv : (pkt : MediaPacket) (f : Flow) → Inv f → Inv (check_flow_id pkt f)
unfolding check_flow_id
check_flow_id-Inv pkt f v =
    let r = f.receiver in
    elim (Bool-cases
      (r.started && not pkt.retransmit && not (flow_id pkt.ssrc == flow_id r.ssrc))) [
        | inl other ↦ rw other (
            Quiet-Inv (reset_receiver f) _ (refl, refl, refl, refl, refl, refl, refl, refl)
              (reset_receiver-Inv f v))
        | inr same ↦ rw same v
      ]

start-Inv :
    (now : Timestamp) (path : ℕ) (pkt : MediaPacket) (f : Flow)
    → pkt.seq < 2 ^ 32
    → Inv f
    → Inv (start now path pkt f)
unfolding start arm_playout
start-Inv now path pkt f h v =
    Keeps-Inv f (start now path pkt f)
      (record {
        len = ground arith;
        mask = ground arith;
        missing = ground arith;
        missing_count = ground arith;
        cfg = ground arith;
      })
      (ground (arith, h)) (ground (arith, h)) (ground (arith, h)) v

packet_time_of-Inv :
    (now : Timestamp) (pkt : MediaPacket) (f : Flow) → Inv f → Inv (packet_time_of now pkt f).1
packet_time_of-Inv now pkt f v = Quiet-Inv f (packet_time_of now pkt f).1 quiet v
  where
    quiet : Quiet f (packet_time_of now pkt f).1
    quiet = unfold packet_time_of reanchor in ground arith

track_newest-Inv :
    (t : Timestamp) (pkt : MediaPacket) (f : Flow) → Inv f → Inv (track_newest t pkt f)
track_newest-Inv t pkt f v = Quiet-Inv f (track_newest t pkt f) quiet v
  where
    quiet : Quiet f (track_newest t pkt f)
    quiet = unfold track_newest in ground arith

drop_duplicate-Inv :
    (path : ℕ) (pkt : MediaPacket) (f : Flow) → Inv f → Inv (drop_duplicate path pkt f)
drop_duplicate-Inv path pkt f v = Quiet-Inv f (drop_duplicate path pkt f) quiet v
  where
    quiet : Quiet f (drop_duplicate path pkt f)
    quiet = unfold drop_duplicate in (refl, refl, refl, refl, refl, refl, refl, refl)

insert-Inv :
    (now : Timestamp) (path : ℕ) (t : Timestamp) (late : Bool) (pkt : MediaPacket) (f : Flow)
    → pkt.seq < 2 ^ 32
    → Inv f
    → Inv (insert now path t late pkt f)
unfolding insert
insert-Inv now path t late pkt f h v =
    Keeps-Inv f (insert now path t late pkt f)
      (record { len = refl; mask = refl; missing = refl; missing_count = refl; cfg = refl })
      v.shaped.cursor (ground (arith, v.shaped.top)) v.last v

last_found-Inv :
    (n : ℕ) (f : Flow)
    → n < 2 ^ 32
    → Inv f
    → Inv (record f { receiver = record (f.receiver) { last_found = n } })
last_found-Inv n f h v =
    Keeps-Inv f _
      (record { len = refl; mask = refl; missing = refl; missing_count = refl; cfg = refl })
      v.shaped.cursor v.shaped.top h v

advance-Inv :
    (now : Timestamp) (path : ℕ) (t : Timestamp) (late : Bool) (pkt : MediaPacket) (f : Flow)
    → pkt.seq < 2 ^ 32
    → Inv f
    → Inv (advance now path t late pkt f)
unfolding advance
advance-Inv now path t late pkt f h v = elim (Bool-cases (pkt.retransmit || late)) [
  | inl stays ↦ rw stays v
  | inr moves ↦ elim (Bool-cases ((pkt.seq + 2 ^ 32 - 1) % 2 ^ 32 == f.receiver.last_found)) [
    | inl next ↦ rw (moves, next) (last_found-Inv pkt.seq f h v)
    | inr gap ↦
        rw (moves, gap) (last_found-Inv pkt.seq _ h (mark_missing-Inv now path pkt.seq t f h v))
  ]
]

admit-Inv :
    (now : Timestamp) (path : ℕ) (t : Timestamp) (pkt : MediaPacket) (f : Flow)
    → pkt.seq < 2 ^ 32
    → Inv f
    → Inv (admit now path t pkt f)
unfolding admit
admit-Inv now path t pkt f h v = elim (Bool-cases (too_late now t pkt f)) [
  | inl late ↦ rw late (Quiet-Inv f _ (refl, refl, refl, refl, refl, refl, refl, refl) v)
  | inr in_time ↦ elim (Bool-cases (is_duplicate (slot_at f.receiver pkt.seq) pkt)) [
    | inl seen ↦ rw (in_time, seen) (drop_duplicate-Inv path pkt f v)
    | inr new ↦
        rw (in_time, new)
          (schedule_nack-Inv now _ (
            arm_playout-Inv _ _
              (advance-Inv now path t _ pkt _ h (insert-Inv now path t _ pkt f h v))))
  ]
]

ingest-Inv :
    (now : Timestamp) (path : ℕ) (pkt : MediaPacket) (f : Flow)
    → pkt.seq < 2 ^ 32
    → Inv f
    → Inv (ingest now path pkt f)
unfolding ingest
ingest-Inv now path pkt f h v =
    let st = f.stats in
    let counted : Flow =
      if pkt.retransmit
      then record f {
        stats = record st { retransmitted_received = inc64 st.retransmitted_received };
      }
      else f in
    let u : Inv counted = Quiet-Inv f counted (ground arith) v in
    admit-Inv now path _ pkt _ h (track_newest-Inv _ pkt _ (packet_time_of-Inv now pkt counted u))

prepare-Inv : (now : Timestamp) (pkt : MediaPacket) (f : Flow) → Inv f → Inv (prepare now pkt f)
unfolding prepare
prepare-Inv now pkt f v =
    check_framing-Inv now pkt _ (check_flow_id-Inv pkt _ (sample_spacing-Inv now f v))

prepared-Inv :
    (now : Timestamp) (path : ℕ) (pkt : MediaPacket) (g : Flow)
    → pkt.seq < 2 ^ 32
    → Inv g
    → Inv (
        if g.receiver.started
        then ingest now path pkt g
        else if pkt.retransmit
        then g
        else start now path pkt g)
prepared-Inv now path pkt g h u =
    let run = ingest-Inv now path pkt g h u in
    let first = start-Inv now path pkt g h u in
    elim (Bool-cases g.receiver.started) [
      | inl on ↦ simp on run
      | inr off ↦ elim (Bool-cases pkt.retransmit) [
        | inl again ↦ simp (off, again) u
        | inr fresh ↦ simp (off, fresh) first
      ]
    ]

pub feed-Inv :
    (now : Timestamp) (path : ℕ) (pkt : MediaPacket) (f : Flow)
    → pkt.seq < 2 ^ 32
    → Inv f
    → Inv (feed now path pkt f)
unfolding feed
feed-Inv now path pkt f h v = prepared-Inv now path pkt _ h (prepare-Inv now pkt f v)
