-- ===== src/Split/Merging.antt =====
-- What the receiver's merge keeps.
use ristgo.Prelude.{◌⊎◌}
use ristgo.Prelude.{ℕ, ◌+◌, ◌^◌, ◌≡◌, ◌≢◌, arith, Bool, true, false}
use ristgo.Prelude.{List, [], ◌∷◌, ◌++◌, ◌%◌, if◌then◌else◌, bit_and}
use ristgo.Split.{Payload, SplitMode, Merger, active, deliver, split_payload, split_off}
use ristgo.Split.SendSide.{split_payload_lem}
use mathlib.Core.List.{append-nil, append_assoc}

abbrev pub concat : List Payload → Payload
concat [] = []
concat (p ∷ ps) = p ++ concat ps

-- What the merger holds back.
abbrev pub held : Merger → Payload
held m = if m.has_held then m.held_payload else []

-- While merging is on, no byte is lost, made up or reordered: what is handed on, followed by what
-- is still held, is what was held, followed by the payload delivered.
pub deliver_conserves :
    (m : Merger) (seq src : ℕ) (payload : Payload) (gap : Bool)
    → active m ≡ true
    → let (m', out) = deliver m seq src payload gap in concat out ++ held m' ≡ held m ++ payload
unfolding deliver
deliver_conserves m seq src payload gap on = ground (
  arith,
  append-nil payload,
  append-nil m.held_payload,
  append-nil (m.held_payload ++ payload),
  append_assoc m.held_payload payload [],
)

-- The two halves of a split payload, delivered in order on an even sequence and the next with one
-- source time to an active merger that holds nothing, come out as the payload, whole and alone.
pub deliver-split_payload :
    (m : Merger) (mode : SplitMode) (payload : Payload) (seq src : ℕ) (gap : Bool)
    → active m ≡ true
    → m.has_held ≡ false
    → mode ≢ split_off
    → payload ≢ []
    → bit_and seq 1 ≡ 0
    → let h = split_payload mode payload in
      let (m1, out1) = deliver m seq src h.first gap in
      let (m2, out2) = deliver m1 ((seq + 1) % 2 ^ 32) src h.last false in
      (h.split ≡ true) × (out1 ≡ []) × (out2 ≡ payload ∷ []) × (m2.has_held ≡ false)
unfolding deliver
deliver-split_payload m mode payload seq src gap on free cut full even =
    let (whole, _) = split_payload_lem mode payload in
    let did = (split_payload_lem mode payload).1.1 (cut, full) in ground (arith, whole, did)

-- What an active merger hands on is nothing, the payload delivered, the half it held, these two
-- in turn, or the two joined; and they are joined only if the held half has an even sequence,
-- the delivery has the next one, the source times are equal and no gap lies between.
pub deliver_joins_partners :
    (m : Merger) (seq src : ℕ) (payload : Payload) (gap : Bool)
    → active m ≡ true
    → let out = (deliver m seq src payload gap).1 in
      (out ≡ [])
      ⊎ (out ≡ payload ∷ [])
      ⊎ (out ≡ m.held_payload ∷ [])
      ⊎ (out ≡ m.held_payload ∷ payload ∷ [])
      ⊎ ((out ≡ (m.held_payload ++ payload) ∷ [])
          × (m.has_held ≡ true)
          × (gap ≡ false)
          × (bit_and m.held_seq 1 ≡ 0)
          × (seq ≡ (m.held_seq + 1) % 2 ^ 32)
          × (m.held_src ≡ src))
unfolding deliver
deliver_joins_partners m seq src payload gap on = ground arith
