-- ===== src/Split/SendSide.antt =====
-- What the sender's split keeps.
use ristgo.Prelude.{ℕ, ◌+◌, ◌≤◌, ◌≡◌, ◌≢◌, ◌↔◌, arith, true, some}
use ristgo.Prelude.{length, take-append-drop, ◌++◌, ◌∷◌, []}
use ristgo.Split.{Payload, SplitMode, split_off, split_auto, split_half, split_point, split_payload}
use mathlib.Core.List.{append-nil}
use ristgo.Split.{point_of}

-- A split point leaves at least one byte on each side, and the two lengths make up the payload.
pub split_point_lengths :
    (mode : SplitMode) (payload : Payload) {first last : ℕ}
    → split_point mode payload ≡ some (first, last)
    → (first + last ≡ length payload) × (1 ≤ first) × (1 ≤ last)
unfolding split_point
split_point_lengths split_off payload e = ground arith
split_point_lengths split_auto payload e = ground arith
split_point_lengths split_half payload e = ground arith

-- The halves put together are the payload, and the payload is split exactly when the mode is on
-- and it is not empty.
pub split_payload_lem :
    (mode : SplitMode) (payload : Payload)
    → let h = split_payload mode payload in
      (h.first ++ h.last ≡ payload) × ((h.split ≡ true) ↔ ((mode ≢ split_off) × (payload ≢ [])))
unfolding split_payload
split_payload_lem split_off payload = ground (arith, append-nil payload)
split_payload_lem split_auto [] = ground arith
split_payload_lem split_auto (x ∷ xs) =
    ground (arith, take-append-drop (point_of (split_point split_auto (x ∷ xs))) (x ∷ xs))
split_payload_lem split_half [] = ground arith
split_payload_lem split_half (x ∷ xs) =
    ground (arith, take-append-drop (point_of (split_point split_half (x ∷ xs))) (x ∷ xs))
