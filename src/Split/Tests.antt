-- ===== src/Split/Tests.antt =====
-- Runs at concrete payloads, and the theorems at them.
use ristgo.Prelude.{
  ℕ, ◌+◌, ◌^◌, ◌%◌, ◌≤◌, ◌≡◌, ◌≢◌, ◌⊎◌, ◌↔◌, refl, arith, true, false, [], ◌∷◌, ◌++◌,
}
use ristgo.Prelude.{length, some, bit_and}
use ristgo.Split.{
  Payload, Merger, merge_pairs, split_off, split_half, split_point, split_payload, deliver, active,
}
use ristgo.Split.SendSide.{split_point_lengths, split_payload_lem}
use ristgo.Split.Merging.{
  concat, held, deliver_conserves, deliver-split_payload, deliver_joins_partners,
}

abbrev three_bytes : Payload
three_bytes = 1 ∷ 2 ∷ 3 ∷ []

halves : split_point split_half three_bytes ≡ some (1, 2)
unfolding split_point
halves = refl

split_point_lengths_example : (1 + 2 ≡ length three_bytes) × (1 ≤ 1) × (1 ≤ 2)
split_point_lengths_example = split_point_lengths split_half three_bytes halves

split_payload_lem_example :
    let h = split_payload split_half three_bytes in
    (h.first ++ h.last ≡ three_bytes)
    × ((h.split ≡ true) ↔ ((split_half ≢ split_off) × (three_bytes ≢ [])))
split_payload_lem_example = split_payload_lem split_half three_bytes

abbrev idle : Merger
idle = record {
  mode = merge_pairs;
  auto_enabled = false;
  has_held = false;
  held_seq = 0;
  held_src = 0;
  held_payload = [];
}

-- A merger that holds the first half of sequence 4.
abbrev holding : Merger
holding = record idle { has_held = true; held_seq = 4; held_src = 90; held_payload = 1 ∷ [] }

merging : active idle ≡ true
unfolding active
merging = refl

still_merging : active holding ≡ true
unfolding active
still_merging = refl

deliver_conserves_example :
    let (m', out) = deliver holding 5 90 (2 ∷ 3 ∷ []) false in
    concat out ++ held m' ≡ held holding ++ (2 ∷ 3 ∷ [])
deliver_conserves_example = deliver_conserves holding 5 90 (2 ∷ 3 ∷ []) false still_merging

deliver-split_payload_example :
    let h = split_payload split_half three_bytes in
    let (m1, out1) = deliver idle 4 90 h.first true in
    let (m2, out2) = deliver m1 ((4 + 1) % 2 ^ 32) 90 h.last false in
    (h.split ≡ true) × (out1 ≡ []) × (out2 ≡ three_bytes ∷ []) × (m2.has_held ≡ false)
deliver-split_payload_example =
    deliver-split_payload idle split_half three_bytes 4 90 true merging refl (ground arith)
      (ground arith) refl

deliver_joins_partners_example :
    let out = (deliver holding 5 90 (2 ∷ 3 ∷ []) false).1 in
    let src : ℕ = 90 in
    (out ≡ [])
    ⊎ (out ≡ (2 ∷ 3 ∷ []) ∷ [])
    ⊎ (out ≡ (1 ∷ []) ∷ [])
    ⊎ (out ≡ (1 ∷ []) ∷ (2 ∷ 3 ∷ []) ∷ [])
    ⊎ ((out ≡ ((1 ∷ []) ++ (2 ∷ 3 ∷ [])) ∷ [])
        × (true ≡ true)
        × (false ≡ false)
        × (bit_and 4 1 ≡ 0)
        × ((4 + 1) % 2 ^ 32 ≡ (4 + 1) % 2 ^ 32)
        × (src ≡ src))
deliver_joins_partners_example =
    deliver_joins_partners holding 5 90 (2 ∷ 3 ∷ []) false still_merging
