-- ===== src/Rtcp/Nack/Tests.antt =====
-- Runs at concrete sequences, and the theorems at them.
use ristgo.Prelude.{ℕ, ◌^◌, ◌≤◌, ◌≡◌, refl, arith, some, List, [], ◌∷◌, length}
use ristgo.Rtcp.Nack.{
  Packet, bitmask, decode_nack, encode_range_nack, nack_pairs_from_sequence_numbers,
}
use ristgo.Rtcp.Nack.Expanding.{decode_nack-length}
use ristgo.Rtcp.Nack.RoundTrip.{decoded, decoded-encode_range_nack}

abbrev around_the_wrap : List ℕ
around_the_wrap = 65_534 ∷ 65_535 ∷ 65_536 ∷ 9 ∷ []

two_pairs :
    nack_pairs_from_sequence_numbers around_the_wrap ≡ record { pid = 65_534; blp = 1027 } ∷ []
unfolding nack_pairs_from_sequence_numbers
two_pairs = refl

decoded-encode_range_nack_example :
    decoded (encode_range_nack 1 2 around_the_wrap) ≡ 65_534 ∷ 65_535 ∷ 0 ∷ 9 ∷ []
decoded-encode_range_nack_example = decoded-encode_range_nack 1 2 around_the_wrap (omega arith)

abbrev two_bits : Packet
two_bits =
    bitmask (record { sender_ssrc = 1; media_ssrc = 2; fcis = record { pid = 7; blp = 2 } ∷ [] })

abbrev two_sequences : List ℕ
two_sequences = 7 ∷ 9 ∷ []

two_missing : decode_nack two_bits ≡ some two_sequences
unfolding decode_nack
two_missing = refl

decode_nack-length_example : length two_sequences ≤ 2 ^ 16
decode_nack-length_example = decode_nack-length two_bits two_sequences two_missing
