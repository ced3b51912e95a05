-- ===== src/Rtp/Tests.antt =====
-- A padded packet with an extension, and the theorem at it.
use ristgo.Prelude.{◌≡◌, refl, arith, true, [], ◌∷◌}
use ristgo.Prelude.Bytes.{Bytes}
use ristgo.Prelude.Results.{ok}
use ristgo.Rtp.{
  Header, Packet, marshal_size, header_bytes, marshal_to, packet_marshal_size, packet_marshal_to,
  packet_append_to, unmarshal_packet,
}
use ristgo.Rtp.RoundTrip.{IsWire}
use ristgo.Rtp.Packets.{unmarshal_packet-packet_append_to}

abbrev extended : Header
extended = record {
  version = 2;
  padding = true;
  extension = true;
  csrc_count = 1;
  marker = true;
  payload_type = 33;
  sequence_number = 515;
  timestamp = 9;
  ssrc = 6;
  csrc = 4 ∷ [];
  extension_profile = 0x5249;
  extension_payload = 1 ∷ 2 ∷ 3 ∷ 4 ∷ [];
}

extended-IsWire : IsWire extended
extended-IsWire = record {
  payload_type_fits = omega arith;
  sequence_number_fits = omega arith;
  timestamp_fits = omega arith;
  ssrc_fits = omega arith;
  csrc_counted = refl;
  csrc_fits = (omega arith, tt);
  profile_fits = omega arith;
  no_payload = refl;
}

abbrev sent : Packet
sent = record { header = extended; payload = 7 ∷ 8 ∷ []; padding_size = 2 }

abbrev sent_bytes : Bytes
sent_bytes =
    177 ∷ 161 ∷ 2 ∷ 3 ∷ 0 ∷ 0 ∷ 0 ∷ 9 ∷ 0 ∷ 0 ∷ 0 ∷ 6 ∷ 0 ∷ 0 ∷ 0 ∷ 4 ∷ 82 ∷ 73 ∷ 0 ∷ 1 ∷ 1 ∷ 2 ∷ 3
    ∷ 4 ∷ 7 ∷ 8 ∷ 0 ∷ 2 ∷ []

sent_written : packet_append_to sent [] ≡ ok sent_bytes
unfolding packet_append_to packet_marshal_to packet_marshal_size marshal_to marshal_size
    header_bytes
sent_written = refl

unmarshal_packet-packet_append_to_example : unmarshal_packet sent_bytes ≡ ok sent
unmarshal_packet-packet_append_to_example =
    unmarshal_packet-packet_append_to sent sent_bytes extended-IsWire (omega arith) sent_written
