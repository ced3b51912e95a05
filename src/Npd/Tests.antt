-- ===== src/Npd/Tests.antt =====
-- Two packets of which the second is null, and the theorem at them.
use ristgo.Prelude.{◌≡◌, refl, [], ◌∷◌, ◌++◌}
use ristgo.Prelude.Bytes.{Bytes, replicate}
use ristgo.Prelude.Results.{ok}
use ristgo.Npd.{suppress, mark_nulls, keep_packets, expand}
use ristgo.Npd.RoundTrip.{standard, expand-suppress}

-- A packet of stream 256, and a null one whose bytes are not the standard ones.
abbrev video_packet : Bytes
video_packet = 0x47 ∷ 1 ∷ 0 ∷ replicate 185 5

abbrev stuffing : Bytes
stuffing = 0x47 ∷ 0x1F ∷ 0xFF ∷ replicate 185 0

stuffing_left_out : suppress [] (video_packet ++ stuffing) ≡ ok (video_packet, 32, 188)
unfolding suppress mark_nulls keep_packets
stuffing_left_out = refl

expand-suppress_example : expand [] video_packet 32 ≡ ok (standard (video_packet ++ stuffing))
expand-suppress_example =
    expand-suppress (video_packet ++ stuffing) (video_packet, 32, 188) stuffing_left_out
