-- ===== src/Rtcp/Framing.antt =====
-- How rtcp.go reads the frame of a packet.
use ristgo.Prelude.{ℕ, ◌+◌, ◌*◌, ◌/◌, ◌%◌, ◌^◌, ◌<◌, ◌≡◌, refl, arith, ap, ◌∙◌, true, false}
use ristgo.Prelude.{◌++◌, some, length, ltb, ◌==◌, take-front, length-append}
use ristgo.Prelude.Bytes.{Bytes, put16, get16, bit_at}
use ristgo.Prelude.Results.{ok}
use ristgo.Rtcp.Packets.{Packet, Header, frame, parse_header, decode_typed, or_raw, parse}

abbrev pub header_of : (count pt words : ℕ) → Header
header_of count pt words = record { count = count; pt = pt; size = (words + 1) * 4 }

module _ (count pt words : ℕ) (body rest : Bytes) (five : count < 32) (fits : words < 2 ^ 16)
    (whole : length body ≡ words * 4) where
  parse_header-frame :
      parse_header (frame count pt words body ++ rest) ≡ ok (header_of count pt words)
  unfolding parse_header
  parse_header-frame =
      let all = length-append body rest in
      let size : (get16 (put16 words ++ (body ++ rest)) + 1) * 4 ≡ (words + 1) * 4 = omega arith in
      let a : ltb (length (frame count pt words body ++ rest)) 4 ≡ false = ground arith in
      let b : ((128 + count) / 2 ^ 6 == 2) ≡ true = ground arith in
      let c : ltb (length (frame count pt words body ++ rest)) ((words + 1) * 4) ≡ false =
        ground arith in
      let d : (128 + count) % 2 ^ 5 ≡ count = omega arith in rw (a, b, size, c, d) refl

  pub parse-frame :
      parse (frame count pt words body ++ rest)
      ≡ ok (
        or_raw
            (frame count pt words body)
            (decode_typed (header_of count pt words) (frame count pt words body)),
        (words + 1) * 4,
      )
  unfolding parse
  parse-frame =
      let unpadded : (bit_at (128 + count) 5 == 0) ≡ true = ground arith in
      let front : length (frame count pt words body) ≡ (words + 1) * 4 = omega arith in
      rw
        (
          parse_header-frame,
          unpadded,
          take-front ((words + 1) * 4) (frame count pt words body) rest front,
        )
        refl

  -- Where the packet is understood.
  pub parse-frame-some :
      (p : Packet)
      → decode_typed (header_of count pt words) (frame count pt words body) ≡ some p
      → parse (frame count pt words body ++ rest) ≡ ok (p, (words + 1) * 4)
  parse-frame-some p e =
      parse-frame ∙ ap (λ o. ok (or_raw (frame count pt words body) o, (words + 1) * 4)) e
