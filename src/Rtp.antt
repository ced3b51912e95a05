-- ===== src/Rtp.antt =====
-- internal/rtp: RTP headers and packets, and the lowest bit of an SSRC.
pub mod Reading
pub mod RoundTrip
pub mod Packets
mod Tests
use ristgo.Prelude.{ℕ, zero, suc, ◌+◌, ◌-◌, ◌*◌, ◌/◌, ◌%◌, ◌^◌, Bool, true, false, not, ◌||◌, ◌&&◌}
use ristgo.Prelude.{◌++◌, List, [], ◌∷◌, length, take, drop, ltb, leb, ◌==◌, if◌then◌else◌}
use ristgo.Prelude.Bytes.{Bytes, put16, put32, byte, get16, get32, bit_at, replicate}
use ristgo.Prelude.Results.{Result, ok, err}

pub data RtpError : Type 0 where
  header_too_short extension_too_short packet_too_short invalid_padding short_buffer : RtpError
  invalid_version too_many_csrc extension_not_aligned extension_too_long : RtpError

abbrev pub fixed_header_size : ℕ
fixed_header_size = 12

abbrev pub max_csrc : ℕ
max_csrc = 15

pub record Header : Type 0 where
  pub version : ℕ
  pub padding : Bool
  pub extension : Bool
  pub csrc_count : ℕ
  pub marker : Bool
  pub payload_type : ℕ
  pub sequence_number : ℕ
  pub timestamp : ℕ
  pub ssrc : ℕ
  pub csrc : List ℕ
  pub extension_profile : ℕ
  pub extension_payload : Bytes

pub record Packet : Type 0 where
  pub header : Header
  pub payload : Bytes
  pub padding_size : ℕ

abbrev pub read_csrc : ℕ → Bytes → List ℕ
read_csrc zero b = []
read_csrc (suc n) b = get32 b ∷ read_csrc n (drop 4 b)

-- The header of which `read` gives the extension's profile and payload, and the number of its bytes.
abbrev pub with_fixed : Bytes → List ℕ → ℕ → Bytes → Header
with_fixed b csrc profile payload = record {
  version = byte b 0 / 2 ^ 6;
  padding = bit_at (byte b 0) 5 == 1;
  extension = bit_at (byte b 0) 4 == 1;
  csrc_count = byte b 0 % 2 ^ 4;
  marker = byte b 1 / 2 ^ 7 == 1;
  payload_type = byte b 1 % 2 ^ 7;
  sequence_number = get16 (drop 2 b);
  timestamp = get32 (drop 4 b);
  ssrc = get32 (drop 8 b);
  csrc = csrc;
  extension_profile = profile;
  extension_payload = payload;
}

-- A failing Unmarshal leaves fields half filled in, which no caller reads.
unfoldable pub unmarshal : Bytes → Result RtpError (Header × ℕ)
unmarshal buf =
    let n_csrc = byte buf 0 % 2 ^ 4 in
    let n = fixed_header_size + n_csrc * 4 in
    let body = drop fixed_header_size buf in
    let csrc = read_csrc n_csrc body in
    let tail = drop (n_csrc * 4) body in
    let ext_len = get16 (drop 2 tail) * 4 in
    if ltb (length buf) fixed_header_size
    then err header_too_short
    else if ltb (length buf) n
    then err header_too_short
    else if not (bit_at (byte buf 0) 4 == 1)
    then ok (with_fixed buf csrc 0 [], n)
    else if ltb (length buf) (n + 4)
    then err extension_too_short
    else if ltb (length buf) (n + 4 + ext_len)
    then err extension_too_short
    else ok (with_fixed buf csrc (get16 tail) (take ext_len (drop 4 tail)), n + 4 + ext_len)

unfoldable pub marshal_size : Header → ℕ
marshal_size h =
    fixed_header_size
    + length h.csrc * 4
    + (if h.extension then 4 + length h.extension_payload else 0)

abbrev pub put_csrc : List ℕ → Bytes
put_csrc [] = []
put_csrc (c ∷ cs) = put32 c ++ put_csrc cs

-- The bytes that MarshalTo stores; the flags of the first two bytes are distinct bits, so setting them adds them.
unfoldable pub header_bytes : Header → Bytes
header_bytes h =
    (h.version * 2 ^ 6
      + length h.csrc
      + (if h.padding then 2 ^ 5 else 0)
      + (if h.extension then 2 ^ 4 else 0))
    ∷ (h.payload_type % 2 ^ 7 + (if h.marker then 2 ^ 7 else 0))
    ∷ (put16 h.sequence_number
        ++ (put32 h.timestamp
            ++ (put32 h.ssrc
                ++ (put_csrc h.csrc
                    ++ (if h.extension
                        then put16 h.extension_profile
                          ++ (put16 (length h.extension_payload / 4) ++ h.extension_payload)
                        else [])))))

-- The buffer afterwards and the number of bytes stored in it.
unfoldable pub marshal_to : Header → Bytes → Result RtpError (Bytes × ℕ)
unfolding marshal_size header_bytes
marshal_to h buf =
    let size = marshal_size h in
    if ltb 3 h.version
    then err invalid_version
    else if ltb max_csrc (length h.csrc)
    then err too_many_csrc
    else if h.extension && not (length h.extension_payload % 4 == 0)
    then err extension_not_aligned
    else if h.extension && ltb 0xFFFF (length h.extension_payload / 4)
    then err extension_too_long
    else if ltb (length buf) size
    then err short_buffer
    else ok (header_bytes h ++ drop size buf, size)

-- The new part of a grown buffer, whose bytes are all stored over.
abbrev pub appended : Bytes → Result RtpError (Bytes × ℕ) → Result RtpError Bytes
appended buf (err e) = err e
appended buf (ok (stored, n)) = ok (buf ++ stored)

unfoldable pub append_to : Header → Bytes → Result RtpError Bytes
unfolding marshal_to marshal_size
append_to h buf = appended buf (marshal_to h (replicate (marshal_size h) 0))

abbrev pub trim_padding : Bytes → Result RtpError (Header × ℕ) → Result RtpError Packet
trim_padding buf (err e) = err e
trim_padding buf (ok (h, n)) =
    let end = length buf in
    let pad = byte buf (end - 1) in
    if not h.padding
    then ok (record { header = h; payload = drop n buf; padding_size = 0 })
    else if leb end n
    then err packet_too_short
    else if pad == 0
    then err invalid_padding
    else if ltb (end - n) pad
    then err invalid_padding
    else ok (record { header = h; payload = take (end - pad - n) (drop n buf); padding_size = pad })

unfoldable pub unmarshal_packet : Bytes → Result RtpError Packet
unfolding unmarshal
unmarshal_packet buf = trim_padding buf (unmarshal buf)

unfoldable pub packet_marshal_size : Packet → ℕ
unfolding marshal_size
packet_marshal_size p = marshal_size p.header + length p.payload + p.padding_size

abbrev pub padding_bytes : ℕ → Bytes
padding_bytes zero = []
padding_bytes (suc k) = replicate k 0 ++ ((suc k) ∷ [])

abbrev pub store_payload : Packet → Result RtpError (Bytes × ℕ) → Result RtpError (Bytes × ℕ)
store_payload p (err e) = err e
store_payload p (ok (stored, n)) =
    let size = n + length p.payload + p.padding_size in
    if ltb (length stored) size
    then err short_buffer
    else ok
        (take n stored ++ (p.payload ++ (padding_bytes p.padding_size ++ drop size stored)), size)

abbrev pub same_flag : Bool → Bool → Bool
same_flag true b = b
same_flag false b = not b

unfoldable pub packet_marshal_to : Packet → Bytes → Result RtpError (Bytes × ℕ)
unfolding marshal_to
packet_marshal_to p buf =
    if not (same_flag p.header.padding (ltb 0 p.padding_size))
    then err invalid_padding
    else store_payload p (marshal_to p.header buf)

unfoldable pub packet_append_to : Packet → Bytes → Result RtpError Bytes
unfolding packet_marshal_to packet_marshal_size
packet_append_to p buf = appended buf (packet_marshal_to p (replicate (packet_marshal_size p) 0))

unfoldable pub normalize_ssrc : ℕ → ℕ
normalize_ssrc ssrc = ssrc / 2 * 2

unfoldable pub mark_retransmit : ℕ → ℕ
mark_retransmit ssrc = ssrc / 2 * 2 + 1

unfoldable pub is_retransmit : ℕ → Bool
is_retransmit ssrc = ssrc % 2 == 1
