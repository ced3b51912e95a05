-- ===== src/Gre.antt =====
-- internal/gre/gre.go: the headers of the Main profile's GRE framing.
pub mod Keepalive
pub mod RoundTrip
mod Tests
use ristgo.Prelude.{ℕ, ◌+◌, ◌*◌, ◌/◌, ◌%◌, ◌^◌, Bool, true, false, not, ◌&&◌, ◌||◌}
use ristgo.Prelude.{◌++◌, List, [], ◌∷◌, length, drop, ltb, ◌==◌, if◌then◌else◌}
use ristgo.Prelude.Bytes.{Bytes, put16, put32, byte, get16, get32, bit_at}
use ristgo.Prelude.Results.{Result, ok, err}

pub data GreError : Type 0 where
  short_buffer non_conformant unsupported_vsf_proto bad_keepalive : GreError

abbrev pub proto_keepalive : ℕ
proto_keepalive = 0x88B5

abbrev pub proto_reduced : ℕ
proto_reduced = 0x88B6

abbrev pub proto_full : ℕ
proto_full = 0x0800

abbrev pub proto_eapol : ℕ
proto_eapol = 0x888E

abbrev pub proto_vsf : ℕ
proto_vsf = 0xCCE0

unfoldable pub is_reserved : ℕ → Bool
is_reserved prot_type =
    prot_type == proto_reduced
    || prot_type == proto_keepalive
    || prot_type == proto_eapol
    || prot_type == proto_vsf

-- The nonce is the number that its four bytes stand for in network order.
pub record Header : Type 0 where
  pub version : ℕ
  pub has_key : Bool
  pub has_seq : Bool
  pub key_size256 : Bool
  pub nonce : ℕ
  pub seq : ℕ
  pub prot_type : ℕ

unfoldable pub size : Header → ℕ
size h = 4 + (if h.has_key then 4 else 0) + (if h.has_seq then 4 else 0)

-- The bits are distinct, so setting them adds them.
abbrev pub flags1 : Header → ℕ
flags1 h = (if h.has_seq then 2 ^ 4 else 0) + (if h.has_key then 2 ^ 5 else 0)

abbrev pub flags2 : Header → ℕ
flags2 h = h.version % 2 ^ 3 * 2 ^ 3 + (if h.has_key && h.key_size256 then 2 ^ 6 else 0)

-- `err` leaves `dst` as it was.
unfoldable pub append_to : Header → Bytes → Result GreError Bytes
append_to h dst =
    if ltb 7 h.version
    then err non_conformant
    else ok (
        dst
        ++ (flags1 h ∷ flags2 h ∷ put16 h.prot_type
            ++ (if h.has_key then put32 h.nonce else [])
            ++ (if h.has_seq then put32 h.seq else [])))

abbrev has_bit : ℕ → ℕ → Bool
has_bit n k = bit_at n k == 1

-- The header with the number of its bytes.
unfoldable pub parse : Bytes → Result GreError (Header × ℕ)
parse b =
    let f1 = byte b 0 in
    let f2 = byte b 1 in
    let has_key = has_bit f1 5 in
    let has_seq = has_bit f1 4 in
    let fixed : ℕ = if has_bit f1 7 then 8 else 4 in
    let keyed : ℕ = if has_key then fixed + 4 else fixed in
    let need : ℕ = if has_seq then keyed + 4 else keyed in
    if ltb (length b) 4
    then err short_buffer
    else if has_bit f1 6 || not (f2 % 2 ^ 3 == 0)
    then err non_conformant
    else if ltb (length b) need
    then err short_buffer
    else ok (
      record {
        version = f2 / 2 ^ 3 % 2 ^ 3;
        has_key = has_key;
        has_seq = has_seq;
        key_size256 = if has_key then has_bit f2 6 else false;
        nonce = if has_key then get32 (drop fixed b) else 0;
        seq = if has_seq then get32 (drop keyed b) else 0;
        prot_type = get16 (drop 2 b);
      },
      need,
    )

pub record ReducedHeader : Type 0 where
  pub src_port : ℕ
  pub dst_port : ℕ

unfoldable pub append_reduced : ReducedHeader → Bytes → Bytes
append_reduced r dst = dst ++ (put16 r.src_port ++ put16 r.dst_port)

unfoldable pub parse_reduced : Bytes → Result GreError (ReducedHeader × ℕ)
parse_reduced b =
    if ltb (length b) 4
    then err short_buffer
    else ok (record { src_port = get16 b; dst_port = get16 (drop 2 b) }, 4)

pub record VsfProto : Type 0 where
  pub kind : ℕ
  pub subtype : ℕ

abbrev pub vsf_type_rist : ℕ
vsf_type_rist = 0

unfoldable pub append_vsf_proto : VsfProto → Bytes → Bytes
append_vsf_proto v dst = dst ++ (put16 v.kind ++ put16 v.subtype)

unfoldable pub parse_vsf_proto : Bytes → Result GreError (VsfProto × ℕ)
parse_vsf_proto b =
    if ltb (length b) 4
    then err short_buffer
    else if not (get16 b == vsf_type_rist)
    then err unsupported_vsf_proto
    else ok (record { kind = get16 b; subtype = get16 (drop 2 b) }, 4)

pub record BufferNegotiation : Type 0 where
  pub sender_max_ms : ℕ
  pub receiver_cur_ms : ℕ
  pub proto_type : ℕ

unfoldable pub append_buffer_negotiation : BufferNegotiation → Bytes → Bytes
append_buffer_negotiation m dst =
    dst ++ (put16 m.sender_max_ms ++ put16 m.receiver_cur_ms ++ put16 m.proto_type)

unfoldable pub parse_buffer_negotiation : Bytes → Result GreError BufferNegotiation
parse_buffer_negotiation b =
    if ltb (length b) 6
    then err short_buffer
    else ok (record {
      sender_max_ms = get16 b;
      receiver_cur_ms = get16 (drop 2 b);
      proto_type = get16 (drop 4 b);
    })
