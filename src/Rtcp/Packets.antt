-- ===== src/Rtcp/Packets.antt =====
-- internal/rtcp: rtcp.go, report.go, echo.go, sdes.go, extseq.go and the bytes of nack.go. Byte arrays of a fixed
-- length are lists; a CNAME is its bytes.
use ristgo.Prelude.{ℕ, zero, suc, ◌+◌, ◌-◌, ◌*◌, ◌/◌, ◌%◌, ◌^◌, min, Bool, true, not, ◌&&◌, ◌||◌}
use ristgo.Prelude.{
  List, [], ◌∷◌, ◌++◌, Option, none, some, length, take, drop, ltb, ◌==◌, if◌then◌else◌,
}
use ristgo.Prelude.Bytes.{Bytes, put16, put32, put64, byte, get16, get32, get64, bit_at, replicate}
use ristgo.Prelude.Results.{Result, ok, err}
use ristgo.Rtcp.Nack.{NackRange, RangeNack, NackPair, BitmaskNack}

pub data RtcpError : Type 0 where
  short_packet bad_version empty_compound compound_order : RtcpError

abbrev pub pt_sender_report : ℕ
pt_sender_report = 200

abbrev pub pt_receiver_report : ℕ
pt_receiver_report = 201

abbrev pub pt_sdes : ℕ
pt_sdes = 202

abbrev pub pt_app : ℕ
pt_app = 204

abbrev pub pt_transport_feedback : ℕ
pt_transport_feedback = 205

abbrev pub name_rist : ℕ
name_rist = 0x52495354

abbrev pub header_size : ℕ
header_size = 4

abbrev pub app_fixed_size : ℕ
app_fixed_size = 12

abbrev pub echo_fixed_size : ℕ
echo_fixed_size = 24

abbrev pub sdes_fixed_size : ℕ
sdes_fixed_size = 10

abbrev pub lqm_extension_size : ℕ
lqm_extension_size = 44

pub record SenderReport : Type 0 where
  pub ssrc : ℕ
  pub ntp : ℕ
  pub rtp_time : ℕ
  pub packet_count : ℕ
  pub octet_count : ℕ

pub record ReceiverReport : Type 0 where
  pub sender_ssrc : ℕ
  pub media_ssrc : ℕ
  pub fraction_lost : ℕ
  pub cumulative_lost : ℕ
  pub highest_seq : ℕ
  pub jitter : ℕ
  pub lsr : ℕ
  pub dlsr : ℕ

-- The implementations of the interface Packet.
pub data Packet : Type 0 where
  sender_report : SenderReport → Packet
  empty_receiver_report : (ssrc : ℕ) → Packet
  receiver_report : ReceiverReport → Packet
  link_quality_report : (ssrc : ℕ) (lqm : Bytes) → Packet
  sdes : (ssrc : ℕ) (cname : Bytes) → Packet
  ext_seq : (ssrc seq_high : ℕ) → Packet
  range_nack : RangeNack → Packet
  bitmask_nack : BitmaskNack → Packet
  echo_request : (ssrc timestamp : ℕ) (padding : Bytes) → Packet
  echo_response : (ssrc timestamp processing_delay : ℕ) (padding : Bytes) → Packet
  raw : Bytes → Packet

pub record Header : Type 0 where
  pub count : ℕ
  pub pt : ℕ
  pub size : ℕ

unfoldable pub parse_header : Bytes → Result RtcpError Header
parse_header b =
    let size = (get16 (drop 2 b) + 1) * 4 in
    if ltb (length b) header_size
    then err short_packet
    else if not (byte b 0 / 2 ^ 6 == 2)
    then err bad_version
    else if ltb (length b) size
    then err short_packet
    else ok (record { count = byte b 0 % 2 ^ 5; pt = byte b 1; size = size })

-- A header and what follows it; `count` has five bits.
abbrev pub frame : (count pt words : ℕ) → Bytes → Bytes
frame count pt words body = (128 + count) ∷ pt ∷ (put16 words ++ body)

abbrev pub pad_to4 : ℕ → ℕ
pad_to4 n = (n + 3) / 4 * 4

abbrev pub sdes_size : ℕ → ℕ
sdes_size n = (sdes_fixed_size + n + 1 + 3) / 4 * 4

abbrev pub sent_name : Bytes → Bytes
sent_name name = take 255 name

abbrev pub put_ranges : List NackRange → Bytes
put_ranges [] = []
put_ranges (r ∷ rs) = put16 r.start ++ (put16 r.extra ++ put_ranges rs)

abbrev pub put_pairs : List NackPair → Bytes
put_pairs [] = []
put_pairs (f ∷ fs) = put16 f.pid ++ (put16 f.blp ++ put_pairs fs)

-- The echo's padding and the zeros up to a multiple of four.
abbrev pub padded : Bytes → Bytes
padded padding = padding ++ replicate (pad_to4 (length padding) - length padding) 0

abbrev pub echo_frame : (subtype ssrc ts delay : ℕ) → Bytes → Bytes
echo_frame subtype ssrc ts delay padding =
    frame subtype pt_app ((5 + pad_to4 (length padding) / 4) % 2 ^ 16)
      (put32 ssrc ++ (put32 name_rist ++ (put64 ts ++ (put32 delay ++ padded padding))))

-- The bytes that each AppendTo appends.
abbrev pub sender_report_bytes : SenderReport → Bytes
sender_report_bytes p = frame 0 pt_sender_report 6 (
    put32 p.ssrc
    ++ (put64 p.ntp ++ (put32 p.rtp_time ++ (put32 p.packet_count ++ put32 p.octet_count))))

abbrev pub empty_receiver_report_bytes : ℕ → Bytes
empty_receiver_report_bytes ssrc = frame 0 pt_receiver_report 1 (put32 ssrc)

abbrev pub receiver_report_bytes : ReceiverReport → Bytes
receiver_report_bytes p = frame 1 pt_receiver_report 7 (
    put32 p.sender_ssrc
    ++ (put32 p.media_ssrc
        ++ (p.fraction_lost
            ∷ (drop 1 (put32 (p.cumulative_lost % 2 ^ 24))
                ++ (put32 p.highest_seq ++ (put32 p.jitter ++ (put32 p.lsr ++ put32 p.dlsr)))))))

abbrev pub link_quality_report_bytes : ℕ → Bytes → Bytes
link_quality_report_bytes ssrc lqm = frame 0 pt_receiver_report 12 (put32 ssrc ++ lqm)

abbrev pub sdes_bytes : ℕ → Bytes → Bytes
sdes_bytes ssrc cname =
    let name = sent_name cname in
    let size = sdes_size (length name) in
    frame 1 pt_sdes (size / 4 - 1)
      (put32 ssrc ++ (1 ∷ length name ∷ (name ++ replicate (size - 10 - length name) 0)))

abbrev pub ext_seq_bytes : ℕ → ℕ → Bytes
ext_seq_bytes ssrc seq_high =
    frame 1 pt_app 3 (put32 ssrc ++ (put32 name_rist ++ (put16 seq_high ++ (0 ∷ 0 ∷ []))))

abbrev pub range_nack_bytes : RangeNack → Bytes
range_nack_bytes p =
    frame 0 pt_app ((2 + length p.ranges) % 2 ^ 16)
      (put32 p.media_ssrc ++ (put32 name_rist ++ put_ranges p.ranges))

abbrev pub bitmask_nack_bytes : BitmaskNack → Bytes
bitmask_nack_bytes p =
    frame 1 pt_transport_feedback ((2 + length p.fcis) % 2 ^ 16)
      (put32 p.sender_ssrc ++ (put32 p.media_ssrc ++ put_pairs p.fcis))

unfoldable pub packet_bytes : Packet → Bytes
packet_bytes (sender_report p) = sender_report_bytes p
packet_bytes (empty_receiver_report ssrc) = empty_receiver_report_bytes ssrc
packet_bytes (receiver_report p) = receiver_report_bytes p
packet_bytes (link_quality_report ssrc lqm) = link_quality_report_bytes ssrc lqm
packet_bytes (sdes ssrc cname) = sdes_bytes ssrc cname
packet_bytes (ext_seq ssrc seq_high) = ext_seq_bytes ssrc seq_high
packet_bytes (range_nack p) = range_nack_bytes p
packet_bytes (bitmask_nack p) = bitmask_nack_bytes p
packet_bytes (echo_request ssrc ts padding) = echo_frame 2 ssrc ts 0 padding
packet_bytes (echo_response ssrc ts delay padding) = echo_frame 3 ssrc ts delay padding
packet_bytes (raw b) = b

unfoldable pub append_to : Packet → Bytes → Bytes
unfolding packet_bytes
append_to p buf = buf ++ packet_bytes p

unfoldable pub marshal_size : Packet → ℕ
marshal_size (sender_report p) = 28
marshal_size (empty_receiver_report ssrc) = 8
marshal_size (receiver_report p) = 32
marshal_size (link_quality_report ssrc lqm) = 52
marshal_size (sdes ssrc cname) = sdes_size (min (length cname) 255)
marshal_size (ext_seq ssrc seq_high) = 16
marshal_size (range_nack p) = app_fixed_size + 4 * length p.ranges
marshal_size (bitmask_nack p) = app_fixed_size + 4 * length p.fcis
marshal_size (echo_request ssrc ts padding) = echo_fixed_size + pad_to4 (length padding)
marshal_size (echo_response ssrc ts delay padding) = echo_fixed_size + pad_to4 (length padding)
marshal_size (raw b) = length b

unfoldable pub decode_sender_report : Header → Bytes → Option Packet
decode_sender_report h body =
    if not (h.count == 0) || not (h.size == 28)
    then none
    else some (
        sender_report (record {
          ssrc = get32 (drop 4 body);
          ntp = get64 (drop 8 body);
          rtp_time = get32 (drop 16 body);
          packet_count = get32 (drop 20 body);
          octet_count = get32 (drop 24 body);
        }))

unfoldable pub decode_receiver_report : Header → Bytes → Option Packet
decode_receiver_report h body =
    if h.count == 0 && h.size == 8
    then some (empty_receiver_report (get32 (drop 4 body)))
    else if h.count == 1 && h.size == 32
    then some (
        receiver_report (record {
          sender_ssrc = get32 (drop 4 body);
          media_ssrc = get32 (drop 8 body);
          fraction_lost = byte body 12;
          cumulative_lost = get32 (drop 12 body) % 2 ^ 24;
          highest_seq = get32 (drop 16 body);
          jitter = get32 (drop 20 body);
          lsr = get32 (drop 24 body);
          dlsr = get32 (drop 28 body);
        }))
    else if h.count == 0 && h.size == 52
    then some (link_quality_report (get32 (drop 4 body)) (take lqm_extension_size (drop 8 body)))
    else none

abbrev pub all_zero : Bytes → Bool
all_zero [] = true
all_zero (x ∷ b) = x == 0 && all_zero b

unfoldable pub decode_sdes : Header → Bytes → Option Packet
decode_sdes h body =
    let n = byte body 9 in
    if not (h.count == 1) || ltb h.size (sdes_fixed_size + 1) || not (byte body 8 == 1)
    then none
    else if ltb h.size (sdes_fixed_size + n + 1)
        || not (all_zero (drop n (drop sdes_fixed_size body)))
    then none
    else some (sdes (get32 (drop 4 body)) (take n (drop sdes_fixed_size body)))

unfoldable pub decode_ext_seq : Bytes → Option Packet
decode_ext_seq body =
    if length body == 16 then some (ext_seq (get32 (drop 4 body)) (get16 (drop 12 body))) else none

unfoldable pub decode_echo : ℕ → Bytes → Option Packet
decode_echo subtype body =
    if ltb (length body) echo_fixed_size
    then none
    else if subtype == 2
    then some
        (echo_request (get32 (drop 4 body)) (get64 (drop 12 body)) (drop echo_fixed_size body))
    else some (
        echo_response (get32 (drop 4 body)) (get64 (drop 12 body)) (get32 (drop 20 body))
          (drop echo_fixed_size body))

abbrev pub read_ranges : ℕ → Bytes → List NackRange
read_ranges zero b = []
read_ranges (suc n) b =
    record { start = get16 b; extra = get16 (drop 2 b) } ∷ read_ranges n (drop 4 b)

abbrev pub read_pairs : ℕ → Bytes → List NackPair
read_pairs zero b = []
read_pairs (suc n) b = record { pid = get16 b; blp = get16 (drop 2 b) } ∷ read_pairs n (drop 4 b)

unfoldable pub decode_range_nack : Bytes → Option Packet
decode_range_nack body = some (
    range_nack (record {
      media_ssrc = get32 (drop 4 body);
      ranges = read_ranges ((length body - app_fixed_size) / 4) (drop app_fixed_size body);
    }))

unfoldable pub decode_bitmask_nack : Header → Bytes → Option Packet
decode_bitmask_nack h body =
    if not (h.count == 1) || ltb h.size app_fixed_size
    then none
    else some (
        bitmask_nack (record {
          sender_ssrc = get32 (drop 4 body);
          media_ssrc = get32 (drop 8 body);
          fcis = read_pairs ((h.size - app_fixed_size) / 4) (drop app_fixed_size body);
        }))

unfoldable pub decode_app : Header → Bytes → Option Packet
unfolding decode_range_nack decode_ext_seq decode_echo
decode_app h body =
    if ltb (length body) app_fixed_size || not (get32 (drop 8 body) == name_rist)
    then none
    else if h.count == 0
    then decode_range_nack body
    else if h.count == 1
    then decode_ext_seq body
    else if h.count == 2 || h.count == 3
    then decode_echo h.count body
    else none

unfoldable pub decode_typed : Header → Bytes → Option Packet
unfolding decode_sender_report decode_receiver_report decode_sdes decode_app decode_bitmask_nack
decode_typed h body =
    if h.pt == pt_sender_report
    then decode_sender_report h body
    else if h.pt == pt_receiver_report
    then decode_receiver_report h body
    else if h.pt == pt_sdes
    then decode_sdes h body
    else if h.pt == pt_app
    then decode_app h body
    else if h.pt == pt_transport_feedback
    then decode_bitmask_nack h body
    else none

-- What is not understood, or is padded, is kept as it is.
abbrev pub or_raw : Bytes → Option Packet → Packet
or_raw body none = raw body
or_raw body (some p) = p

abbrev pub parse_body : Bytes → Result RtcpError Header → Result RtcpError (Packet × ℕ)
parse_body b (err e) = err e
parse_body b (ok h) =
    let body = take h.size b in
    ok (or_raw body (if bit_at (byte b 0) 5 == 0 then decode_typed h body else none), h.size)

unfoldable pub parse : Bytes → Result RtcpError (Packet × ℕ)
unfolding parse_header decode_typed
parse b = parse_body b (parse_header b)
