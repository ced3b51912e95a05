-- ===== src/Rtcp/Kept.antt =====
-- RTCP packets written and read again, alone and in a compound.
use ristgo.Prelude.{
  ℕ, zero, suc, ◌+◌, ◌-◌, ◌*◌, ◌/◌, ◌%◌, ◌^◌, ◌≤◌, ◌<◌, ◌≡◌, refl, arith, ap, sym, ◌∙◌, min, true,
  false,
}
use ristgo.Prelude.{
  List, [], ◌∷◌, ◌++◌, some, length, take, drop, ltb, take-front, drop-front, length-append, All,
}
use mathlib.Core.List.{append-nil}
use ristgo.Prelude.Bytes.{
  Bytes, put32, get32, replicate, length-replicate, get16-put16, get32-put32, get64-put64,
}
use ristgo.Prelude.Results.{ok}
use ristgo.Rtcp.Nack.{NackRange, RangeNack, NackPair, BitmaskNack}
use ristgo.Rtcp.Packets.{
  SenderReport, ReceiverReport, Packet, sender_report, empty_receiver_report, receiver_report,
  link_quality_report, sdes, ext_seq, range_nack, bitmask_nack, echo_request, echo_response, raw,
  frame, decode_typed, decode_sender_report, decode_receiver_report, decode_sdes, decode_app,
  decode_ext_seq, decode_echo, decode_range_nack, decode_bitmask_nack, packet_bytes, marshal_size,
  parse, put_ranges, put_pairs, read_ranges, read_pairs, padded, pad_to4, sdes_size, sent_name,
  all_zero,
}
use ristgo.Rtcp.Framing.{parse-frame-some, header_of}

abbrev pub Is32 : ℕ → Type 0
Is32 n = n < 2 ^ 32

abbrev pub RangeFits : NackRange → Type 0
RangeFits r = (r.start < 2 ^ 16) × (r.extra < 2 ^ 16)

abbrev pub PairFits : NackPair → Type 0
PairFits f = (f.pid < 2 ^ 16) × (f.blp < 2 ^ 16)

-- Packets whose fields fit; an echo's padding is whole words, and bytes that are not understood are left out.
abbrev pub IsWire : Packet → Type 0
IsWire (sender_report p) =
    Is32 p.ssrc × (p.ntp < 2 ^ 64) × Is32 p.rtp_time × Is32 p.packet_count × Is32 p.octet_count
IsWire (empty_receiver_report ssrc) = Is32 ssrc
IsWire (receiver_report p) =
    Is32 p.sender_ssrc
    × Is32 p.media_ssrc
    × (p.fraction_lost < 2 ^ 8)
    × (p.cumulative_lost < 2 ^ 24)
    × Is32 p.highest_seq
    × Is32 p.jitter
    × Is32 p.lsr
    × Is32 p.dlsr
IsWire (link_quality_report ssrc lqm) = Is32 ssrc × (length lqm ≡ 44)
IsWire (sdes ssrc cname) = Is32 ssrc × (length cname ≤ 255)
IsWire (ext_seq ssrc seq_high) = Is32 ssrc × (seq_high < 2 ^ 16)
IsWire (range_nack p) = Is32 p.media_ssrc × (length p.ranges < 2 ^ 16 - 2) × All RangeFits p.ranges
IsWire (bitmask_nack p) =
    Is32 p.sender_ssrc × Is32 p.media_ssrc × (length p.fcis < 2 ^ 16 - 2) × All PairFits p.fcis
IsWire (echo_request ssrc ts padding) =
    Is32 ssrc × (ts < 2 ^ 64) × (length padding % 4 ≡ 0) × (length padding < 2 ^ 18 - 20)
IsWire (echo_response ssrc ts delay padding) =
    Is32 ssrc
    × (ts < 2 ^ 64)
    × Is32 delay
    × (length padding % 4 ≡ 0)
    × (length padding < 2 ^ 18 - 20)
IsWire (raw b) = ⊥

pub length-put_ranges : (rs : List NackRange) → length (put_ranges rs) ≡ length rs * 4
length-put_ranges [] = refl
length-put_ranges (r ∷ rs) = omega (arith, length-put_ranges rs)

read-put_ranges :
    (rs : List NackRange) → All RangeFits rs → read_ranges (length rs) (put_ranges rs) ≡ rs
read-put_ranges [] a = refl
read-put_ranges (r ∷ rs) ((ls, le), ls2) = λ i.
    record { start = get16-put16 r.start [] ls i; extra = get16-put16 r.extra [] le i }
    ∷ read-put_ranges rs ls2 i

pub length-put_pairs : (fs : List NackPair) → length (put_pairs fs) ≡ length fs * 4
length-put_pairs [] = refl
length-put_pairs (f ∷ fs) = omega (arith, length-put_pairs fs)

read-put_pairs : (fs : List NackPair) → All PairFits fs → read_pairs (length fs) (put_pairs fs) ≡ fs
read-put_pairs [] a = refl
read-put_pairs (f ∷ fs) ((lp, lb), ls) = λ i.
    record { pid = get16-put16 f.pid [] lp i; blp = get16-put16 f.blp [] lb i }
    ∷ read-put_pairs fs ls i

pub padded-whole : (padding : Bytes) → length padding % 4 ≡ 0 → padded padding ≡ padding
padded-whole padding e =
    let none : pad_to4 (length padding) - length padding ≡ 0 = omega arith in
    rw none (append-nil padding)

take-whole : (n : ℕ) (b : Bytes) → length b ≡ n → take n b ≡ b
take-whole n b e = ap (take n) (sym (append-nil b)) ∙ take-front n b [] e

pub take-short : (n : ℕ) (b : Bytes) → length b ≤ n → take n b ≡ b
take-short zero [] l = refl
take-short zero (x ∷ b) l = absurd (omega arith)
take-short (suc n) [] l = refl
take-short (suc n) (x ∷ b) l = ap (λ r. x ∷ r) (take-short n b (omega arith))

ltb-ge : (a b : ℕ) → b ≤ a → ltb a b ≡ false
ltb-ge a b l = ground arith

all_zero-replicate : (n : ℕ) → all_zero (replicate n 0) ≡ true
all_zero-replicate zero = refl
all_zero-replicate (suc n) = all_zero-replicate n

module _ (rest : Bytes) where
  kept-sender_report :
      (p : SenderReport)
      → IsWire (sender_report p)
      → parse (packet_bytes (sender_report p) ++ rest) ≡ ok (sender_report p, 28)
  unfolding packet_bytes decode_typed decode_sender_report
  kept-sender_report p (ls, ln, lt, lp, lo) =
      parse-frame-some 0 200 6 (drop 4 (packet_bytes (sender_report p))) rest (omega arith)
        (omega arith) refl (sender_report p)
        (λ i. some (
          sender_report (record {
            ssrc = get32-put32 p.ssrc [] ls i;
            ntp = get64-put64 p.ntp [] ln i;
            rtp_time = get32-put32 p.rtp_time [] lt i;
            packet_count = get32-put32 p.packet_count [] lp i;
            octet_count = get32-put32 p.octet_count [] lo i;
          })))

  kept-empty_receiver_report :
      (ssrc : ℕ)
      → Is32 ssrc
      → parse (packet_bytes (empty_receiver_report ssrc) ++ rest)
        ≡ ok (empty_receiver_report ssrc, 8)
  unfolding packet_bytes decode_typed decode_receiver_report
  kept-empty_receiver_report ssrc ls =
      parse-frame-some 0 201 1 (drop 4 (packet_bytes (empty_receiver_report ssrc))) rest
        (omega arith) (omega arith) refl (empty_receiver_report ssrc)
        (ap (λ s. some (empty_receiver_report s)) (get32-put32 ssrc [] ls))

  kept-receiver_report :
      (p : ReceiverReport)
      → IsWire (receiver_report p)
      → parse (packet_bytes (receiver_report p) ++ rest) ≡ ok (receiver_report p, 32)
  unfolding packet_bytes decode_typed decode_receiver_report
  kept-receiver_report p (ls, lm, lf, lc, lh, lj, ll, ld) =
      let lost : get32 (p.fraction_lost ∷ drop 1 (put32 (p.cumulative_lost % 2 ^ 24))) % 2 ^ 24
          ≡ p.cumulative_lost =
        omega arith in
      parse-frame-some 1 201 7 (drop 4 (packet_bytes (receiver_report p))) rest (omega arith)
        (omega arith) refl (receiver_report p)
        (λ i. some (
          receiver_report (record {
            sender_ssrc = get32-put32 p.sender_ssrc [] ls i;
            media_ssrc = get32-put32 p.media_ssrc [] lm i;
            fraction_lost = p.fraction_lost;
            cumulative_lost = lost i;
            highest_seq = get32-put32 p.highest_seq [] lh i;
            jitter = get32-put32 p.jitter [] lj i;
            lsr = get32-put32 p.lsr [] ll i;
            dlsr = get32-put32 p.dlsr [] ld i;
          })))

  kept-ext_seq :
      (ssrc seq_high : ℕ)
      → IsWire (ext_seq ssrc seq_high)
      → parse (packet_bytes (ext_seq ssrc seq_high) ++ rest) ≡ ok (ext_seq ssrc seq_high, 16)
  unfolding packet_bytes decode_typed decode_app decode_ext_seq
  kept-ext_seq ssrc seq_high (ls, lh) =
      parse-frame-some 1 204 3 (drop 4 (packet_bytes (ext_seq ssrc seq_high))) rest (omega arith)
        (omega arith) refl (ext_seq ssrc seq_high)
        (λ i. some (ext_seq (get32-put32 ssrc [] ls i) (get16-put16 seq_high [] lh i)))

  kept-link_quality_report :
      (ssrc : ℕ) (lqm : Bytes)
      → IsWire (link_quality_report ssrc lqm)
      → parse (packet_bytes (link_quality_report ssrc lqm) ++ rest)
        ≡ ok (link_quality_report ssrc lqm, 52)
  unfolding packet_bytes decode_typed decode_receiver_report
  kept-link_quality_report ssrc lqm (ls, ll) =
      let whole : take 44 (lqm) ≡ lqm = take-whole 44 lqm ll in
      parse-frame-some 0 201 12 (drop 4 (packet_bytes (link_quality_report ssrc lqm))) rest
        (omega arith) (omega arith) (omega (arith, ll)) (link_quality_report ssrc lqm)
        (λ i. some (link_quality_report (get32-put32 ssrc [] ls i) (whole i)))

  kept-range_nack :
      (p : RangeNack)
      → IsWire (range_nack p)
      → parse (packet_bytes (range_nack p) ++ rest) ≡ ok (range_nack p, marshal_size (range_nack p))
  unfolding packet_bytes marshal_size decode_typed decode_app decode_range_nack
  kept-range_nack p (lm, few, fit) =
      let words = (2 + length p.ranges) % 2 ^ 16 in
      let many = length-put_ranges p.ranges in
      let size : (words + 1) * 4 ≡ 12 + 4 * length p.ranges = omega arith in
      let b = packet_bytes (range_nack p) in
      let long : ltb (length b) 12 ≡ false = ground arith in
      let count : (length b - 12) / 4 ≡ length p.ranges = omega arith in
      parse-frame-some 0 204 words (drop 4 (packet_bytes (range_nack p))) rest (omega arith)
        (omega arith) (omega arith) (range_nack p)
        (rw (long, count)
          (λ i. some (
            range_nack (record {
              media_ssrc = get32-put32 p.media_ssrc [] lm i;
              ranges = read-put_ranges p.ranges fit i;
            }))))
      ∙ ap (λ n. ok (range_nack p, n)) size

  kept-bitmask_nack :
      (p : BitmaskNack)
      → IsWire (bitmask_nack p)
      → parse (packet_bytes (bitmask_nack p) ++ rest)
        ≡ ok (bitmask_nack p, marshal_size (bitmask_nack p))
  unfolding packet_bytes marshal_size decode_typed decode_bitmask_nack
  kept-bitmask_nack p (ls, lm, few, fit) =
      let words = (2 + length p.fcis) % 2 ^ 16 in
      let many = length-put_pairs p.fcis in
      let size : (words + 1) * 4 ≡ 12 + 4 * length p.fcis = omega arith in
      let long : ltb ((words + 1) * 4) 12 ≡ false = ground arith in
      let count : ((words + 1) * 4 - 12) / 4 ≡ length p.fcis = omega arith in
      parse-frame-some 1 205 words (drop 4 (packet_bytes (bitmask_nack p))) rest (omega arith)
        (omega arith) (omega arith) (bitmask_nack p)
        (rw (long, count)
          (λ i. some (
            bitmask_nack (record {
              sender_ssrc = get32-put32 p.sender_ssrc [] ls i;
              media_ssrc = get32-put32 p.media_ssrc [] lm i;
              fcis = read-put_pairs p.fcis fit i;
            }))))
      ∙ ap (λ n. ok (bitmask_nack p, n)) size

  kept-echo_request :
      (ssrc ts : ℕ) (padding : Bytes)
      → IsWire (echo_request ssrc ts padding)
      → parse (packet_bytes (echo_request ssrc ts padding) ++ rest)
        ≡ ok (echo_request ssrc ts padding, marshal_size (echo_request ssrc ts padding))
  unfolding packet_bytes marshal_size decode_typed decode_app decode_echo
  kept-echo_request ssrc ts padding (ls, lt, whole, few) =
      let words = (5 + pad_to4 (length padding) / 4) % 2 ^ 16 in
      let same = padded-whole padding whole in
      let size : (words + 1) * 4 ≡ 24 + pad_to4 (length padding) = omega arith in
      let sized : length (padded padding) ≡ pad_to4 (length padding) = rw same (omega arith) in
      let wide : ltb (length (packet_bytes (echo_request ssrc ts padding))) 12 ≡ false =
        ground arith in
      let long : ltb (length (packet_bytes (echo_request ssrc ts padding))) 24 ≡ false =
        ground arith in
      parse-frame-some 2 204 words (drop 4 (packet_bytes (echo_request ssrc ts padding))) rest
        (omega arith) (omega arith) (omega arith) (echo_request ssrc ts padding)
        (rw (wide, long, same)
          (λ i. some (echo_request (get32-put32 ssrc [] ls i) (get64-put64 ts [] lt i) padding)))
      ∙ ap (λ n. ok (echo_request ssrc ts padding, n)) size

  kept-echo_response :
      (ssrc ts delay : ℕ) (padding : Bytes)
      → IsWire (echo_response ssrc ts delay padding)
      → parse (packet_bytes (echo_response ssrc ts delay padding) ++ rest)
        ≡ ok (
          echo_response ssrc ts delay padding,
          marshal_size (echo_response ssrc ts delay padding),
        )
  unfolding packet_bytes marshal_size decode_typed decode_app decode_echo
  kept-echo_response ssrc ts delay padding (ls, lt, ld, whole, few) =
      let words = (5 + pad_to4 (length padding) / 4) % 2 ^ 16 in
      let same = padded-whole padding whole in
      let size : (words + 1) * 4 ≡ 24 + pad_to4 (length padding) = omega arith in
      let sized : length (padded padding) ≡ pad_to4 (length padding) = rw same (omega arith) in
      let wide : ltb (length (packet_bytes (echo_response ssrc ts delay padding))) 12 ≡ false =
        ground arith in
      let long : ltb (length (packet_bytes (echo_response ssrc ts delay padding))) 24 ≡ false =
        ground arith in
      parse-frame-some 3 204 words (drop 4 (packet_bytes (echo_response ssrc ts delay padding)))
        rest (omega arith) (omega arith) (omega arith) (echo_response ssrc ts delay padding)
        (rw (wide, long, same)
          (λ i. some (
            echo_response (get32-put32 ssrc [] ls i) (get64-put64 ts [] lt i)
              (get32-put32 delay [] ld i) padding)))
      ∙ ap (λ n. ok (echo_response ssrc ts delay padding, n)) size

  kept-sdes :
      (ssrc : ℕ) (cname : Bytes)
      → IsWire (sdes ssrc cname)
      → parse (packet_bytes (sdes ssrc cname) ++ rest)
        ≡ ok (sdes ssrc cname, marshal_size (sdes ssrc cname))
  unfolding packet_bytes marshal_size decode_typed decode_sdes
  kept-sdes ssrc cname (ls, few) =
      let n = length cname in
      let size = sdes_size n in
      let words = size / 4 - 1 in
      let zeros = replicate (size - 10 - n) 0 in
      let body = put32 ssrc ++ (1 ∷ n ∷ (cname ++ zeros)) in
      let name : sent_name cname ≡ cname = take-short 255 cname few in
      let long = length-append cname zeros in
      let filled = length-replicate (size - 10 - n) 0 in
      let whole : length body ≡ words * 4 = omega arith in
      let a : ltb ((words + 1) * 4) 11 ≡ false = ltb-ge ((words + 1) * 4) 11 (omega arith) in
      let b : ltb ((words + 1) * 4) (10 + n + 1) ≡ false =
        ltb-ge ((words + 1) * 4) (10 + n + 1) (omega arith) in
      let c : all_zero (drop n (cname ++ zeros)) ≡ true =
        ap all_zero (drop-front n cname zeros refl) ∙ all_zero-replicate (size - 10 - n) in
      let total : (words + 1) * 4 ≡ sdes_size (min n 255) = omega arith in
      let read : decode_typed (header_of 1 202 words) (frame 1 202 words body)
          ≡ some (sdes ssrc cname) =
        rw (a, b, c)
          (λ i. some (sdes (get32-put32 ssrc [] ls i) (take-front n cname zeros refl i))) in
      rw name (
        parse-frame-some 1 202 words body rest (omega arith) (omega arith) whole (sdes ssrc cname)
          read
        ∙ ap (λ k. ok (sdes ssrc cname, k)) total)

pub parse-packet_bytes :
    (p : Packet) (rest : Bytes) → IsWire p → parse (packet_bytes p ++ rest) ≡ ok (p, marshal_size p)
unfolding marshal_size
parse-packet_bytes (sender_report p) rest w = kept-sender_report rest p w
parse-packet_bytes (empty_receiver_report ssrc) rest w = kept-empty_receiver_report rest ssrc w
parse-packet_bytes (receiver_report p) rest w = kept-receiver_report rest p w
parse-packet_bytes (link_quality_report ssrc lqm) rest w = kept-link_quality_report rest ssrc lqm w
parse-packet_bytes (sdes ssrc cname) rest w = kept-sdes rest ssrc cname w
parse-packet_bytes (ext_seq ssrc seq_high) rest w = kept-ext_seq rest ssrc seq_high w
parse-packet_bytes (range_nack p) rest w = kept-range_nack rest p w
parse-packet_bytes (bitmask_nack p) rest w = kept-bitmask_nack rest p w
parse-packet_bytes (echo_request ssrc ts padding) rest w = kept-echo_request rest ssrc ts padding w
parse-packet_bytes (echo_response ssrc ts delay padding) rest w =
    kept-echo_response rest ssrc ts delay padding w
parse-packet_bytes (raw b) rest w = absurd w
