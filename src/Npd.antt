-- ===== src/Npd.antt =====
-- internal/npd/npd.go: null packet deletion and the header extension that carries its bitmap.
pub mod Marks
pub mod RoundTrip
mod Tests
use ristgo.Prelude.{
  ℕ, zero, suc, ◌+◌, ◌-◌, ◌*◌, ◌/◌, ◌%◌, ◌^◌, bit_and, Bool, true, false, not, ◌||◌,
}
use ristgo.Prelude.{◌++◌, List, [], ◌∷◌, length, take, drop, ltb, ◌==◌, if◌then◌else◌}
use ristgo.Prelude.Bytes.{Bytes, put16, byte, get16, bit_at, replicate}
use ristgo.Prelude.Results.{Result, ok, err}

pub data NpdError : Type 0 where
  short_ext bad_identifier bad_length payload_size too_many_packets sync_byte_missing truncated :
      NpdError

abbrev pub identifier : ℕ
identifier = 0x5249

abbrev pub max_packets : ℕ
max_packets = 7

abbrev pub size_ts188 : ℕ
size_ts188 = 188

abbrev pub size_ts204 : ℕ
size_ts204 = 204

abbrev pub sync_byte : ℕ
sync_byte = 0x47

abbrev pub null_pid : ℕ
null_pid = 0x1FFF

-- The flag of 204-byte packets in the bitmap's byte.
abbrev pub npd_size204 : ℕ
npd_size204 = 128

pub record Ext : Type 0 where
  pub npd : Bool
  pub size204 : Bool
  pub null_bitmap : ℕ
  pub seq_ext : ℕ

-- The flag is a bit that the masked bitmap leaves free, so setting it adds it.
unfoldable pub npd_bits : Bool → ℕ → ℕ
npd_bits size204 bitmap = bitmap % 2 ^ 7 + (if size204 then npd_size204 else 0)

unfoldable pub append_ext : Ext → Bytes → Bytes
unfolding npd_bits
append_ext e dst =
    dst
    ++ (put16 identifier
        ++ (put16 1
            ++ ((if e.npd then 128 else 0) ∷ npd_bits e.size204 e.null_bitmap ∷ put16 e.seq_ext)))

unfoldable pub parse_ext : Bytes → Result NpdError (Ext × ℕ)
parse_ext b =
    if ltb (length b) 8
    then err short_ext
    else if not (get16 b == identifier)
    then err bad_identifier
    else if not (get16 (drop 2 b) == 1)
    then err bad_length
    else ok (
      record {
        npd = bit_at (byte b 4) 7 == 1;
        size204 = bit_at (byte b 5) 7 == 1;
        null_bitmap = byte b 5 % 2 ^ 7;
        seq_ext = get16 (drop 6 b);
      },
      8,
    )

abbrev pub packet_size : ℕ → ℕ
packet_size bits = if bit_at bits 7 == 1 then size_ts204 else size_ts188

-- The PID field with the three flags above it, as the code compares it.
abbrev pub is_null : Bytes → Bool
is_null p = get16 (drop 1 p) == null_pid

-- The first loop of Suppress from packet `i`, of which `b` is the input's rest: the bitmap and the number of null
-- packets.
unfoldable pub mark_nulls :
    (count i size : ℕ) → Bytes → (bits suppressed : ℕ) → Result NpdError (ℕ × ℕ)
mark_nulls zero i size b bits suppressed = ok (bits, suppressed)
mark_nulls (suc count) i size b bits suppressed =
    let null = is_null b in
    let rest =
      mark_nulls count (i + 1) size (drop size b) (if null then bits + 2 ^ (6 - i) else bits)
        (if null then suppressed + 1 else suppressed) in
    if byte b 0 == sync_byte then rest else err sync_byte_missing

-- The second loop, which appends what is not null.
unfoldable pub keep_packets : (count i size bits : ℕ) → Bytes → Bytes → Bytes
keep_packets zero i size bits b out = out
keep_packets (suc count) i size bits b out =
    keep_packets count (i + 1) size bits (drop size b)
      (if bit_at bits (6 - i) == 0 then out ++ take size b else out)

-- What follows the first loop: nothing is copied where no packet is null.
abbrev pub keep_marked :
    (dst b : Bytes) (size : ℕ) → Result NpdError (ℕ × ℕ) → Result NpdError (Bytes × ℕ × ℕ)
keep_marked dst b size (err e) = err e
keep_marked dst b size (ok (bits, suppressed)) =
    if suppressed == 0
    then ok (dst ++ b, bits, 0)
    else ok (keep_packets (length b / size) 0 size bits b dst, bits, suppressed * size)

abbrev pub suppress_packets : (dst b : Bytes) (size bits : ℕ) → Result NpdError (Bytes × ℕ × ℕ)
suppress_packets dst b size bits =
    if ltb max_packets (length b / size)
    then err too_many_packets
    else keep_marked dst b size (mark_nulls (length b / size) 0 size b bits 0)

-- The output, the bitmap's byte and the number of bytes left out; an error leaves `dst` as it was.
unfoldable pub suppress : (dst b : Bytes) → Result NpdError (Bytes × ℕ × ℕ)
suppress dst b =
    if length b % size_ts188 == 0
    then suppress_packets dst b size_ts188 0
    else if length b % size_ts204 == 0
    then suppress_packets dst b size_ts204 npd_size204
    else err payload_size

-- What appendNullPacket appends.
unfoldable pub null_packet : ℕ → Bytes
null_packet size = sync_byte ∷ 0x1F ∷ 0xFF ∷ 16 ∷ replicate (size - 4) 0xFF

-- `b &= b - 1` until `b` is 0; each round clears one of at most seven bits.
unfoldable pub clear_bits : (fuel b : ℕ) → ℕ
clear_bits zero b = 0
clear_bits (suc fuel) b =
    let rest = clear_bits fuel (bit_and b (b - 1)) in if b == 0 then 0 else rest + 1

unfoldable pub bits_set : ℕ → ℕ
unfolding clear_bits
bits_set b = clear_bits 8 (b % 2 ^ 7)

unfoldable pub expand_packets : (count i size bits : ℕ) → (b out : Bytes) → Result NpdError Bytes
unfolding null_packet
expand_packets zero i size bits b out = ok out
expand_packets (suc count) i size bits b out =
    let copied = expand_packets count (i + 1) size bits (drop size b) (out ++ take size b) in
    let made = expand_packets count (i + 1) size bits b (out ++ null_packet size) in
    if bit_at bits (6 - i) == 0 then if ltb (length b) size then err truncated else copied else made

unfoldable pub expand : (dst b : Bytes) (bits : ℕ) → Result NpdError Bytes
unfolding bits_set expand_packets
expand dst b bits =
    let size = packet_size bits in
    let bitmap = bits % 2 ^ 7 in
    let null_count = bits_set bitmap in
    let total = length b / size + null_count in
    if null_count == 0
    then ok (dst ++ b)
    else if ltb max_packets total
    then err too_many_packets
    else expand_packets total 0 size bitmap b dst
