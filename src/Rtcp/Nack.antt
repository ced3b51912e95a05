-- ===== src/Rtcp/Nack.antt =====
-- internal/rtcp/nack.go: range and bitmask NACKs between their records and the missing sequences.
mod Expanding
mod RoundTrip
mod Tests
use ristgo.Prelude.{
  ℕ, zero, suc, ◌+◌, ◌-◌, ◌*◌, ◌%◌, ◌^◌, Bool, true, false, not, ◌&&◌, bit_and, bit_or,
}
use ristgo.Prelude.{Option, none, some, List, [], ◌∷◌, ◌++◌, length, ltb, leb, ◌==◌, if◌then◌else◌}

abbrev pub max_nack_records_per_packet : ℕ
max_nack_records_per_packet = 16

abbrev pub max_nack_expand : ℕ
max_nack_expand = 2 ^ 16

-- Both fields are uint16.
pub record NackRange : Type 0 where
  pub start : ℕ
  pub extra : ℕ

pub record RangeNack : Type 0 where
  pub media_ssrc : ℕ
  pub ranges : List NackRange

-- `s + 1` on a uint16.
abbrev pub next16 : ℕ → ℕ
next16 s = (s + 1) % 2 ^ 16

-- What the loops of the expansion carry: the output, the count, and whether they have returned.
pub record Expansion : Type 0 where
  pub dst : List ℕ
  pub appended : ℕ
  pub full : Bool

-- The inner loop over `rounds` values of `i`.
unfoldable pub expand_range : ℕ → ℕ → Expansion → Expansion
expand_range zero s x = x
expand_range (suc rounds) s x =
    let x' : Expansion = record x { dst = x.dst ++ (s ∷ []); appended = x.appended + 1 } in
    let rest = expand_range rounds (next16 s) x' in
    if leb max_nack_expand x.appended then record x { full = true } else rest

unfoldable pub expand_ranges : List NackRange → Expansion → Expansion
unfolding expand_range
expand_ranges [] x = x
expand_ranges (r ∷ rs) x =
    let x' = expand_range (r.extra + 1) r.start x in
    let rest = expand_ranges rs x' in if x'.full then x' else rest

unfoldable pub append_missing_seqs : RangeNack → List ℕ → List ℕ
unfolding expand_ranges
append_missing_seqs p dst =
    (expand_ranges p.ranges (record { dst = dst; appended = 0; full = false })).dst

unfoldable pub missing_seqs : RangeNack → List ℕ
unfolding append_missing_seqs
missing_seqs p = append_missing_seqs p []

-- The state of the encoder's loop.
pub record Encoding : Type 0 where
  pub pkts : List RangeNack
  pub pending : List NackRange
  pub cur : NackRange
  pub newest : ℕ

unfoldable pub flush_range : ℕ → Encoding → Encoding
flush_range media_ssrc e =
    let rs = e.pending ++ (e.cur ∷ []) in
    if length rs == max_nack_records_per_packet
    then record e {
      pkts = e.pkts ++ (record { media_ssrc = media_ssrc; ranges = rs } ∷ []);
      pending = [];
    }
    else record e { pending = rs }

-- One round, for a sequence number cut to 16 bits.
unfoldable pub encode_one : ℕ → ℕ → Encoding → Encoding
unfolding flush_range
encode_one media_ssrc s e =
    if s == next16 e.newest && ltb e.cur.extra 0xFFFF
    then record e { cur = record (e.cur) { extra = e.cur.extra + 1 }; newest = s }
    else record (flush_range media_ssrc e) { cur = record { start = s; extra = 0 }; newest = s }

unfoldable pub encode_loop : ℕ → List ℕ → Encoding → Encoding
unfolding encode_one
encode_loop media_ssrc [] e = e
encode_loop media_ssrc (m ∷ ms) e = encode_loop media_ssrc ms (encode_one media_ssrc (m % 2 ^ 16) e)

abbrev last_packet : ℕ → List NackRange → List RangeNack
last_packet media_ssrc [] = []
last_packet media_ssrc (r ∷ rs) = record { media_ssrc = media_ssrc; ranges = r ∷ rs } ∷ []

unfoldable pub encode_range_nack : ℕ → ℕ → List ℕ → List RangeNack
unfolding encode_loop
encode_range_nack sender_ssrc media_ssrc [] = []
encode_range_nack sender_ssrc media_ssrc (m ∷ ms) =
    let first = m % 2 ^ 16 in
    let e = flush_range media_ssrc (
      encode_loop media_ssrc ms (record {
        pkts = [];
        pending = [];
        cur = record { start = first; extra = 0 };
        newest = first;
      })) in
    e.pkts ++ last_packet media_ssrc e.pending

-- Both fields are uint16.
pub record NackPair : Type 0 where
  pub pid : ℕ
  pub blp : ℕ

pub record BitmaskNack : Type 0 where
  pub sender_ssrc : ℕ
  pub media_ssrc : ℕ
  pub fcis : List NackPair

abbrev bit_set : NackPair → ℕ → Bool
bit_set n i = not (bit_and n.blp (2 ^ i) == 0)

abbrev pub follower : NackPair → ℕ → ℕ
follower n i = (n.pid + i + 1) % 2 ^ 16

-- The loop over the bits from `i` on, `rounds` of them.
unfoldable pub append_bits : ℕ → ℕ → NackPair → List ℕ → List ℕ
append_bits zero i n dst = dst
append_bits (suc rounds) i n dst =
    append_bits rounds (i + 1) n (if bit_set n i then dst ++ (follower n i ∷ []) else dst)

unfoldable pub append_seqs : NackPair → List ℕ → List ℕ
unfolding append_bits
append_seqs n dst = append_bits 16 0 n (dst ++ (n.pid ∷ []))

-- The capped loops of the bitmask form: the output, and whether they have returned.
unfoldable pub expand_bits : ℕ → ℕ → NackPair → List ℕ → List ℕ × Bool
expand_bits zero i n dst = (dst, false)
expand_bits (suc rounds) i n dst =
    let out = if bit_set n i then dst ++ (follower n i ∷ []) else dst in
    let rest = expand_bits rounds (i + 1) n out in
    if bit_set n i && leb max_nack_expand (length dst) then (dst, true) else rest

unfoldable pub append_missing_bitmask : List NackPair → List ℕ → List ℕ
unfolding expand_bits
append_missing_bitmask [] dst = dst
append_missing_bitmask (n ∷ ns) dst =
    let (dst', full) = expand_bits 16 0 n (dst ++ (n.pid ∷ [])) in
    let rest = append_missing_bitmask ns dst' in
    if leb max_nack_expand (length dst) then dst else if full then dst' else rest

-- The walk over the later sequences, with the pairs done and the open one.
unfoldable pub nack_pairs_loop : List ℕ → List NackPair → NackPair → List NackPair
nack_pairs_loop [] pairs cur = pairs ++ (cur ∷ [])
nack_pairs_loop (m ∷ ms) pairs cur =
    let s = m % 2 ^ 16 in
    let d = (s + 2 ^ 16 - cur.pid) % 2 ^ 16 in
    let joins = leb 1 d && leb d 16 in
    let joined : NackPair = record cur { blp = bit_or cur.blp (2 ^ (d - 1)) } in
    let opened : NackPair = record { pid = s; blp = 0 } in
    nack_pairs_loop ms (if joins then pairs else pairs ++ (cur ∷ []))
      (if joins then joined else opened)

unfoldable pub nack_pairs_from_sequence_numbers : List ℕ → List NackPair
unfolding nack_pairs_loop
nack_pairs_from_sequence_numbers [] = []
nack_pairs_from_sequence_numbers (m ∷ ms) =
    nack_pairs_loop ms [] (record { pid = m % 2 ^ 16; blp = 0 })

-- The packets before the last, and the last one's records; none before the first pair.
unfoldable pub pack_pairs : ℕ → ℕ → List NackPair → List NackPair → List BitmaskNack
pack_pairs sender media [] fcis =
    if length fcis == 0
    then []
    else record { sender_ssrc = sender; media_ssrc = media; fcis = fcis } ∷ []
pack_pairs sender media (n ∷ ns) fcis =
    let full = length fcis == max_nack_records_per_packet in
    let rest = pack_pairs sender media ns ((if full then [] else fcis) ++ (n ∷ [])) in
    if full then record { sender_ssrc = sender; media_ssrc = media; fcis = fcis } ∷ rest else rest

unfoldable pub encode_bitmask_nack : ℕ → ℕ → List ℕ → List BitmaskNack
unfolding pack_pairs
encode_bitmask_nack sender media missing =
    pack_pairs sender media (nack_pairs_from_sequence_numbers missing) []

-- A packet, as far as `DecodeNACK` tells them apart.
pub data Packet : Type 0 where
  range : RangeNack → Packet
  bitmask : BitmaskNack → Packet
  other : Packet

unfoldable pub decode_nack : Packet → Option (List ℕ)
unfolding missing_seqs append_missing_bitmask
decode_nack (range p) = some (missing_seqs p)
decode_nack (bitmask p) = some (append_missing_bitmask p.fcis [])
decode_nack other = none
