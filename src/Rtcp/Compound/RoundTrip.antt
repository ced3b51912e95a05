-- ===== src/Rtcp/Compound/RoundTrip.antt =====
-- RTCP compounds of compound.go built and parsed again.
use ristgo.Prelude.{
  ℕ, zero, suc, ◌-◌, ◌<◌, ◌≡◌, refl, sym, ◌∙◌, arith, true, false, Bool-cases, inl, inr,
}
use ristgo.Prelude.{List, [], ◌∷◌, ◌++◌, length, drop-front, length-append, All, ◌==◌}
use mathlib.Core.List.{append-nil, append_assoc}
use mathlib.Core.Path.{subst}
use ristgo.Prelude.Bytes.{Bytes, length-replicate, replicate}
use ristgo.Prelude.Results.{ok}
use ristgo.Rtcp.Packets.{
  Packet, sender_report, empty_receiver_report, receiver_report, link_quality_report, sdes, ext_seq,
  range_nack, bitmask_nack, echo_request, echo_response, raw, packet_bytes, append_to, marshal_size,
  sdes_size,
}
use ristgo.Rtcp.Kept.{
  IsWire, parse-packet_bytes, length-put_ranges, length-put_pairs, take-short, padded-whole,
}
use ristgo.Rtcp.Compound.{
  is_empty, parse_loop, parse_compound, check_compound_order, append_all, build_compound,
}

length-packet_bytes : (p : Packet) → IsWire p → length (packet_bytes p) ≡ marshal_size p
unfolding packet_bytes marshal_size
length-packet_bytes (sender_report p) w = refl
length-packet_bytes (empty_receiver_report ssrc) w = refl
length-packet_bytes (receiver_report p) w = refl
length-packet_bytes (link_quality_report ssrc lqm) (ls, ll) = omega arith
length-packet_bytes (sdes ssrc cname) (ls, few) =
    let n = length cname in
    let k = sdes_size n - 10 - n in
    let name = take-short 255 cname few in
    rw name (omega (arith, length-append cname (replicate k 0), length-replicate k 0))
length-packet_bytes (ext_seq ssrc seq_high) w = refl
length-packet_bytes (range_nack p) w = omega (arith, length-put_ranges p.ranges)
length-packet_bytes (bitmask_nack p) w = omega (arith, length-put_pairs p.fcis)
length-packet_bytes (echo_request ssrc ts padding) (ls, lt, whole, few) =
    let same = padded-whole padding whole in rw same (omega arith)
length-packet_bytes (echo_response ssrc ts delay padding) (ls, lt, ld, whole, few) =
    let same = padded-whole padding whole in rw same (omega arith)
length-packet_bytes (raw b) w = absurd w

marshal_size-pos : (p : Packet) → IsWire p → 0 < marshal_size p
unfolding marshal_size
marshal_size-pos (sender_report p) w = omega arith
marshal_size-pos (empty_receiver_report ssrc) w = omega arith
marshal_size-pos (receiver_report p) w = omega arith
marshal_size-pos (link_quality_report ssrc lqm) w = omega arith
marshal_size-pos (sdes ssrc cname) w = omega arith
marshal_size-pos (ext_seq ssrc seq_high) w = omega arith
marshal_size-pos (range_nack p) w = omega arith
marshal_size-pos (bitmask_nack p) w = omega arith
marshal_size-pos (echo_request ssrc ts padding) w = omega arith
marshal_size-pos (echo_response ssrc ts delay padding) w = omega arith
marshal_size-pos (raw b) w = absurd w

-- The packets' bytes one after another.
chain : List Packet → Bytes
chain [] = []
chain (p ∷ ps) = packet_bytes p ++ chain ps

append_all-chain : (ps : List Packet) (buf : Bytes) → append_all ps buf ≡ buf ++ chain ps
unfolding chain append_to
append_all-chain [] buf = sym (append-nil buf)
append_all-chain (p ∷ ps) buf =
    append_all-chain ps (buf ++ packet_bytes p) ∙ append_assoc buf (packet_bytes p) (chain ps)

is_empty-long : (b : Bytes) → 0 < length b → is_empty b ≡ false
is_empty-long [] l = absurd (omega arith)
is_empty-long (x ∷ b) l = refl

parse_loop-chain :
    (fuel : ℕ) (ps : List Packet)
    → length (chain ps) < fuel
    → All IsWire ps
    → parse_loop fuel (chain ps) ≡ ok ps
unfolding parse_loop chain
parse_loop-chain zero ps l w = absurd (omega arith)
parse_loop-chain (suc fuel) [] l w = refl
parse_loop-chain (suc fuel) (p ∷ ps) l (w, ws) =
    let size = length-packet_bytes p w in
    let some = marshal_size-pos p w in
    let whole = length-append (packet_bytes p) (chain ps) in
    let full = is_empty-long (packet_bytes p ++ chain ps) (omega arith) in
    let next = drop-front (marshal_size p) (packet_bytes p) (chain ps) size in
    let ih = parse_loop-chain fuel ps (omega arith) ws in
    rw (full, parse-packet_bytes p (chain ps) w, next, ih) refl

chain-some :
    (ps : List Packet) → All IsWire ps → check_compound_order ps ≡ true → 0 < length (chain ps)
unfolding chain check_compound_order
chain-some [] w e = cc
chain-some (p ∷ ps) (w, ws) e =
    let size = length-packet_bytes p w in
    let some = marshal_size-pos p w in omega (arith, length-append (packet_bytes p) (chain ps))

-- A compound that is built of packets of the known kinds whose fields fit, with the padding of
-- echoes in whole words, is parsed into the same packets in the same order.
pub parse_compound-build_compound :
    (ps : List Packet) (bytes : Bytes)
    → All IsWire ps
    → build_compound [] ps ≡ ok bytes
    → parse_compound bytes ≡ ok ps
unfolding parse_compound build_compound
parse_compound-build_compound ps bytes w e = elim (Bool-cases (check_compound_order ps)) [
  | inl ordered ↦
      let f = rw ordered at e in
      let same : chain ps ≡ bytes = let g = append_all-chain ps [] in cc in
      let some : (length (chain ps) == 0) ≡ false =
        let g = chain-some ps w ordered in ground arith in
      subst (λ (b : Bytes). parse_compound b ≡ ok ps) same
        (rw some (parse_loop-chain (suc (length (chain ps))) ps (omega arith) w))
  | inr other ↦ let f = rw other at e in cc
]
