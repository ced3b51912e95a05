-- ===== src/Rtcp/Compound.antt =====
-- internal/rtcp/compound.go: compound packets.
pub mod RoundTrip
mod Tests
use ristgo.Prelude.{ℕ, zero, suc, ◌+◌, Bool, true, false, not, ◌&&◌, ◌||◌}
use ristgo.Prelude.{List, [], ◌∷◌, ◌++◌, length, drop, ltb, ◌==◌, if◌then◌else◌}
use ristgo.Prelude.Bytes.{Bytes}
use ristgo.Prelude.Results.{Result, ok, err}
use ristgo.Rtcp.Packets.{
  RtcpError, empty_compound, compound_order, SenderReport, ReceiverReport, Packet, sender_report,
  empty_receiver_report, receiver_report, link_quality_report, sdes, ext_seq, range_nack,
  bitmask_nack, echo_request, echo_response, raw, packet_bytes, append_to, marshal_size, parse,
}

-- What one parsed packet and the rest of the compound come to.
abbrev pub join_parsed : Packet → Result RtcpError (List Packet) → Result RtcpError (List Packet)
join_parsed p (err e) = err e
join_parsed p (ok ps) = ok (p ∷ ps)

abbrev pub step_parsed :
    Result RtcpError (Packet × ℕ)
    → (ℕ → Result RtcpError (List Packet))
    → Result RtcpError (List Packet)
step_parsed (err e) rest = err e
step_parsed (ok (p, n)) rest = join_parsed p (rest n)

abbrev pub is_empty : Bytes → Bool
is_empty [] = true
is_empty (x ∷ b) = false

-- The loop, on fuel: every packet takes at least four bytes, and the fuel is more than the bytes.
unfoldable pub parse_loop : ℕ → Bytes → Result RtcpError (List Packet)
unfolding parse
parse_loop zero b = ok []
parse_loop (suc fuel) b =
    let rest = λ (n : ℕ). parse_loop fuel (drop n b) in
    if is_empty b then ok [] else step_parsed (parse b) rest

unfoldable pub parse_compound : Bytes → Result RtcpError (List Packet)
unfolding parse_loop
parse_compound b = if length b == 0 then err empty_compound else parse_loop (suc (length b)) b

unfoldable pub compound_marshal_size : List Packet → ℕ
unfolding marshal_size
compound_marshal_size [] = 0
compound_marshal_size (p ∷ ps) = marshal_size p + compound_marshal_size ps

abbrev is_report : Packet → Bool
is_report (sender_report p) = true
is_report (empty_receiver_report s) = true
is_report (receiver_report p) = true
is_report (link_quality_report s m) = true
is_report p = false

abbrev is_sdes : Packet → Bool
is_sdes (sdes s c) = true
is_sdes p = false

abbrev is_nack : Packet → Bool
is_nack (range_nack p) = true
is_nack (bitmask_nack p) = true
is_nack p = false

abbrev is_echo : Packet → Bool
is_echo (echo_request s t p) = true
is_echo (echo_response s t d p) = true
is_echo p = false

abbrev is_raw : Packet → Bool
is_raw (raw b) = true
is_raw p = false

abbrev is_ext_seq : Packet → Bool
is_ext_seq (ext_seq s h) = true
is_ext_seq p = false

abbrev starts_with_nack : List Packet → Bool
starts_with_nack [] = false
starts_with_nack (p ∷ ps) = is_nack p

-- The packets after the first two; `echoed` once the class is that of the echoes.
unfoldable pub check_rest : (echoed : Bool) → List Packet → Bool
check_rest echoed [] = true
check_rest echoed (p ∷ ps) =
    let rest = check_rest (is_echo p) ps in
    let feedback = is_raw p || is_nack p || (is_ext_seq p && starts_with_nack ps) in
    (is_echo p || (feedback && not echoed)) && rest

unfoldable pub check_compound_order : List Packet → Bool
unfolding check_rest
check_compound_order (r ∷ s ∷ ps) = is_report r && is_sdes s && check_rest false ps
check_compound_order ps = false

abbrev pub append_all : List Packet → Bytes → Bytes
append_all [] buf = buf
append_all (p ∷ ps) buf = append_all ps (append_to p buf)

-- An error leaves `buf` as it was.
unfoldable pub build_compound : Bytes → List Packet → Result RtcpError Bytes
unfolding append_to check_compound_order
build_compound buf ps =
    if check_compound_order ps then ok (append_all ps buf) else err compound_order
