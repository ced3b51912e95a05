-- ===== src/Rtcp/Compound/Tests.antt =====
-- A report, a name, a NACK and an echo, and the theorem at them.
use ristgo.Prelude.{◌≡◌, refl, arith, List, [], ◌∷◌, All}
use ristgo.Prelude.Results.{ok}
use ristgo.Rtcp.Packets.{Packet, empty_receiver_report, sdes, range_nack, echo_request}
use ristgo.Rtcp.Kept.{IsWire}
use ristgo.Rtcp.Compound.{
  check_compound_order, check_rest, append_all, build_compound, parse_compound,
}
use ristgo.Rtcp.Compound.RoundTrip.{parse_compound-build_compound}

abbrev feedback : List Packet
feedback =
    empty_receiver_report 5
    ∷ sdes 5 (97 ∷ 98 ∷ [])
    ∷ range_nack (record { media_ssrc = 6; ranges = record { start = 65535; extra = 2 } ∷ [] })
    ∷ echo_request 5 258 []
    ∷ []

built : build_compound [] feedback ≡ ok (append_all feedback [])
unfolding build_compound check_compound_order check_rest
built = refl

feedback-IsWire : All IsWire feedback
feedback-IsWire = (
  omega arith,
  (
    (omega arith, omega arith),
    (
      (omega arith, omega arith, ((omega arith, omega arith), tt)),
      ((omega arith, omega arith, refl, omega arith), tt),
    ),
  ),
)

parse_compound-build_compound_example : parse_compound (append_all feedback []) ≡ ok feedback
parse_compound-build_compound_example =
    parse_compound-build_compound feedback (append_all feedback []) feedback-IsWire built
