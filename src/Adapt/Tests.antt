-- ===== src/Adapt/Tests.antt =====
-- A message and a controller, and the theorems at them. Of the floats the bounds need nothing, so any will do.
use ristgo.Prelude.{◌+◌, ◌-◌, ◌*◌, ◌/◌, ◌≡◌, arith, [], ◌∷◌, ◌++◌, ltb, leb}
use ristgo.Prelude.Int.{pos, pos_part}
use ristgo.Prelude.Floats.{Floats}
use ristgo.Prelude.Results.{ok}
use ristgo.Adapt.{Lqm, append_lqm, parse_lqm, ControllerConfig, new_controller}
use ristgo.Adapt.Laws.{
  IsWire, parse-append_lqm, IsBounded, loss, lqm, told, told-new_controller-IsBounded,
}

abbrev lossy : Lqm
lossy = record {
  sequence_number = 1;
  reporting_period_ms = 1000;
  nack_window_ms = 500;
  source_received = 900;
  original_lost = 100;
  retransmitted_received = 95;
  recovered = 90;
  unrecovered = 10;
  late = 5;
  data_bandwidth_kbps = 4000;
  retransmission_bandwidth_kbps = 400;
}

lossy-IsWire : IsWire lossy
lossy-IsWire = record {
  sequence_number_fits = omega arith;
  reporting_period_fits = omega arith;
  nack_window_fits = omega arith;
  source_received_fits = omega arith;
  original_lost_fits = omega arith;
  retransmitted_fits = omega arith;
  recovered_fits = omega arith;
  unrecovered_fits = omega arith;
  late_fits = omega arith;
  data_bandwidth_fits = omega arith;
  retransmission_bandwidth_fits = omega arith;
}

parse-append_lqm_example : parse_lqm (append_lqm lossy [] ++ (7 ∷ [])) ≡ ok lossy
parse-append_lqm_example = parse-append_lqm lossy (7 ∷ []) lossy-IsWire

abbrev whole_numbers : Floats
whole_numbers = record {
  of_int = pos_part;
  trunc = pos;
  mul = λ a b. a * b;
  div = λ a b. a / b;
  add = λ a b. a + b;
  sub = λ a b. a - b;
  lt = ltb;
  le = leb;
}

abbrev modest : ControllerConfig
modest = record {
  min_kbps = pos 500;
  max_kbps = pos 9000;
  initial_kbps = pos 20000;
  target_loss = 0;
  increase_kbps = pos 90;
  decrease_gain = 8;
}

told-new_controller-IsBounded_example :
    IsBounded
      (new_controller modest).cfg
      (told whole_numbers (new_controller modest) (loss 1 ∷ lqm lossy ∷ []))
told-new_controller-IsBounded_example =
    told-new_controller-IsBounded whole_numbers modest (loss 1 ∷ lqm lossy ∷ [])
