-- ===== src/Adapt.antt =====
-- internal/adapt: the link quality message and the loss-driven bit rate.
pub mod Laws
mod Tests
use ristgo.Prelude.{ℕ, ◌+◌, ◌%◌, ◌^◌, Bool, true, false, ◌&&◌}
use ristgo.Prelude.{List, [], ◌∷◌, ◌++◌, length, drop, ltb, leb, ◌==◌, if◌then◌else◌}
use ristgo.Prelude.Bytes.{Bytes, put32, get32}
use ristgo.Prelude.Int.{ℤ, pos, ltb_ℤ, add64}
use ristgo.Prelude.Floats.{Floats}
use ristgo.Prelude.Results.{Result, ok, err}

pub data LqmError : Type 0 where
  short_lqm : LqmError

pub record Lqm : Type 0 where
  pub sequence_number : ℕ
  pub reporting_period_ms : ℕ
  pub nack_window_ms : ℕ
  pub source_received : ℕ
  pub original_lost : ℕ
  pub retransmitted_received : ℕ
  pub recovered : ℕ
  pub unrecovered : ℕ
  pub late : ℕ
  pub data_bandwidth_kbps : ℕ
  pub retransmission_bandwidth_kbps : ℕ

abbrev pub lqm_size : ℕ
lqm_size = 44

unfoldable pub append_lqm : Lqm → Bytes → Bytes
append_lqm m dst =
    dst
    ++ (put32 m.sequence_number
        ++ (put32 m.reporting_period_ms
            ++ (put32 m.nack_window_ms
                ++ (put32 m.source_received
                    ++ (put32 m.original_lost
                        ++ (put32 m.retransmitted_received
                            ++ (put32 m.recovered
                                ++ (put32 m.unrecovered
                                    ++ (put32 m.late
                                        ++ (put32 m.data_bandwidth_kbps
                                            ++ put32 m.retransmission_bandwidth_kbps))))))))))

unfoldable pub parse_lqm : Bytes → Result LqmError Lqm
parse_lqm b =
    if ltb (length b) lqm_size
    then err short_lqm
    else ok (record {
      sequence_number = get32 b;
      reporting_period_ms = get32 (drop 4 b);
      nack_window_ms = get32 (drop 8 b);
      source_received = get32 (drop 12 b);
      original_lost = get32 (drop 16 b);
      retransmitted_received = get32 (drop 20 b);
      recovered = get32 (drop 24 b);
      unrecovered = get32 (drop 28 b);
      late = get32 (drop 32 b);
      data_bandwidth_kbps = get32 (drop 36 b);
      retransmission_bandwidth_kbps = get32 (drop 40 b);
    })

pub record ControllerConfig : Type 0 where
  pub min_kbps : ℤ
  pub max_kbps : ℤ
  pub initial_kbps : ℤ
  pub target_loss : ℕ
  pub increase_kbps : ℤ
  pub decrease_gain : ℕ

pub record Controller : Type 0 where
  pub cfg : ControllerConfig
  pub current : ℤ

unfoldable pub clamp_kbps : (v lo hi : ℤ) → ℤ
clamp_kbps v lo hi = if ltb_ℤ v lo then lo else if ltb_ℤ hi v then hi else v

abbrev pub at_least : ℤ → ℤ → ℤ
at_least lo v = if ltb_ℤ v lo then lo else v

unfoldable pub new_controller : ControllerConfig → Controller
unfolding clamp_kbps
new_controller cfg =
    let low = at_least (pos 0) cfg.min_kbps in
    let high = at_least low cfg.max_kbps in
    record {
      cfg = record cfg {
        min_kbps = low;
        max_kbps = high;
        increase_kbps = at_least (pos 0) cfg.increase_kbps;
      };
      current = clamp_kbps cfg.initial_kbps low high;
    }

module _ (fl : Floats) where
  abbrev pub zero_float : ℕ
  zero_float = fl.of_int (pos 0)

  abbrev pub one_float : ℕ
  one_float = fl.of_int (pos 1)

  -- 0.90, which is the float64 nearest to nine tenths.
  abbrev pub max_cut : ℕ
  max_cut = fl.div (fl.of_int (pos 9)) (fl.of_int (pos 10))

  abbrev pub clamped : Controller → ℤ → Controller
  clamped c v = record c { current = clamp_kbps v c.cfg.min_kbps c.cfg.max_kbps }

  unfoldable pub decreased : Controller → ℕ → Controller
  unfolding clamp_kbps
  decreased c cut = clamped c (fl.trunc (fl.mul (fl.of_int c.current) (fl.sub one_float cut)))

  unfoldable pub increased : Controller → Controller
  unfolding clamp_kbps
  increased c = clamped c (add64 c.current c.cfg.increase_kbps)

  abbrev pub capped : ℕ → ℕ
  capped cut = if fl.lt max_cut cut then max_cut else cut

  -- The method returns the target, which is the new `current`.
  unfoldable pub observe : Controller → ℕ → Controller
  unfolding increased decreased
  observe c loss_fraction =
      let loss = if fl.lt loss_fraction zero_float then zero_float else loss_fraction in
      if fl.le loss c.cfg.target_loss
      then increased c
      else decreased c (capped (fl.mul c.cfg.decrease_gain (fl.sub loss c.cfg.target_loss)))

  unfoldable pub loss_fraction : Lqm → ℕ
  loss_fraction m =
      let denom = m.source_received + m.original_lost in
      if denom == 0
      then zero_float
      else fl.div (fl.of_int (pos m.original_lost)) (fl.of_int (pos denom))

  unfoldable pub residual_loss_fraction : Lqm → ℕ
  residual_loss_fraction m =
      let denom = m.source_received + m.original_lost in
      if denom == 0
      then zero_float
      else fl.div (fl.of_int (pos m.unrecovered)) (fl.of_int (pos denom))

  abbrev pub floored : ℕ → ℕ
  floored cut = if fl.lt cut zero_float then zero_float else cut

  unfoldable pub observe_lqm : Controller → Lqm → Controller
  unfolding increased decreased loss_fraction residual_loss_fraction
  observe_lqm c m =
      let lost = loss_fraction m in
      let residual = residual_loss_fraction m in
      let over = fl.sub lost c.cfg.target_loss in
      let severity = if fl.lt residual over then over else residual in
      if m.source_received == 0 && m.original_lost == 0 && m.unrecovered == 0
      then c
      else if m.unrecovered == 0 && fl.le lost c.cfg.target_loss
      then increased c
      else decreased c (floored (capped (fl.mul c.cfg.decrease_gain severity)))
