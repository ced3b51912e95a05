-- ===== src/Adapt/Laws.antt =====
-- Messages read back, and the controller's target kept between its bounds.
use ristgo.Prelude.{ℕ, ◌^◌, ◌<◌, ◌≡◌, refl, arith, Bool, true, false}
use ristgo.Prelude.{List, [], ◌∷◌, ◌++◌, length, ltb, if◌then◌else◌}
use mathlib.Core.Path.{subst, sym}
use ristgo.Prelude.Bytes.{Bytes, get32-put32}
use ristgo.Prelude.Int.{ℤ, pos, add64, ◌≤ℤ◌}
use ristgo.Prelude.Floats.{Floats}
use ristgo.Prelude.Results.{ok}
use ristgo.Adapt.{
  Lqm, append_lqm, parse_lqm, ControllerConfig, Controller, clamp_kbps, new_controller, at_least,
  increased, decreased, one_float, observe, observe_lqm,
}

-- Every count fits its field.
pub record IsWire (m : Lqm) : Type 0 where
  pub sequence_number_fits : m.sequence_number < 2 ^ 32
  pub reporting_period_fits : m.reporting_period_ms < 2 ^ 32
  pub nack_window_fits : m.nack_window_ms < 2 ^ 32
  pub source_received_fits : m.source_received < 2 ^ 32
  pub original_lost_fits : m.original_lost < 2 ^ 32
  pub retransmitted_fits : m.retransmitted_received < 2 ^ 32
  pub recovered_fits : m.recovered < 2 ^ 32
  pub unrecovered_fits : m.unrecovered < 2 ^ 32
  pub late_fits : m.late < 2 ^ 32
  pub data_bandwidth_fits : m.data_bandwidth_kbps < 2 ^ 32
  pub retransmission_bandwidth_fits : m.retransmission_bandwidth_kbps < 2 ^ 32

-- A message of counts that fit their fields is read back from what is written, whatever follows it.
pub parse-append_lqm :
    (m : Lqm) (rest : Bytes) → IsWire m → parse_lqm (append_lqm m [] ++ rest) ≡ ok m
unfolding parse_lqm append_lqm
parse-append_lqm m rest w =
    let long : ltb (length (append_lqm m [] ++ rest)) 44 ≡ false = ground arith in
    rw long (λ i. ok (record {
      sequence_number = get32-put32 m.sequence_number [] w.sequence_number_fits i;
      reporting_period_ms = get32-put32 m.reporting_period_ms [] w.reporting_period_fits i;
      nack_window_ms = get32-put32 m.nack_window_ms [] w.nack_window_fits i;
      source_received = get32-put32 m.source_received [] w.source_received_fits i;
      original_lost = get32-put32 m.original_lost [] w.original_lost_fits i;
      retransmitted_received = get32-put32 m.retransmitted_received [] w.retransmitted_fits i;
      recovered = get32-put32 m.recovered [] w.recovered_fits i;
      unrecovered = get32-put32 m.unrecovered [] w.unrecovered_fits i;
      late = get32-put32 m.late [] w.late_fits i;
      data_bandwidth_kbps = get32-put32 m.data_bandwidth_kbps [] w.data_bandwidth_fits i;
      retransmission_bandwidth_kbps =
          get32-put32 m.retransmission_bandwidth_kbps [] w.retransmission_bandwidth_fits i;
    }))

-- The target is within the bounds of the configuration, which stays as it was.
pub record IsBounded (k : ControllerConfig) (c : Controller) : Type 0 where
  pub kept : c.cfg ≡ k
  pub above : c.cfg.min_kbps ≤ℤ c.current
  pub below : c.current ≤ℤ c.cfg.max_kbps

clamp_kbps-between :
    (v lo hi : ℤ) → lo ≤ℤ hi → (lo ≤ℤ clamp_kbps v lo hi) × (clamp_kbps v lo hi ≤ℤ hi)
unfolding clamp_kbps
clamp_kbps-between v lo hi l = (ground arith, ground arith)

at_least-le : (lo v : ℤ) → lo ≤ℤ at_least lo v
at_least-le lo v = ground arith

new_controller-IsBounded :
    (cfg : ControllerConfig) → IsBounded (new_controller cfg).cfg (new_controller cfg)
unfolding new_controller
new_controller-IsBounded cfg =
    let low = at_least (pos 0) cfg.min_kbps in
    let high = at_least low cfg.max_kbps in
    let between = clamp_kbps-between cfg.initial_kbps low high (at_least-le low cfg.max_kbps) in
    record { kept = refl; above = between.0; below = between.1 }

new_controller-ordered :
    (cfg : ControllerConfig)
    → (new_controller cfg).cfg.min_kbps ≤ℤ (new_controller cfg).cfg.max_kbps
unfolding new_controller
new_controller-ordered cfg = at_least-le (at_least (pos 0) cfg.min_kbps) cfg.max_kbps

clamped-IsBounded :
    (k : ControllerConfig) (c : Controller) (v : ℤ)
    → IsBounded k c
    → k.min_kbps ≤ℤ k.max_kbps
    → IsBounded k (record c { current = clamp_kbps v c.cfg.min_kbps c.cfg.max_kbps })
clamped-IsBounded k c v b ordered =
    let between =
      clamp_kbps-between v c.cfg.min_kbps c.cfg.max_kbps
        (subst (λ (g : ControllerConfig). g.min_kbps ≤ℤ g.max_kbps) (sym b.kept) ordered) in
    record { kept = b.kept; above = between.0; below = between.1 }

if-IsBounded :
    (k : ControllerConfig) (t : Bool) (x y : Controller)
    → IsBounded k x
    → IsBounded k y
    → IsBounded k (if t then x else y)
if-IsBounded k true x y bx by = bx
if-IsBounded k false x y bx by = by

-- What a controller is told.
pub data Report : Type 0 where
  loss : ℕ → Report
  lqm : Lqm → Report

module _ (fl : Floats) where
  unfoldable pub tell : Controller → Report → Controller
  unfolding observe observe_lqm
  tell c (loss x) = observe fl c x
  tell c (lqm m) = observe_lqm fl c m

  unfoldable pub told : Controller → List Report → Controller
  unfolding tell
  told c [] = c
  told c (r ∷ rs) = told (tell c r) rs

  increased-IsBounded :
      (k : ControllerConfig) (c : Controller)
      → k.min_kbps ≤ℤ k.max_kbps
      → IsBounded k c
      → IsBounded k (increased fl c)
  unfolding increased
  increased-IsBounded k c o b = clamped-IsBounded k c (add64 c.current c.cfg.increase_kbps) b o

  decreased-IsBounded :
      (k : ControllerConfig) (c : Controller) (cut : ℕ)
      → k.min_kbps ≤ℤ k.max_kbps
      → IsBounded k c
      → IsBounded k (decreased fl c cut)
  unfolding decreased
  decreased-IsBounded k c cut o b =
      clamped-IsBounded k c (fl.trunc (fl.mul (fl.of_int c.current) (fl.sub (one_float fl) cut))) b
        o

  tell-IsBounded :
      (k : ControllerConfig) (c : Controller) (r : Report)
      → k.min_kbps ≤ℤ k.max_kbps
      → IsBounded k c
      → IsBounded k (tell c r)
  unfolding tell observe observe_lqm
  tell-IsBounded k c (loss x) o b =
      if-IsBounded k _ _ _ (increased-IsBounded k c o b) (decreased-IsBounded k c _ o b)
  tell-IsBounded k c (lqm m) o b =
      if-IsBounded k _ _ _ b
        (if-IsBounded k _ _ _ (increased-IsBounded k c o b) (decreased-IsBounded k c _ o b))

  told-IsBounded :
      (k : ControllerConfig) (c : Controller) (rs : List Report)
      → k.min_kbps ≤ℤ k.max_kbps
      → IsBounded k c
      → IsBounded k (told c rs)
  unfolding told
  told-IsBounded k c [] o b = b
  told-IsBounded k c (r ∷ rs) o b = told-IsBounded k (tell c r) rs o (tell-IsBounded k c r o b)

-- Whatever losses and messages a new controller is told, its configuration stays and its target
-- stays between the bounds in it, whatever the floats and the sums of the target come to.
pub told-new_controller-IsBounded :
    (fl : Floats) (cfg : ControllerConfig) (rs : List Report)
    → IsBounded (new_controller cfg).cfg (told fl (new_controller cfg) rs)
told-new_controller-IsBounded fl cfg rs =
    told-IsBounded fl (new_controller cfg).cfg (new_controller cfg) rs (new_controller-ordered cfg)
      (new_controller-IsBounded cfg)
