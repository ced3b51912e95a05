-- ===== src/Rtt/Tests.antt =====
-- Runs at concrete samples, and the theorems at them.
use ristgo.Prelude.{◌≡◌, refl, arith, [], ◌∷◌}
use ristgo.Prelude.Int.{pos, wrap64, ◌+ℤ◌, ◌-ℤ◌, ◌*ℤ◌, ◌≤ℤ◌, quot}
use ristgo.Rtt.{new, observe, smoothed, clamped, last_clamped, effective_rtt_min}
use ristgo.Rtt.Laws.{observe_all, Between, smoothed-observe_all, clamped_bounds}

first_sample : smoothed (observe (new (pos 5000)) (pos 13000)) ≡ pos 6000
unfolding new observe smoothed wrap64 ◌+ℤ◌ ◌-ℤ◌ ◌*ℤ◌ quot
first_sample = refl

smoothed-observe_all_example :
    Between 5000 13000 (smoothed (observe_all (new (pos 5000)) (pos 13000 ∷ pos 9000 ∷ [])))
smoothed-observe_all_example =
    smoothed-observe_all 5000 13000 (pos 5000) (pos 13000 ∷ pos 9000 ∷ []) (omega arith)
      (omega arith, omega arith) ((omega arith, omega arith), ((omega arith, omega arith), tt))

floor_below_maximum : effective_rtt_min (pos 1000) ≤ℤ pos 9000
unfolding effective_rtt_min
floor_below_maximum = omega arith

clamped_bounds_example :
    let e = observe (new (pos 5000)) (pos 13000) in
    (effective_rtt_min (pos 1000) ≤ℤ clamped e (pos 1000) (pos 9000))
    × (clamped e (pos 1000) (pos 9000) ≤ℤ pos 9000)
    × (effective_rtt_min (pos 1000) ≤ℤ last_clamped e (pos 1000) (pos 9000))
    × (last_clamped e (pos 1000) (pos 9000) ≤ℤ pos 9000)
    × (pos 3000 ≤ℤ clamped e (pos 1000) (pos 9000))
    × (pos 1000 ≤ℤ clamped e (pos 1000) (pos 9000))
clamped_bounds_example =
    clamped_bounds (observe (new (pos 5000)) (pos 13000)) (pos 1000) (pos 9000) floor_below_maximum
