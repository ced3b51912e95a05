-- ===== src/Rtt/Laws.antt =====
-- The estimator stays within the range of its samples, and every read is clamped.
use ristgo.Prelude.{ℕ, ◌*◌, ◌/◌, ◌^◌, ◌≤◌, ◌<◌, arith, List, [], ◌∷◌, All}
use ristgo.Prelude.Int.{add64, sub64, add64_parts, sub64_parts}
use ristgo.Prelude.Int.{ℤ, pos, negsuc, ◌≤ℤ◌, ◌*ℤ◌, quot, wrap64}
use ristgo.Clock.{Microseconds}
use ristgo.Rtt.{Estimator, new, observe, smoothed, clamped, last_clamped}
use ristgo.Rtt.{effective_rtt_min}
use mathlib.Core.List.{foldl}

-- The estimator after samples, oldest first.
abbrev pub observe_all : Estimator → List Microseconds → Estimator
observe_all = foldl observe

abbrev pub Between : ℕ → ℕ → Microseconds → Type 0
Between lo hi s = (pos lo ≤ℤ s) × (s ≤ℤ pos hi)

-- What a history of samples between `lo` and `hi` keeps true of the state.
pub record InRange (lo hi : ℕ) (e : Estimator) : Type 0 where
  pub above : pos (8 * lo) ≤ℤ e.eight_times_rtt
  pub below : e.eight_times_rtt ≤ℤ pos (8 * hi)

-- One round of the average on an eight-fold value within range.
average_range :
    (lo hi : ℕ) (x : ℤ) (s : ℕ)
    → hi < 2 ^ 59
    → lo ≤ s
    → s ≤ hi
    → pos (8 * lo) ≤ℤ x
    → x ≤ℤ pos (8 * hi)
    → let y = add64 (sub64 x (quot x 8)) (pos s) in (pos (8 * lo) ≤ℤ y) × (y ≤ℤ pos (8 * hi))
unfolding quot
average_range lo hi (pos n) s h l u a b =
    omega
      (arith, sub64_parts (pos n) (pos (n / 8)), add64_parts (sub64 (pos n) (pos (n / 8))) (pos s))
average_range lo hi (negsuc n) s h l u a b = omega (
  arith,
  sub64_parts (negsuc n) (quot (negsuc n) 8),
  add64_parts (sub64 (negsuc n) (quot (negsuc n) 8)) (pos s),
)

pub observe-InRange :
    (lo hi : ℕ) (e : Estimator) (s : Microseconds)
    → hi < 2 ^ 59
    → Between lo hi s
    → InRange lo hi e
    → InRange lo hi (observe e s)
unfolding observe
observe-InRange lo hi e (pos s) h b v = ground (arith, average_range lo hi e.eight_times_rtt s)
observe-InRange lo hi e (negsuc s) h b v = absurd (omega arith)

pub new-InRange :
    (lo hi : ℕ) (m : Microseconds) → hi < 2 ^ 59 → Between lo hi m → InRange lo hi (new m)
unfolding new wrap64 ◌*ℤ◌
new-InRange lo hi (pos m) h b = ground arith
new-InRange lo hi (negsuc m) h b = absurd (omega arith)

pub observe_all-InRange :
    (lo hi : ℕ) (e : Estimator) (ss : List Microseconds)
    → hi < 2 ^ 59
    → All (Between lo hi) ss
    → InRange lo hi e
    → InRange lo hi (observe_all e ss)
observe_all-InRange lo hi e [] h b v = v
observe_all-InRange lo hi e (s ∷ ss) h b v =
    observe_all-InRange lo hi (observe e s) ss h b.1 (observe-InRange lo hi e s h b.0 v)

quot_eight : (lo hi : ℕ) (x : ℤ) → pos (8 * lo) ≤ℤ x → x ≤ℤ pos (8 * hi) → Between lo hi (quot x 8)
unfolding quot
quot_eight lo hi (pos n) a b = omega arith
quot_eight lo hi (negsuc n) a b = ground arith

-- An estimator made with a minimum between `lo` and `hi` and fed samples between `lo` and `hi`,
-- for `hi` below 2^59, has its smoothed value between `lo` and `hi`.
pub smoothed-observe_all :
    (lo hi : ℕ) (m : Microseconds) (ss : List Microseconds)
    → hi < 2 ^ 59
    → Between lo hi m
    → All (Between lo hi) ss
    → Between lo hi (smoothed (observe_all (new m) ss))
unfolding smoothed quot
smoothed-observe_all lo hi m ss h bm bs =
    let v = observe_all-InRange lo hi (new m) ss h bs (new-InRange lo hi m h bm) in
    quot_eight lo hi (observe_all (new m) ss).eight_times_rtt v.above v.below

-- If the floored minimum is not above the maximum, both clamped reads lie between them, and the
-- smoothed one is below neither the 3 ms floor nor the minimum given.
pub clamped_bounds :
    (e : Estimator) (lo hi : Microseconds)
    → effective_rtt_min lo ≤ℤ hi
    → (effective_rtt_min lo ≤ℤ clamped e lo hi)
      × (clamped e lo hi ≤ℤ hi)
      × (effective_rtt_min lo ≤ℤ last_clamped e lo hi)
      × (last_clamped e lo hi ≤ℤ hi)
      × (pos 3000 ≤ℤ clamped e lo hi)
      × (lo ≤ℤ clamped e lo hi)
unfolding clamped last_clamped effective_rtt_min
clamped_bounds e lo hi h = ground arith
