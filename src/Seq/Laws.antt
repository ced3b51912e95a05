-- ===== src/Seq/Laws.antt =====
-- What the package comment of seq.go promises of the circular order.
use ristgo.Prelude.{ℕ, ◌-◌, ◌≡◌, ◌≢◌, ◌↔◌, ◌⊎◌, true, false, arith}
use ristgo.Prelude.Int.{pos, negsuc, ◌-ℤ◌, ◌≤ℤ◌}
use ristgo.Seq.{Width, w16, w32, IsNum, sub_word, half, distance, less}
use ristgo.Seq.{add}

-- Stepping from `a` by the distance to `b` arrives at `b`, for every pair of sequence numbers.
pub add-distance : (w : Width) (a b : ℕ) → IsNum w a → IsNum w b → add w a (distance w a b) ≡ b
unfolding add distance
add-distance w16 a b ha hb = ground arith
add-distance w32 a b ha hb = ground arith

-- The distance lies in [-(half - 1), half].
pub distance_bounds :
    (w : Width) (a b : ℕ)
    → IsNum w a
    → IsNum w b
    → (negsuc (half w - 2) ≤ℤ distance w a b) × (distance w a b ≤ℤ pos (half w))
unfolding distance
distance_bounds w16 a b ha hb = ground arith
distance_bounds w32 a b ha hb = ground arith

-- Off the antipode, the distance back is the negated distance, and of two different numbers
-- exactly one is before the other; at the antipode both distances are +half and each is before
-- the other.
pub distance_antisymm :
    (w : Width) (a b : ℕ)
    → IsNum w a
    → IsNum w b
    → ((sub_word w b a ≢ half w)
        × (distance w b a ≡ pos 0 -ℤ distance w a b)
        × ((a ≡ b) ⊎ ((less w a b ≡ true) ↔ (less w b a ≡ false))))
      ⊎ ((sub_word w b a ≡ half w)
          × (distance w a b ≡ pos (half w))
          × (distance w b a ≡ pos (half w))
          × (less w a b ≡ true)
          × (less w b a ≡ true))
unfolding distance less
distance_antisymm w16 a b ha hb = ground arith
distance_antisymm w32 a b ha hb = ground arith
