-- ===== src/Seq/Tests.antt =====
-- Runs at concrete numbers, and the theorems at them.
use ristgo.Prelude.{ℕ, ◌-◌, ◌≡◌, ◌≢◌, ◌⊎◌, ◌↔◌, refl, true, false, arith}
use ristgo.Prelude.Int.{pos, negsuc, ◌-ℤ◌, ◌≤ℤ◌}
use ristgo.Seq.{w16, distance, less, add, half, sub_word}
use ristgo.Seq.Laws.{add-distance, distance_bounds, distance_antisymm}

wrap_forward : distance w16 0xFFFF 2 ≡ pos 3
unfolding distance
wrap_forward = refl

add-distance_example : add w16 0xFFFF (distance w16 0xFFFF 2) ≡ 2
add-distance_example = add-distance w16 0xFFFF 2 (omega arith) (omega arith)

distance_bounds_example :
    (negsuc (half w16 - 2) ≤ℤ distance w16 0xFFFF 2) × (distance w16 0xFFFF 2 ≤ℤ pos (half w16))
distance_bounds_example = distance_bounds w16 0xFFFF 2 (omega arith) (omega arith)

distance_antisymm_example :
    ((sub_word w16 2 0xFFFF ≢ half w16)
      × (distance w16 2 0xFFFF ≡ pos 0 -ℤ distance w16 0xFFFF 2)
      × (◌≡◌ {A = ℕ} 0xFFFF 2 ⊎ ((less w16 0xFFFF 2 ≡ true) ↔ (less w16 2 0xFFFF ≡ false))))
    ⊎ ((sub_word w16 2 0xFFFF ≡ half w16)
        × (distance w16 0xFFFF 2 ≡ pos (half w16))
        × (distance w16 2 0xFFFF ≡ pos (half w16))
        × (less w16 0xFFFF 2 ≡ true)
        × (less w16 2 0xFFFF ≡ true))
distance_antisymm_example = distance_antisymm w16 0xFFFF 2 (omega arith) (omega arith)
