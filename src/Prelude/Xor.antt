-- ===== src/Prelude/Xor.antt =====
-- Exclusive or on numbers: the digits of the result, and the laws of the operation.
use Prim.Native.Nat.{ℕ, zero, suc, ◌+◌, ◌*◌, ◌/◌, ◌%◌, ◌≤◌, ◌<◌}
use Prim.Native.Nat.{bit_xor, differ, bit_xor-bitwise}
use mathlib.Core.Path.{◌≡◌, refl, sym, ap, ◌∙◌}
use native.Mathlib.Omega.{arith}
use ristgo.Prelude.Bits.{own_fuel}

-- One digit of the result.
abbrev odd : ℕ → ℕ → ℕ
odd x y = (x + y) % 2

differ-small : (x y : ℕ) → x < 2 → y < 2 → differ x y ≡ odd x y
differ-small zero y lx ly = omega arith
differ-small (suc zero) zero lx ly = refl
differ-small (suc zero) (suc zero) lx ly = refl
differ-small (suc zero) (suc (suc y)) lx ly = absurd (omega arith)
differ-small (suc (suc x)) y lx ly = absurd (omega arith)

differ-odd : (x y : ℕ) → differ (x % 2) (y % 2) ≡ odd x y
differ-odd x y = omega (arith, differ-small (x % 2) (y % 2) (omega arith) (omega arith))

bit_xor_halves : (x y : ℕ) → bit_xor x y ≡ odd x y + 2 * bit_xor (x / 2) (y / 2)
bit_xor_halves zero y =
    omega (arith, bit_xor-bitwise 0 y, bit_xor-bitwise 0 (y / 2), differ-odd 0 y)
bit_xor_halves (suc x) y =
    let h = suc x / 2 in
    let fuelled = own_fuel (λ b. b) differ x h (y / 2) (omega arith) in
    omega
      (arith, fuelled, bit_xor-bitwise h (y / 2), bit_xor-bitwise (suc x) y, differ-odd (suc x) y)

bit_xor-odd : (x y : ℕ) → bit_xor x y % 2 ≡ odd x y
bit_xor-odd x y = omega (arith, bit_xor_halves x y)

bit_xor-half : (x y : ℕ) → bit_xor x y / 2 ≡ bit_xor (x / 2) (y / 2)
bit_xor-half x y = omega (arith, bit_xor_halves x y)

-- Each law by halving, on fuel that bounds the numbers.
bit_xor_comm_within : (fuel x y : ℕ) → x ≤ fuel → y ≤ fuel → bit_xor x y ≡ bit_xor y x
bit_xor_comm_within zero x y lx ly =
    let ex : x ≡ 0 = omega arith in let ey : y ≡ 0 = omega arith in rw (ex, ey) refl
bit_xor_comm_within (suc fuel) x y lx ly = omega (
  arith,
  bit_xor_halves x y,
  bit_xor_halves y x,
  bit_xor_comm_within fuel (x / 2) (y / 2) (omega arith) (omega arith),
)

pub bit_xor_comm : (x y : ℕ) → bit_xor x y ≡ bit_xor y x
bit_xor_comm x y = bit_xor_comm_within (x + y) x y (omega arith) (omega arith)

bit_xor_assoc_within :
    (fuel x y z : ℕ)
    → x ≤ fuel
    → y ≤ fuel
    → z ≤ fuel
    → bit_xor (bit_xor x y) z ≡ bit_xor x (bit_xor y z)
bit_xor_assoc_within zero x y z lx ly lz =
    let ex : x ≡ 0 = omega arith in
    let ey : y ≡ 0 = omega arith in let ez : z ≡ 0 = omega arith in rw (ex, ey, ez) refl
bit_xor_assoc_within (suc fuel) x y z lx ly lz =
    let ih =
      bit_xor_assoc_within fuel (x / 2) (y / 2) (z / 2) (omega arith) (omega arith) (omega arith) in
    let left = rw (bit_xor-half x y) at (bit_xor_halves (bit_xor x y) z) in
    let right = rw (bit_xor-half y z) at (bit_xor_halves x (bit_xor y z)) in
    omega (arith, ih, left, right, bit_xor-odd x y, bit_xor-odd y z)

pub bit_xor_assoc : (x y z : ℕ) → bit_xor (bit_xor x y) z ≡ bit_xor x (bit_xor y z)
bit_xor_assoc x y z =
    bit_xor_assoc_within (x + y + z) x y z (omega arith) (omega arith) (omega arith)

bit_xor-self_within : (fuel x : ℕ) → x ≤ fuel → bit_xor x x ≡ 0
bit_xor-self_within zero x l = let e : x ≡ 0 = omega arith in rw e refl
bit_xor-self_within (suc fuel) x l =
    omega (arith, bit_xor_halves x x, bit_xor-self_within fuel (x / 2) (omega arith))

pub bit_xor-zero : (x : ℕ) → bit_xor 0 x ≡ x
bit_xor-zero x = omega (arith, bit_xor-bitwise 0 x)

-- Two uses of one number cancel, and the order of uses does not matter.
pub bit_xor-twice : (g x : ℕ) → bit_xor (bit_xor g x) x ≡ g
bit_xor-twice g x =
    bit_xor_assoc g x x
    ∙ (ap (bit_xor g) (bit_xor-self_within x x (omega arith)) ∙ (bit_xor_comm g 0 ∙ bit_xor-zero g))

pub bit_xor-swap : (g x y : ℕ) → bit_xor (bit_xor g x) y ≡ bit_xor (bit_xor g y) x
bit_xor-swap g x y =
    bit_xor_assoc g x y ∙ (ap (bit_xor g) (bit_xor_comm x y) ∙ sym (bit_xor_assoc g y x))
