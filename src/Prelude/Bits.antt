-- ===== src/Prelude/Bits.antt =====
-- The bits of a number, and `bit_and` and `bit_or` read bit by bit.
use Prim.Native.Nat.{ℕ, zero, suc, ◌+◌, ◌-◌, ◌*◌, ◌/◌, ◌%◌, ◌^◌, ◌≤◌, ◌<◌, min, max}
use Prim.Native.Nat.{bit_and, bit_or, digits, bit_and-bitwise, bit_or-bitwise}
use mathlib.Core.Path.{◌≡◌, refl, ap, ◌∙◌}
use mathlib.Core.Logic.{◌≢◌, ◌⊎◌, inl, inr}
use native.Mathlib.Omega.{arith}
use native.Mathlib.Nat.{div-add-mod', mod-lt, mod-eq_of_lt, mul-add-mod_self_right}

-- Bit `i` of `a`.
abbrev pub bit : ℕ → ℕ → ℕ
bit a zero = a % 2
bit a (suc i) = bit (a / 2) i

-- `bit_and` and `bit_or` recur on the digits of the first operand, on fuel. That operand itself is
-- fuel enough, and more fuel changes nothing.
module _ (rest : ℕ → ℕ) (join : ℕ → ℕ → ℕ) where
  spare_fuel :
      (fuel x y : ℕ) → x ≤ fuel → digits rest join (suc fuel) x y ≡ digits rest join fuel x y
  spare_fuel zero zero y h = refl
  spare_fuel zero (suc x) y h = absurd (omega arith)
  spare_fuel (suc fuel) zero y h = refl
  spare_fuel (suc fuel) (suc x) y h =
      omega (arith, spare_fuel fuel (suc x / 2) (y / 2) (omega arith))

  pub own_fuel : (fuel x y : ℕ) → x ≤ fuel → digits rest join fuel x y ≡ digits rest join x x y
  own_fuel zero x y h = let none : x ≡ zero = omega arith in rw none refl
  own_fuel (suc fuel) x y h = elim (below_or_top fuel x) [
    | inl top ↦ let same : x ≡ suc fuel = omega arith in rw same refl
    | inr below ↦ spare_fuel fuel x y below ∙ own_fuel fuel x y below
  ]
    where
      below_or_top : (m n : ℕ) → (m < n) ⊎ (n ≤ m)
      below_or_top m n = ground arith

-- Both operations one digit at a time, the lowest first.
pub bit_and_halves : (x y : ℕ) → bit_and x y ≡ min (x % 2) (y % 2) + 2 * bit_and (x / 2) (y / 2)
bit_and_halves zero y = omega (arith, bit_and-bitwise 0 y, bit_and-bitwise 0 (y / 2))
bit_and_halves (suc x) y =
    let h = suc x / 2 in
    let fuelled = own_fuel (λ y'. zero) min x h (y / 2) (omega arith) in
    omega (arith, fuelled, bit_and-bitwise h (y / 2), bit_and-bitwise (suc x) y)

pub bit_or_halves : (x y : ℕ) → bit_or x y ≡ max (x % 2) (y % 2) + 2 * bit_or (x / 2) (y / 2)
bit_or_halves zero y = omega (arith, bit_or-bitwise 0 y, bit_or-bitwise 0 (y / 2))
bit_or_halves (suc x) y =
    let h = suc x / 2 in
    let fuelled = own_fuel (λ y'. y') max x h (y / 2) (omega arith) in
    omega (arith, fuelled, bit_or-bitwise h (y / 2), bit_or-bitwise (suc x) y)

pub bit-bit_or : (i a b : ℕ) → bit (bit_or a b) i ≡ max (bit a i) (bit b i)
bit-bit_or zero a b = omega (arith, bit_or_halves a b)
bit-bit_or (suc i) a b =
    let half : bit_or a b / 2 ≡ bit_or (a / 2) (b / 2) = omega (arith, bit_or_halves a b) in
    rw half (bit-bit_or i (a / 2) (b / 2))

pub bit_le_one : (i a : ℕ) → bit a i ≤ 1
bit_le_one zero a = omega arith
bit_le_one (suc i) a = bit_le_one i (a / 2)

pub pow_suc : (k : ℕ) → 2 ^ suc k ≡ 2 * 2 ^ k
pow_suc k = omega arith

pub pow_pos : (k : ℕ) → 0 < 2 ^ k
pow_pos zero = omega arith
pow_pos (suc k) = omega (arith, pow_pos k)

pub bit-zero : (i : ℕ) → bit 0 i ≡ 0
bit-zero zero = refl
bit-zero (suc i) = bit-zero i

pub bit-one_suc : (i : ℕ) → bit 1 (suc i) ≡ 0
bit-one_suc i = bit-zero i

shift_suc : (k a : ℕ) → a * 2 ^ suc k ≡ 2 * (a * 2 ^ k)
shift_suc k a = omega (arith, ap (λ (t : ℕ). a * t) (pow_suc k))

-- A remainder by a power of two, one bit at a time.
mod_pow_suc : (k a : ℕ) → a % 2 ^ suc k ≡ 2 * (a / 2 % 2 ^ k) + a % 2
mod_pow_suc k a =
    let q = a / 2 ^ suc k in
    let r = a % 2 ^ suc k in
    let whole : 2 * (q * 2 ^ k) + r ≡ a =
      omega (arith, div-add-mod' a (2 ^ suc k), shift_suc k q) in
    let fits : r < 2 * 2 ^ k = omega (arith, mod-lt a (pow_pos (suc k)), pow_suc k) in
    let upper : a / 2 ≡ q * 2 ^ k + r / 2 = omega arith in
    omega (
      arith,
      ap (λ (t : ℕ). t % 2 ^ k) upper,
      mul-add-mod_self_right q (2 ^ k) (r / 2),
      mod-eq_of_lt {n = r / 2} {m = 2 ^ k} (omega arith),
    )

-- A shift to the left moves the bits up and brings zeros in.
pub bit-shift_low : (k a i : ℕ) → i < k → bit (a * 2 ^ k) i ≡ 0
bit-shift_low zero a i h = absurd (omega arith)
bit-shift_low (suc k) a zero h = omega (arith, shift_suc k a)
bit-shift_low (suc k) a (suc i) h =
    let e : a * 2 ^ suc k / 2 ≡ a * 2 ^ k = omega (arith, shift_suc k a) in
    rw e (bit-shift_low k a i (omega arith))

pub bit-shift_high : (k a i j : ℕ) → j ≡ k + i → bit (a * 2 ^ k) j ≡ bit a i
bit-shift_high zero a i j h =
    let e : j ≡ i = omega arith in let f : a * 2 ^ 0 ≡ a = omega arith in rw (e, f)
bit-shift_high (suc k) a i zero h = absurd (omega arith)
bit-shift_high (suc k) a i (suc j) h =
    let e : a * 2 ^ suc k / 2 ≡ a * 2 ^ k = omega (arith, shift_suc k a) in
    rw e (bit-shift_high k a i j (omega arith))

pub bit-pow_self : (d : ℕ) → bit (2 ^ d) d ≡ 1
bit-pow_self zero = refl
bit-pow_self (suc d) =
    let e : 2 ^ suc d / 2 ≡ 2 ^ d = omega (arith, pow_suc d) in rw e (bit-pow_self d)

pub bit-pow_ne : (d i : ℕ) → d ≢ i → bit (2 ^ d) i ≡ 0
bit-pow_ne zero zero h = absurd (h refl)
bit-pow_ne zero (suc i) h = bit-one_suc i
bit-pow_ne (suc d) zero h = omega (arith, pow_suc d)
bit-pow_ne (suc d) (suc i) h =
    let e : 2 ^ suc d / 2 ≡ 2 ^ d = omega (arith, pow_suc d) in
    rw e (bit-pow_ne d i (λ q. h (ap suc q)))

-- The bits of `a % 2^k` are those of `a` below `k`.
pub bit-mod_low : (k a i : ℕ) → i < k → bit (a % 2 ^ k) i ≡ bit a i
bit-mod_low zero a i h = absurd (omega arith)
bit-mod_low (suc k) a zero h = omega (arith, mod_pow_suc k a)
bit-mod_low (suc k) a (suc i) h =
    let e : a % 2 ^ suc k / 2 ≡ a / 2 % 2 ^ k = omega (arith, mod_pow_suc k a) in
    rw e (bit-mod_low k (a / 2) i (omega arith))

bit_and-zero_bits : (n a : ℕ) → a ≤ n → bit_and a 0 ≡ 0
bit_and-zero_bits n zero h = refl
bit_and-zero_bits zero (suc a) h = absurd (omega arith)
bit_and-zero_bits (suc n) (suc a) h =
    omega (arith, bit_and_halves (suc a) 0, bit_and-zero_bits n (suc a / 2) (omega arith))

pub bit_and-zero : (a : ℕ) → bit_and a 0 ≡ 0
bit_and-zero a = bit_and-zero_bits a a (omega arith)

-- `a & (1 << d)` is bit `d`, in its place.
pub bit_and-pow : (d a : ℕ) → bit_and a (2 ^ d) ≡ bit a d * 2 ^ d
bit_and-pow zero a = omega (arith, bit_and_halves a 1, bit_and-zero (a / 2))
bit_and-pow (suc d) a =
    let e : 2 ^ suc d / 2 ≡ 2 ^ d = omega (arith, pow_suc d) in
    omega (
      arith,
      bit_and_halves a (2 ^ suc d),
      pow_suc d,
      ap (bit_and (a / 2)) e,
      bit_and-pow d (a / 2),
      shift_suc d (bit (a / 2) d),
    )

-- A mask of `k` ones keeps the value modulo 2^k.
pub bit_and-mask : (k a : ℕ) → bit_and a (2 ^ k - 1) ≡ a % 2 ^ k
bit_and-mask zero a = bit_and-zero a ∙ omega arith
bit_and-mask (suc k) a =
    let e : (2 ^ suc k - 1) / 2 ≡ 2 ^ k - 1 = omega (arith, pow_suc k, pow_pos k) in
    omega (
      arith,
      bit_and_halves a (2 ^ suc k - 1),
      pow_suc k,
      pow_pos k,
      ap (bit_and (a / 2)) e,
      bit_and-mask k (a / 2),
      mod_pow_suc k a,
    )

-- Disjoint fields: `q << k | r` is a sum.
bit_or-zero_bits : (n a : ℕ) → a ≤ n → bit_or a 0 ≡ a
bit_or-zero_bits n zero h = refl
bit_or-zero_bits zero (suc a) h = absurd (omega arith)
bit_or-zero_bits (suc n) (suc a) h =
    omega (arith, bit_or_halves (suc a) 0, bit_or-zero_bits n (suc a / 2) (omega arith))

pub bit_or-fields : (k q r : ℕ) → r < 2 ^ k → bit_or (q * 2 ^ k) r ≡ q * 2 ^ k + r
bit_or-fields zero q r h =
    let e : r ≡ 0 = omega arith in
    let f : q * 2 ^ 0 ≡ q = omega arith in
    rw (e, f) (bit_or-zero_bits q q (omega arith) ∙ omega arith)
bit_or-fields (suc k) q r h =
    let e : q * 2 ^ suc k / 2 ≡ q * 2 ^ k = omega (arith, shift_suc k q) in
    omega (
      arith,
      bit_or_halves (q * 2 ^ suc k) r,
      shift_suc k q,
      ap (λ (t : ℕ). bit_or t (r / 2)) e,
      bit_or-fields k q (r / 2) (omega (arith, pow_suc k)),
    )
