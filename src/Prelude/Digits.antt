-- ===== src/Prelude/Digits.antt =====
-- Flags as binary digits, and a byte read back into its eight flags.
use Prim.Native.Nat.{ℕ, ◌+◌, ◌*◌, ◌<◌}
use mathlib.Core.Path.{◌≡◌, refl}
use mathlib.Core.Bool.{Bool, true, false, not}
use native.Mathlib.Omega.{arith}
use ristgo.Prelude.Tests.{◌==◌}
use ristgo.Prelude.Bytes.{bit_at}

-- A flag as a number.
unfoldable pub digit : Bool → ℕ
digit true = 1
digit false = 0

pub digit-lt : (q : Bool) → digit q < 2
unfolding digit
digit-lt true = omega arith
digit-lt false = omega arith

pub digit-back : (q : Bool) → (digit q == 1) ≡ q
unfolding digit
digit-back true = refl
digit-back false = refl

bit0_digits :
    (a b c d e f g h : ℕ)
    → a < 2
    → b < 2
    → c < 2
    → d < 2
    → e < 2
    → f < 2
    → g < 2
    → h < 2
    → bit_at (a * 1 + b * 2 + c * 4 + d * 8 + e * 16 + f * 32 + g * 64 + h * 128) 0 ≡ a
bit0_digits a b c d e f g h la lb lc ld le lf lg lh = omega arith

bit1_digits :
    (a b c d e f g h : ℕ)
    → a < 2
    → b < 2
    → c < 2
    → d < 2
    → e < 2
    → f < 2
    → g < 2
    → h < 2
    → bit_at (a * 1 + b * 2 + c * 4 + d * 8 + e * 16 + f * 32 + g * 64 + h * 128) 1 ≡ b
bit1_digits a b c d e f g h la lb lc ld le lf lg lh = omega arith

bit2_digits :
    (a b c d e f g h : ℕ)
    → a < 2
    → b < 2
    → c < 2
    → d < 2
    → e < 2
    → f < 2
    → g < 2
    → h < 2
    → bit_at (a * 1 + b * 2 + c * 4 + d * 8 + e * 16 + f * 32 + g * 64 + h * 128) 2 ≡ c
bit2_digits a b c d e f g h la lb lc ld le lf lg lh = omega arith

bit3_digits :
    (a b c d e f g h : ℕ)
    → a < 2
    → b < 2
    → c < 2
    → d < 2
    → e < 2
    → f < 2
    → g < 2
    → h < 2
    → bit_at (a * 1 + b * 2 + c * 4 + d * 8 + e * 16 + f * 32 + g * 64 + h * 128) 3 ≡ d
bit3_digits a b c d e f g h la lb lc ld le lf lg lh = omega arith

bit4_digits :
    (a b c d e f g h : ℕ)
    → a < 2
    → b < 2
    → c < 2
    → d < 2
    → e < 2
    → f < 2
    → g < 2
    → h < 2
    → bit_at (a * 1 + b * 2 + c * 4 + d * 8 + e * 16 + f * 32 + g * 64 + h * 128) 4 ≡ e
bit4_digits a b c d e f g h la lb lc ld le lf lg lh = omega arith

bit5_digits :
    (a b c d e f g h : ℕ)
    → a < 2
    → b < 2
    → c < 2
    → d < 2
    → e < 2
    → f < 2
    → g < 2
    → h < 2
    → bit_at (a * 1 + b * 2 + c * 4 + d * 8 + e * 16 + f * 32 + g * 64 + h * 128) 5 ≡ f
bit5_digits a b c d e f g h la lb lc ld le lf lg lh = omega arith

bit6_digits :
    (a b c d e f g h : ℕ)
    → a < 2
    → b < 2
    → c < 2
    → d < 2
    → e < 2
    → f < 2
    → g < 2
    → h < 2
    → bit_at (a * 1 + b * 2 + c * 4 + d * 8 + e * 16 + f * 32 + g * 64 + h * 128) 6 ≡ g
bit6_digits a b c d e f g h la lb lc ld le lf lg lh = omega arith

bit7_digits :
    (a b c d e f g h : ℕ)
    → a < 2
    → b < 2
    → c < 2
    → d < 2
    → e < 2
    → f < 2
    → g < 2
    → h < 2
    → bit_at (a * 1 + b * 2 + c * 4 + d * 8 + e * 16 + f * 32 + g * 64 + h * 128) 7 ≡ h
bit7_digits a b c d e f g h la lb lc ld le lf lg lh = omega arith

-- A byte from its flags, the lowest first.
unfoldable pub byte_of : (a b c d e f g h : Bool) → ℕ
unfolding digit
byte_of a b c d e f g h =
    digit a * 1
    + digit b * 2
    + digit c * 4
    + digit d * 8
    + digit e * 16
    + digit f * 32
    + digit g * 64
    + digit h * 128

pub bit0-byte_of : (a b c d e f g h : Bool) → (bit_at (byte_of a b c d e f g h) 0 == 1) ≡ a
unfolding byte_of
bit0-byte_of a b c d e f g h =
    rw
      (bit0_digits (digit a) (digit b) (digit c) (digit d) (digit e) (digit f) (digit g) (digit h)
        (digit-lt a) (digit-lt b) (digit-lt c) (digit-lt d) (digit-lt e) (digit-lt f) (digit-lt g)
        (digit-lt h))
      (digit-back a)

pub bit1-byte_of : (a b c d e f g h : Bool) → (bit_at (byte_of a b c d e f g h) 1 == 1) ≡ b
unfolding byte_of
bit1-byte_of a b c d e f g h =
    rw
      (bit1_digits (digit a) (digit b) (digit c) (digit d) (digit e) (digit f) (digit g) (digit h)
        (digit-lt a) (digit-lt b) (digit-lt c) (digit-lt d) (digit-lt e) (digit-lt f) (digit-lt g)
        (digit-lt h))
      (digit-back b)

pub bit2-byte_of : (a b c d e f g h : Bool) → (bit_at (byte_of a b c d e f g h) 2 == 1) ≡ c
unfolding byte_of
bit2-byte_of a b c d e f g h =
    rw
      (bit2_digits (digit a) (digit b) (digit c) (digit d) (digit e) (digit f) (digit g) (digit h)
        (digit-lt a) (digit-lt b) (digit-lt c) (digit-lt d) (digit-lt e) (digit-lt f) (digit-lt g)
        (digit-lt h))
      (digit-back c)

pub bit3-byte_of : (a b c d e f g h : Bool) → (bit_at (byte_of a b c d e f g h) 3 == 1) ≡ d
unfolding byte_of
bit3-byte_of a b c d e f g h =
    rw
      (bit3_digits (digit a) (digit b) (digit c) (digit d) (digit e) (digit f) (digit g) (digit h)
        (digit-lt a) (digit-lt b) (digit-lt c) (digit-lt d) (digit-lt e) (digit-lt f) (digit-lt g)
        (digit-lt h))
      (digit-back d)

pub bit4-byte_of : (a b c d e f g h : Bool) → (bit_at (byte_of a b c d e f g h) 4 == 1) ≡ e
unfolding byte_of
bit4-byte_of a b c d e f g h =
    rw
      (bit4_digits (digit a) (digit b) (digit c) (digit d) (digit e) (digit f) (digit g) (digit h)
        (digit-lt a) (digit-lt b) (digit-lt c) (digit-lt d) (digit-lt e) (digit-lt f) (digit-lt g)
        (digit-lt h))
      (digit-back e)

pub bit5-byte_of : (a b c d e f g h : Bool) → (bit_at (byte_of a b c d e f g h) 5 == 1) ≡ f
unfolding byte_of
bit5-byte_of a b c d e f g h =
    rw
      (bit5_digits (digit a) (digit b) (digit c) (digit d) (digit e) (digit f) (digit g) (digit h)
        (digit-lt a) (digit-lt b) (digit-lt c) (digit-lt d) (digit-lt e) (digit-lt f) (digit-lt g)
        (digit-lt h))
      (digit-back f)

pub bit6-byte_of : (a b c d e f g h : Bool) → (bit_at (byte_of a b c d e f g h) 6 == 1) ≡ g
unfolding byte_of
bit6-byte_of a b c d e f g h =
    rw
      (bit6_digits (digit a) (digit b) (digit c) (digit d) (digit e) (digit f) (digit g) (digit h)
        (digit-lt a) (digit-lt b) (digit-lt c) (digit-lt d) (digit-lt e) (digit-lt f) (digit-lt g)
        (digit-lt h))
      (digit-back g)

pub bit7-byte_of : (a b c d e f g h : Bool) → (bit_at (byte_of a b c d e f g h) 7 == 1) ≡ h
unfolding byte_of
bit7-byte_of a b c d e f g h =
    rw
      (bit7_digits (digit a) (digit b) (digit c) (digit d) (digit e) (digit f) (digit g) (digit h)
        (digit-lt a) (digit-lt b) (digit-lt c) (digit-lt d) (digit-lt e) (digit-lt f) (digit-lt g)
        (digit-lt h))
      (digit-back h)

pub digit-zero : (q : Bool) → (digit q == 0) ≡ not q
unfolding digit
digit-zero true = refl
digit-zero false = refl
