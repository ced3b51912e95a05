-- ===== src/Prelude/Int.antt =====
-- Signed integers over the native numbers (the library's ℤ stands on the unary ones), Go's
-- conversions between them and w-bit words, and 64-bit signed arithmetic with its wrap-around.
use Prim.Native.Nat.{ℕ, suc, ◌+◌, ◌-◌, ◌*◌, ◌/◌, ◌%◌, ◌^◌, ◌≤◌, ◌<◌}
use mathlib.Core.Path.{◌≡◌, refl}
use mathlib.Core.Bool.{Bool}
use mathlib.Core.Logic.{◌⊎◌, inl, inr}
use native.Mathlib.Omega.{arith}
use ristgo.Prelude.Tests.{ltb, leb, if◌then◌else◌}

-- `negsuc n` is -(n + 1).
pub data ℤ : Type 0 where
  pos : ℕ → ℤ
  negsuc : ℕ → ℤ

abbrev pub pos_part : ℤ → ℕ
pos_part (pos n) = n
pos_part (negsuc n) = 0

abbrev pub neg_part : ℤ → ℕ
neg_part (pos n) = 0
neg_part (negsuc n) = suc n

-- a - b, as an integer.
abbrev pub sub_ℕ : ℕ → ℕ → ℤ
sub_ℕ a b = if leb b a then pos (a - b) else negsuc (b - a - 1)

infixl 65 ◌+ℤ◌ ◌-ℤ◌
infixl 70 ◌*ℤ◌
infix 50 ◌≤ℤ◌ ◌<ℤ◌
unfoldable pub ◌+ℤ◌ : ℤ → ℤ → ℤ
a +ℤ b = sub_ℕ (pos_part a + pos_part b) (neg_part a + neg_part b)

unfoldable pub ◌-ℤ◌ : ℤ → ℤ → ℤ
a -ℤ b = sub_ℕ (pos_part a + neg_part b) (neg_part a + pos_part b)

unfoldable pub ◌*ℤ◌ : ℤ → ℤ → ℤ
a *ℤ b =
    sub_ℕ (pos_part a * pos_part b + neg_part a * neg_part b)
      (pos_part a * neg_part b + neg_part a * pos_part b)

-- Go's `/`, which rounds towards zero; the divisor is a positive constant or a positive count.
unfoldable pub quot : ℤ → ℕ → ℤ
quot (pos n) d = pos (n / d)
quot (negsuc n) d = sub_ℕ 0 (suc n / d)

abbrev pub ◌≤ℤ◌ : ℤ → ℤ → Type 0
a ≤ℤ b = pos_part a + neg_part b ≤ pos_part b + neg_part a

abbrev pub ◌<ℤ◌ : ℤ → ℤ → Type 0
a <ℤ b = pos_part a + neg_part b < pos_part b + neg_part a

abbrev pub ltb_ℤ : ℤ → ℤ → Bool
ltb_ℤ a b = ltb (pos_part a + neg_part b) (pos_part b + neg_part a)

abbrev pub leb_ℤ : ℤ → ℤ → Bool
leb_ℤ a b = leb (pos_part a + neg_part b) (pos_part b + neg_part a)

-- The conversion of an integer to an unsigned word of `m` values.
unfoldable pub to_word : ℕ → ℤ → ℕ
to_word m (pos n) = n % m
to_word m (negsuc n) = m - 1 - n % m

-- The int64 that a 64-bit pattern stands for.
unfoldable pub signed64 : ℕ → ℤ
signed64 w = if ltb w (2 ^ 63) then pos w else negsuc (2 ^ 64 - w - 1)

-- int64 arithmetic: the result is taken modulo 2^64 into the signed range.
unfoldable pub wrap64 : ℤ → ℤ
unfolding to_word signed64
wrap64 z = signed64 (to_word (2 ^ 64) z)

abbrev pub add64 : ℤ → ℤ → ℤ
add64 a b = wrap64 (a +ℤ b)

abbrev pub sub64 : ℤ → ℤ → ℤ
sub64 a b = wrap64 (a -ℤ b)

abbrev pub mul64 : ℤ → ℤ → ℤ
mul64 a b = wrap64 (a *ℤ b)

abbrev pub IsI64 : ℤ → Type 0
IsI64 z = (pos_part z < 2 ^ 63) × (neg_part z ≤ 2 ^ 63)

pub wrap64_id : (z : ℤ) → IsI64 z → wrap64 z ≡ z
unfolding wrap64
wrap64_id (pos n) h = ground arith
wrap64_id (negsuc n) h = ground arith

pub +ℤ_parts :
    (a b : ℤ)
    → pos_part (a +ℤ b) + neg_part a + neg_part b ≡ neg_part (a +ℤ b) + pos_part a + pos_part b
unfolding ◌+ℤ◌
+ℤ_parts a b = ground arith

pub -ℤ_parts :
    (a b : ℤ)
    → pos_part (a -ℤ b) + neg_part a + pos_part b ≡ neg_part (a -ℤ b) + pos_part a + neg_part b
unfolding ◌-ℤ◌
-ℤ_parts a b = ground arith

pub eq_of_parts : (a b : ℤ) → pos_part a + neg_part b ≡ pos_part b + neg_part a → a ≡ b
eq_of_parts a b h = ground arith

-- At most one part of an integer is not zero.
pub parts_apart : (a : ℤ) → (pos_part a ≡ 0) ⊎ (neg_part a ≡ 0)
parts_apart (pos n) = inr refl
parts_apart (negsuc n) = inl refl

pub ruleset int_laws = (arith, +ℤ_parts, -ℤ_parts, eq_of_parts)

-- int64 sums and differences that stay in range, in the form that `omega` reads.
pub add64_parts :
    (a b : ℤ)
    → pos_part a + pos_part b < 2 ^ 63 + neg_part a + neg_part b
    → neg_part a + neg_part b ≤ 2 ^ 63 + pos_part a + pos_part b
    → pos_part (add64 a b) + neg_part a + neg_part b
      ≡ neg_part (add64 a b) + pos_part a + pos_part b
add64_parts a b h k =
    let fits : IsI64 (a +ℤ b) =
      (omega (int_laws, parts_apart (a +ℤ b)), omega (int_laws, parts_apart (a +ℤ b))) in
    rw (wrap64_id (a +ℤ b) fits) (+ℤ_parts a b)

pub sub64_parts :
    (a b : ℤ)
    → pos_part a + neg_part b < 2 ^ 63 + neg_part a + pos_part b
    → neg_part a + pos_part b ≤ 2 ^ 63 + pos_part a + neg_part b
    → pos_part (sub64 a b) + neg_part a + pos_part b
      ≡ neg_part (sub64 a b) + pos_part a + neg_part b
sub64_parts a b h k =
    let fits : IsI64 (a -ℤ b) =
      (omega (int_laws, parts_apart (a -ℤ b)), omega (int_laws, parts_apart (a -ℤ b))) in
    rw (wrap64_id (a -ℤ b) fits) (-ℤ_parts a b)

pub to_word32_parts :
    (z : ℤ)
    → (to_word (2 ^ 32) z < 2 ^ 32)
      × ((to_word (2 ^ 32) z + neg_part z) % 2 ^ 32 ≡ pos_part z % 2 ^ 32)
unfolding to_word
to_word32_parts (pos n) = omega arith
to_word32_parts (negsuc n) = omega arith
