-- ===== src/Prelude/Bytes.antt =====
-- Big-endian fields in byte slices, as the package encoding/binary writes and reads them.
use Prim.Native.Nat.{ℕ, zero, suc, ◌+◌, ◌*◌, ◌/◌, ◌%◌, ◌^◌, ◌<◌}
use mathlib.Core.Path.{◌≡◌, refl}
use mathlib.Core.List.{List, [], ◌∷◌, ◌++◌}
use native.Mathlib.Omega.{arith}
use ristgo.Prelude.Lists.{All, length}

abbrev pub Bytes : Type 0
Bytes = List ℕ

abbrev pub AreBytes : Bytes → Type 0
AreBytes = All (λ b. b < 256)

abbrev pub put16 : ℕ → Bytes
put16 n = (n / 2 ^ 8 % 256) ∷ (n % 256) ∷ []

abbrev pub put32 : ℕ → Bytes
put32 n = (n / 2 ^ 24 % 256) ∷ (n / 2 ^ 16 % 256) ∷ (n / 2 ^ 8 % 256) ∷ (n % 256) ∷ []

abbrev pub put64 : ℕ → Bytes
put64 n =
    (n / 2 ^ 56 % 256) ∷ (n / 2 ^ 48 % 256) ∷ (n / 2 ^ 40 % 256) ∷ (n / 2 ^ 32 % 256) ∷ put32 n

-- `b[i]`; the code reads only within bounds.
abbrev pub byte : Bytes → ℕ → ℕ
byte [] i = 0
byte (x ∷ b) zero = x
byte (x ∷ b) (suc i) = byte b i

-- Fields at the head of a slice.
abbrev pub get16 : Bytes → ℕ
get16 b = byte b 0 * 2 ^ 8 + byte b 1

abbrev pub get32 : Bytes → ℕ
get32 b = byte b 0 * 2 ^ 24 + byte b 1 * 2 ^ 16 + byte b 2 * 2 ^ 8 + byte b 3

abbrev pub get64 : Bytes → ℕ
get64 b =
    byte b 0 * 2 ^ 56
    + byte b 1 * 2 ^ 48
    + byte b 2 * 2 ^ 40
    + byte b 3 * 2 ^ 32
    + byte b 4 * 2 ^ 24
    + byte b 5 * 2 ^ 16
    + byte b 6 * 2 ^ 8
    + byte b 7

-- Bit `k` of a byte or a word.
abbrev pub bit_at : ℕ → ℕ → ℕ
bit_at n k = n / 2 ^ k % 2

pub get16-put16 : (n : ℕ) (rest : Bytes) → n < 2 ^ 16 → get16 (put16 n ++ rest) ≡ n
get16-put16 n rest l = omega arith

pub get32-put32 : (n : ℕ) (rest : Bytes) → n < 2 ^ 32 → get32 (put32 n ++ rest) ≡ n
get32-put32 n rest l = omega arith

abbrev pub replicate : ℕ → ℕ → Bytes
replicate zero x = []
replicate (suc n) x = x ∷ replicate n x

pub length-replicate : (n x : ℕ) → length (replicate n x) ≡ n
length-replicate zero x = refl
length-replicate (suc n) x = omega (arith, length-replicate n x)

pub get64-put64 : (n : ℕ) (rest : Bytes) → n < 2 ^ 64 → get64 (put64 n ++ rest) ≡ n
get64-put64 n rest l = omega arith
