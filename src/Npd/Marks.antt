-- ===== src/Npd/Marks.antt =====
-- The bitmap of npd.go's Suppress, and how Expand reads it.
use ristgo.Prelude.{ℕ, zero, suc, ◌+◌, ◌-◌, ◌*◌, ◌%◌, ◌^◌, ◌≤◌, ◌≡◌, refl, arith}
use ristgo.Prelude.{Bool, true, false, not, List, [], ◌∷◌, length, drop, ◌==◌, if◌then◌else◌}
use ristgo.Prelude.Bytes.{Bytes, bit_at}
use ristgo.Prelude.Digits.{digit, digit-lt, digit-zero}
use ristgo.Prelude.Results.{ok}
use ristgo.Npd.{is_null, mark_nulls}

-- Which of the next packets are null.
unfoldable pub nulls : (count size : ℕ) → Bytes → List Bool
nulls zero size b = []
nulls (suc count) size b = is_null b ∷ nulls count size (drop size b)

unfoldable pub trues : List Bool → ℕ
trues [] = 0
trues (f ∷ fs) = digit f + trues fs

-- The bits of the flags from packet `i`.
unfoldable pub weight : ℕ → List Bool → ℕ
weight i [] = 0
weight i (f ∷ fs) = digit f * 2 ^ (6 - i) + weight (i + 1) fs

-- The bitmap says of each packet from `i` whether it is null.
abbrev pub Marks : ℕ → ℕ → List Bool → Type 0
Marks i bits [] = Unit {0}
Marks i bits (f ∷ fs) = ((bit_at bits (6 - i) == 0) ≡ not f) × Marks (i + 1) bits fs

pub length-nulls : (count size : ℕ) (b : Bytes) → length (nulls count size b) ≡ count
unfolding nulls
length-nulls zero size b = refl
length-nulls (suc count) size b = omega (arith, length-nulls count size (drop size b))

marked : (f : Bool) (bits p : ℕ) → (if f then bits + p else bits) ≡ bits + digit f * p
unfolding digit
marked true bits p = omega arith
marked false bits p = omega arith

pub mark_nulls-weight :
    (count i size : ℕ) (b : Bytes) (bits n : ℕ) (r : ℕ × ℕ)
    → mark_nulls count i size b bits n ≡ ok r
    → (r.0 ≡ bits + weight i (nulls count size b)) × (r.1 ≡ n + trues (nulls count size b))
unfolding mark_nulls nulls weight trues
mark_nulls-weight zero i size b bits n r e = (grind arith, grind arith)
mark_nulls-weight (suc count) i size b bits n r e =
    let null = is_null b in
    let bits2 = if null then bits + 2 ^ (6 - i) else bits in
    let n2 = if null then n + 1 else n in
    let inner : mark_nulls count (i + 1) size (drop size b) bits2 n2 ≡ ok r = ground arith in
    let (marks, number) = mark_nulls-weight count (i + 1) size (drop size b) bits2 n2 r inner in
    (omega (arith, marks, marked null bits (2 ^ (6 - i))), omega (arith, number, marked null n 1))

seven :
    (bits : ℕ) (s a b c d e f g : Bool)
    → bits
      ≡ digit s * 128
        + digit a * 64
        + digit b * 32
        + digit c * 16
        + digit d * 8
        + digit e * 4
        + digit f * 2
        + digit g
    → Marks 0 bits (a ∷ b ∷ c ∷ d ∷ e ∷ f ∷ g ∷ [])
seven bits s a b c d e f g p =
    let ls = digit-lt s in
    let la = digit-lt a in
    let lb = digit-lt b in
    let lc = digit-lt c in
    let ld = digit-lt d in
    let le = digit-lt e in
    let lf = digit-lt f in
    let lg = digit-lt g in
    let ea : bit_at bits 6 ≡ digit a = omega arith in
    let eb : bit_at bits 5 ≡ digit b = omega arith in
    let ec : bit_at bits 4 ≡ digit c = omega arith in
    let ed : bit_at bits 3 ≡ digit d = omega arith in
    let ee : bit_at bits 2 ≡ digit e = omega arith in
    let ef : bit_at bits 1 ≡ digit f = omega arith in
    let eg : bit_at bits 0 ≡ digit g = omega arith in
    (
      rw ea (digit-zero a),
      (
        rw eb (digit-zero b),
        (
          rw ec (digit-zero c),
          (
            rw ed (digit-zero d),
            (rw ee (digit-zero e), (rw ef (digit-zero f), (rw eg (digit-zero g), tt))),
          ),
        ),
      ),
    )

pub Marks-weight :
    (bits : ℕ) (s : Bool) (fs : List Bool)
    → length fs ≤ 7
    → bits ≡ digit s * 128 + weight 0 fs
    → Marks 0 bits fs
unfolding weight digit
Marks-weight bits s [] l p = tt
Marks-weight bits s (a ∷ []) l p =
    let m = seven bits s a false false false false false false (omega arith) in (m.0, tt)
Marks-weight bits s (a ∷ b ∷ []) l p =
    let m = seven bits s a b false false false false false (omega arith) in (m.0, (m.1.0, tt))
Marks-weight bits s (a ∷ b ∷ c ∷ []) l p =
    let m = seven bits s a b c false false false false (omega arith) in
    (m.0, (m.1.0, (m.1.1.0, tt)))
Marks-weight bits s (a ∷ b ∷ c ∷ d ∷ []) l p =
    let m = seven bits s a b c d false false false (omega arith) in
    (m.0, (m.1.0, (m.1.1.0, (m.1.1.1.0, tt))))
Marks-weight bits s (a ∷ b ∷ c ∷ d ∷ e ∷ []) l p =
    let m = seven bits s a b c d e false false (omega arith) in
    (m.0, (m.1.0, (m.1.1.0, (m.1.1.1.0, (m.1.1.1.1.0, tt)))))
Marks-weight bits s (a ∷ b ∷ c ∷ d ∷ e ∷ f ∷ []) l p =
    let m = seven bits s a b c d e f false (omega arith) in
    (m.0, (m.1.0, (m.1.1.0, (m.1.1.1.0, (m.1.1.1.1.0, (m.1.1.1.1.1.0, tt))))))
Marks-weight bits s (a ∷ b ∷ c ∷ d ∷ e ∷ f ∷ g ∷ []) l p =
    let m = seven bits s a b c d e f g (omega arith) in
    (m.0, (m.1.0, (m.1.1.0, (m.1.1.1.0, (m.1.1.1.1.0, (m.1.1.1.1.1.0, (m.1.1.1.1.1.1.0, tt)))))))
Marks-weight bits s (a ∷ b ∷ c ∷ d ∷ e ∷ f ∷ g ∷ h ∷ more) l p = absurd (omega arith)

-- How many of a byte's lower seven bits are set.
abbrev pub ones : ℕ → ℕ
ones b = bit_at b 0 + bit_at b 1 + bit_at b 2 + bit_at b 3 + bit_at b 4 + bit_at b 5 + bit_at b 6

ones_seven :
    (bits : ℕ) (s a b c d e f g : Bool)
    → bits
      ≡ digit s * 128
        + digit a * 64
        + digit b * 32
        + digit c * 16
        + digit d * 8
        + digit e * 4
        + digit f * 2
        + digit g
    → ones (bits % 2 ^ 7) ≡ digit a + digit b + digit c + digit d + digit e + digit f + digit g
ones_seven bits s a b c d e f g p =
    let ls = digit-lt s in
    let la = digit-lt a in
    let lb = digit-lt b in
    let lc = digit-lt c in
    let ld = digit-lt d in
    let le = digit-lt e in let lf = digit-lt f in let lg = digit-lt g in omega arith

pub ones-weight :
    (bits : ℕ) (s : Bool) (fs : List Bool)
    → length fs ≤ 7
    → bits ≡ digit s * 128 + weight 0 fs
    → ones (bits % 2 ^ 7) ≡ trues fs
unfolding weight trues digit
ones-weight bits s [] l p =
    omega (arith, ones_seven bits s false false false false false false false (omega arith))
ones-weight bits s (a ∷ []) l p =
    omega (arith, ones_seven bits s a false false false false false false (omega arith))
ones-weight bits s (a ∷ b ∷ []) l p =
    omega (arith, ones_seven bits s a b false false false false false (omega arith))
ones-weight bits s (a ∷ b ∷ c ∷ []) l p =
    omega (arith, ones_seven bits s a b c false false false false (omega arith))
ones-weight bits s (a ∷ b ∷ c ∷ d ∷ []) l p =
    omega (arith, ones_seven bits s a b c d false false false (omega arith))
ones-weight bits s (a ∷ b ∷ c ∷ d ∷ e ∷ []) l p =
    omega (arith, ones_seven bits s a b c d e false false (omega arith))
ones-weight bits s (a ∷ b ∷ c ∷ d ∷ e ∷ f ∷ []) l p =
    omega (arith, ones_seven bits s a b c d e f false (omega arith))
ones-weight bits s (a ∷ b ∷ c ∷ d ∷ e ∷ f ∷ g ∷ []) l p =
    omega (arith, ones_seven bits s a b c d e f g (omega arith))
ones-weight bits s (a ∷ b ∷ c ∷ d ∷ e ∷ f ∷ g ∷ h ∷ more) l p = absurd (omega arith)

flag_seven :
    (bits : ℕ) (s a b c d e f g : Bool)
    → bits
      ≡ digit s * 128
        + digit a * 64
        + digit b * 32
        + digit c * 16
        + digit d * 8
        + digit e * 4
        + digit f * 2
        + digit g
    → bit_at bits 7 ≡ digit s
flag_seven bits s a b c d e f g p =
    let ls = digit-lt s in
    let la = digit-lt a in
    let lb = digit-lt b in
    let lc = digit-lt c in
    let ld = digit-lt d in
    let le = digit-lt e in let lf = digit-lt f in let lg = digit-lt g in omega arith

pub flag-weight :
    (bits : ℕ) (s : Bool) (fs : List Bool)
    → length fs ≤ 7
    → bits ≡ digit s * 128 + weight 0 fs
    → bit_at bits 7 ≡ digit s
unfolding weight digit
flag-weight bits s [] l p =
    flag_seven bits s false false false false false false false (omega arith)
flag-weight bits s (a ∷ []) l p =
    flag_seven bits s a false false false false false false (omega arith)
flag-weight bits s (a ∷ b ∷ []) l p =
    flag_seven bits s a b false false false false false (omega arith)
flag-weight bits s (a ∷ b ∷ c ∷ []) l p =
    flag_seven bits s a b c false false false false (omega arith)
flag-weight bits s (a ∷ b ∷ c ∷ d ∷ []) l p =
    flag_seven bits s a b c d false false false (omega arith)
flag-weight bits s (a ∷ b ∷ c ∷ d ∷ e ∷ []) l p =
    flag_seven bits s a b c d e false false (omega arith)
flag-weight bits s (a ∷ b ∷ c ∷ d ∷ e ∷ f ∷ []) l p =
    flag_seven bits s a b c d e f false (omega arith)
flag-weight bits s (a ∷ b ∷ c ∷ d ∷ e ∷ f ∷ g ∷ []) l p =
    flag_seven bits s a b c d e f g (omega arith)
flag-weight bits s (a ∷ b ∷ c ∷ d ∷ e ∷ f ∷ g ∷ h ∷ more) l p = absurd (omega arith)

masked_seven :
    (bits : ℕ) (s a b c d e f g : Bool)
    → bits
      ≡ digit s * 128
        + digit a * 64
        + digit b * 32
        + digit c * 16
        + digit d * 8
        + digit e * 4
        + digit f * 2
        + digit g
    → bits % 2 ^ 7
      ≡ digit a * 64
        + digit b * 32
        + digit c * 16
        + digit d * 8
        + digit e * 4
        + digit f * 2
        + digit g
masked_seven bits s a b c d e f g p =
    let ls = digit-lt s in
    let la = digit-lt a in
    let lb = digit-lt b in
    let lc = digit-lt c in
    let ld = digit-lt d in
    let le = digit-lt e in let lf = digit-lt f in let lg = digit-lt g in omega arith

pub masked-weight :
    (bits : ℕ) (s : Bool) (fs : List Bool)
    → length fs ≤ 7
    → bits ≡ digit s * 128 + weight 0 fs
    → bits % 2 ^ 7 ≡ digit false * 128 + weight 0 fs
unfolding weight digit
masked-weight bits s [] l p =
    omega (arith, masked_seven bits s false false false false false false false (omega arith))
masked-weight bits s (a ∷ []) l p =
    omega (arith, masked_seven bits s a false false false false false false (omega arith))
masked-weight bits s (a ∷ b ∷ []) l p =
    omega (arith, masked_seven bits s a b false false false false false (omega arith))
masked-weight bits s (a ∷ b ∷ c ∷ []) l p =
    omega (arith, masked_seven bits s a b c false false false false (omega arith))
masked-weight bits s (a ∷ b ∷ c ∷ d ∷ []) l p =
    omega (arith, masked_seven bits s a b c d false false false (omega arith))
masked-weight bits s (a ∷ b ∷ c ∷ d ∷ e ∷ []) l p =
    omega (arith, masked_seven bits s a b c d e false false (omega arith))
masked-weight bits s (a ∷ b ∷ c ∷ d ∷ e ∷ f ∷ []) l p =
    omega (arith, masked_seven bits s a b c d e f false (omega arith))
masked-weight bits s (a ∷ b ∷ c ∷ d ∷ e ∷ f ∷ g ∷ []) l p =
    omega (arith, masked_seven bits s a b c d e f g (omega arith))
masked-weight bits s (a ∷ b ∷ c ∷ d ∷ e ∷ f ∷ g ∷ h ∷ more) l p = absurd (omega arith)
