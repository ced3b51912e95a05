-- ===== src/Seq.antt =====
-- internal/seq/seq.go: circular sequence numbers of 16 and 32 bits.
-- The generic functions over `numeric` take the width; Num16 and Num32 are the two widths.
pub mod Laws
mod Tests
use ristgo.Prelude.{ℕ, ◌+◌, ◌-◌, ◌/◌, ◌%◌, ◌^◌, ◌<◌, Bool, true, false, ◌&&◌, not, arith}
use ristgo.Prelude.{ltb, leb, ◌==◌, if◌then◌else◌}
use ristgo.Prelude.Int.{ℤ, pos, negsuc, ◌-ℤ◌, to_word}

-- The type set of `numeric`: ~uint16 | ~uint32.
pub data Width : Type 0 where
  w16 w32 : Width

-- The number of values of the type; `^T(0)` is one less.
abbrev pub card : Width → ℕ
card w16 = 2 ^ 16
card w32 = 2 ^ 32

abbrev pub IsNum : Width → ℕ → Type 0
IsNum w a = a < card w

-- `a + b` and `b - a` in an unsigned type.
abbrev pub add_word : Width → ℕ → ℕ → ℕ
add_word w a b = (a + b) % card w

abbrev pub sub_word : Width → ℕ → ℕ → ℕ
sub_word w b a = (b + card w - a) % card w

unfoldable pub half : Width → ℕ
half w = (card w - 1) / 2 + 1

unfoldable pub distance : Width → ℕ → ℕ → ℤ
unfolding half ◌-ℤ◌
distance w a b =
    let d = sub_word w b a in
    if d == 0 then pos d else if leb d (half w) then pos d else pos d -ℤ pos (card w - 1) -ℤ pos 1

unfoldable pub less : Width → ℕ → ℕ → Bool
unfolding half
less w a b = let d = sub_word w b a in not (d == 0) && leb d (half w)

unfoldable pub compare : Width → ℕ → ℕ → ℤ
unfolding less
compare w a b = if a == b then pos 0 else if less w a b then negsuc 0 else pos 1

unfoldable pub forward_gap : Width → ℕ → ℕ → ℕ × Bool
unfolding half
forward_gap w a b = let gap = sub_word w b a in (gap, leb gap (half w))

unfoldable pub inc : Width → ℕ → ℕ
inc w a = add_word w a 1

unfoldable pub dec : Width → ℕ → ℕ
dec w a = sub_word w a 1

-- `a + Num16(n)`: the conversion takes `n` modulo the width.
unfoldable pub add : Width → ℕ → ℤ → ℕ
unfolding to_word
add w a n = add_word w a (to_word (card w) n)

unfoldable pub sub : Width → ℕ → ℤ → ℕ
unfolding to_word
sub w a n = sub_word w a (to_word (card w) n)

-- The constants of the package.
abbrev pub half16 : ℕ
half16 = 0x8000

abbrev pub half32 : ℕ
half32 = 0x80000000

abbrev pub max_gap16 : ℕ
max_gap16 = 2 ^ 15

abbrev pub max_gap32 : ℕ
max_gap32 = 2 ^ 31
