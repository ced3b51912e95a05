-- ===== src/Replay/Accepted.antt =====
-- The window against the list of all sequence numbers marked so far.
use ristgo.Prelude.{ℕ, zero, suc, ◌+◌, ◌-◌, ◌*◌, ◌%◌, ◌^◌, ◌≤◌, ◌<◌, ◌≡◌, refl, arith, ap, ◌⊎◌}
use ristgo.Prelude.{Bool, true, false, not, ◌||◌, ◌&&◌, bit_and, bit_or, max, List, [], ◌∷◌}
use ristgo.Prelude.{ltb, ◌==◌, inl, inr}
use ristgo.Prelude.Bits.{
  bit, bit-bit_or, bit_le_one, bit-pow_self, bit-pow_ne, bit_and-pow, pow_pos, bit-shift_low,
  bit-shift_high, bit-mod_low, bit-one_suc,
}
use ristgo.Replay.{Window, empty, check, mark}

-- The numbers marked, newest first, with the window that they leave.
abbrev pub mark_all : List ℕ → Window
mark_all [] = empty
mark_all (x ∷ xs) = mark (mark_all xs) x

abbrev pub mem : ℕ → List ℕ → Bool
mem s [] = false
mem s (x ∷ xs) = s == x || mem s xs

abbrev pub greatest : List ℕ → ℕ
greatest [] = 0
greatest (x ∷ xs) = max x (greatest xs)

-- The specification: new if nothing was marked or above everything marked; otherwise less than 64
-- below the greatest number marked, and not itself marked.
abbrev pub acceptable : List ℕ → ℕ → Bool
acceptable [] s = true
acceptable (x ∷ xs) s = not (mem s (x ∷ xs)) && ltb (greatest (x ∷ xs)) (s + 64)

abbrev flag : Bool → ℕ
flag true = 1
flag false = 0

-- The window tells the numbers marked among the last 64.
record Tracks (w : Window) (xs : List ℕ) : Type 0 where
  was_seen : w.seen ≡ true
  edge : w.right ≡ greatest xs
  bits : (d s : ℕ) → d < 64 → s + d ≡ greatest xs → bit w.bitmap d ≡ flag (mem s xs)

above_greatest : (s : ℕ) (xs : List ℕ) → greatest xs < s → mem s xs ≡ false
above_greatest s [] h = refl
above_greatest s (x ∷ xs) h = ground (arith, above_greatest s xs)

bit_one : (d : ℕ) → bit 1 d ≡ flag (d == 0)
bit_one zero = refl
bit_one (suc d) = rw (bit-one_suc d) (ground arith)

-- The bits after a shift by `k` below 64.
bit_slid :
    (b k d e : ℕ)
    → d < 64
    → d ≡ k + e
    → bit (bit_or (b * 2 ^ k % 2 ^ 64) 1) d ≡ max (bit b e) (bit 1 d)
bit_slid b k d e h q =
    rw (
      bit-bit_or d (b * 2 ^ k % 2 ^ 64) 1,
      bit-mod_low 64 (b * 2 ^ k) d h,
      bit-shift_high k b e d q,
    )

bit_slid_low : (b k d : ℕ) → d < 64 → d < k → bit (bit_or (b * 2 ^ k % 2 ^ 64) 1) d ≡ bit 1 d
bit_slid_low b k d h q =
    rw (bit-bit_or d (b * 2 ^ k % 2 ^ 64) 1, bit-mod_low 64 (b * 2 ^ k) d h, bit-shift_low k b d q)
      (omega arith)

-- `check` reads the bit of its number.
bit_test : (b d : ℕ) → (bit_and b (2 ^ d) == 0) ≡ (bit b d == 0)
bit_test b d = elim (zero_or_one (bit b d) (bit_le_one d b)) [
  | inl e ↦ rw (bit_and-pow d b, e) (ground arith)
  | inr e ↦ rw (bit_and-pow d b, e) (ground (arith, pow_pos d))
]
  where
    zero_or_one : (n : ℕ) → n ≤ 1 → (n ≡ 0) ⊎ (n ≡ 1)
    zero_or_one n h = ground arith

check-bit :
    (w : Window) (s d : ℕ)
    → w.seen ≡ true
    → s + d ≡ w.right
    → d < 64
    → check w s ≡ (bit w.bitmap d == 0)
unfolding check
check-bit w s d h e l =
    let q : w.right - s ≡ d = omega arith in
    let t : (bit_and w.bitmap (2 ^ (w.right - s)) == 0) ≡ (bit w.bitmap d == 0) =
      rw q (bit_test w.bitmap d) in
    ground (arith, t)

module _ (w : Window) (xs : List ℕ) (x : ℕ) (t : Tracks w xs) where
  -- The new bit of each number, in the four cases of `mark`.
  new_bits :
      (d s : ℕ)
      → d < 64
      → s + d ≡ max x (greatest xs)
      → bit (mark w x).bitmap d ≡ flag (s == x || mem s xs)
  unfolding mark
  new_bits d s h e =
      let k = x - w.right in
      ground (
        arith,
        t.was_seen,
        t.edge,
        t.bits d s,
        t.bits (d - k) s,
        above_greatest s xs,
        bit_one d,
        bit_slid w.bitmap k d (d - k),
        bit_slid_low w.bitmap k d,
        bit-bit_or d w.bitmap (2 ^ (w.right - x)),
        bit-pow_ne (w.right - x) d,
        bit-pow_self d,
        ap (λ (n : ℕ). bit (2 ^ n) d),
        bit_le_one d w.bitmap,
      )

  mark-Tracks : Tracks (mark w x) (x ∷ xs)
  mark-Tracks = record { was_seen = seen_on; edge = edge_moves; bits = new_bits }
    where
      seen_on : (mark w x).seen ≡ true
      seen_on = unfold mark in ground (arith, t.was_seen)

      edge_moves : (mark w x).right ≡ max x (greatest xs)
      edge_moves = unfold mark in ground (arith, t.was_seen, t.edge)

mark_first-Tracks : (x : ℕ) → Tracks (mark empty x) (x ∷ [])
unfolding mark
mark_first-Tracks x = record {
  was_seen = refl;
  edge = omega arith;
  bits = λ d s h e. ground (arith, bit_one d);
}

mark_all-Tracks : (x : ℕ) (xs : List ℕ) → Tracks (mark_all (x ∷ xs)) (x ∷ xs)
mark_all-Tracks x [] = mark_first-Tracks x
mark_all-Tracks x (y ∷ ys) = mark-Tracks (mark_all (y ∷ ys)) (y ∷ ys) x (mark_all-Tracks y ys)

check-Tracks :
    (w : Window) (x : ℕ) (xs : List ℕ) (s : ℕ)
    → Tracks w (x ∷ xs)
    → check w s ≡ acceptable (x ∷ xs) s
check-Tracks w x xs s t =
    let d = w.right - s in
    unfold check in
    ground (arith, t.was_seen, t.edge, t.bits d s, above_greatest s (x ∷ xs), bit_test w.bitmap d)

-- After any sequence of marks, `check` accepts exactly the numbers that the specification accepts:
-- any number at first; later the numbers never marked that are less than 64 below the greatest
-- number marked, or above it.
pub check-mark_all : (xs : List ℕ) (s : ℕ) → check (mark_all xs) s ≡ acceptable xs s
check-mark_all [] s = unfold check in refl
check-mark_all (x ∷ xs) s = check-Tracks (mark_all (x ∷ xs)) x xs s (mark_all-Tracks x xs)
