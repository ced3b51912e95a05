-- ===== src/Npd/RoundTrip.antt =====
-- What Suppress of npd.go leaves out, Expand puts back.
use ristgo.Prelude.{ℕ, zero, suc, ◌+◌, ◌-◌, ◌*◌, ◌/◌, ◌%◌, ◌^◌, ◌≤◌, ◌<◌, ◌≡◌, refl, arith}
use ristgo.Prelude.{
  Bool, true, false, List, [], ◌∷◌, ◌++◌, length, take, drop, length-take, length-drop,
  length-append, ◌==◌, if◌then◌else◌, ltb, ◌&&◌,
}
use ristgo.Prelude.{Bool-cases, take-append-drop, inl, inr, take-front, drop-front, ◌∙◌, sym, ap}
use native.Mathlib.Decide.{dec_lt, ℕ_discrete}
use mathlib.Core.List.{append-nil, append_assoc}
use ristgo.Prelude.Bytes.{Bytes}
use ristgo.Prelude.Digits.{digit}
use ristgo.Prelude.Results.{Result, ok, err}
use ristgo.Npd.{
  max_packets, suppress_packets, NpdError, is_null, mark_nulls, keep_packets, suppress, keep_marked,
  null_packet, expand, expand_packets, bits_set, clear_bits, packet_size,
}
use ristgo.Npd.Marks.{
  nulls, trues, weight, Marks, length-nulls, mark_nulls-weight, Marks-weight, ones, ones-weight,
  flag-weight, masked-weight,
}

-- The stream that a receiver should see: every null packet in the standard form.
unfoldable pub restored : (count size : ℕ) → Bytes → Bytes
restored zero size b = []
restored (suc count) size b =
    (if is_null b then null_packet size else take size b) ++ restored count size (drop size b)

-- The packets that are sent.
kept : (count size : ℕ) → Bytes → Bytes
kept zero size b = []
kept (suc count) size b = (if is_null b then [] else take size b) ++ kept count size (drop size b)

keep_packets-kept :
    (count i size bits : ℕ) (b out : Bytes)
    → Marks i bits (nulls count size b)
    → keep_packets count i size bits b out ≡ out ++ kept count size b
unfolding keep_packets kept nulls
keep_packets-kept zero i size bits b out m = sym (append-nil out)
keep_packets-kept (suc count) i size bits b out (m, ms) =
    let ih = λ (o : Bytes). keep_packets-kept count (i + 1) size bits (drop size b) o ms in
    elim (Bool-cases (is_null b)) [
      | inl null ↦ rw (m, null) (ih out)
      | inr live ↦ rw (m, live) (ih (out ++ take size b) ∙ append_assoc out (take size b) _)
    ]

length-kept :
    (count size : ℕ) (b : Bytes)
    → length b ≡ count * size
    → length (kept count size b) + trues (nulls count size b) * size ≡ count * size
unfolding kept trues nulls digit
length-kept zero size b e = omega arith
length-kept (suc count) size b e =
    let rest : length (drop size b) ≡ count * size = omega (arith, length-drop size b) in
    let ih = length-kept count size (drop size b) rest in
    let front : length (take size b) ≡ size = omega (arith, length-take size b) in
    elim (Bool-cases (is_null b)) [
      | inl null ↦ rw null (omega (arith, ih))
      | inr live ↦
          rw live (omega (arith, ih, length-append (take size b) (kept count size (drop size b))))
    ]

expand_packets-kept :
    (count i size bits : ℕ) (b out : Bytes)
    → length b ≡ count * size
    → Marks i bits (nulls count size b)
    → expand_packets count i size bits (kept count size b) out ≡ ok (out ++ restored count size b)
unfolding kept nulls restored expand_packets
expand_packets-kept zero i size bits b out e m = ap ok (sym (append-nil out))
expand_packets-kept (suc count) i size bits b out e (m, ms) =
    let rest : length (drop size b) ≡ count * size = omega (arith, length-drop size b) in
    let front : length (take size b) ≡ size = omega (arith, length-take size b) in
    let later = kept count size (drop size b) in
    let ih = λ (o : Bytes). expand_packets-kept count (i + 1) size bits (drop size b) o rest ms in
    elim (Bool-cases (is_null b)) [
      | inl null ↦
          rw (m, null)
            (ih (out ++ null_packet size) ∙ ap ok (append_assoc out (null_packet size) _))
      | inr live ↦
          let sized : ltb (length (take size b ++ later)) size ≡ false =
            let whole = length-append (take size b) later in ground arith in
          rw
            (
              m,
              live,
              sized,
              take-front size (take size b) later front,
              drop-front size (take size b) later front,
            )
            (ih (out ++ take size b) ∙ ap ok (append_assoc out (take size b) _))
    ]

restored-same :
    (count size : ℕ) (b : Bytes)
    → length b ≡ count * size
    → trues (nulls count size b) ≡ 0
    → restored count size b ≡ b
unfolding restored nulls trues digit
restored-same zero size [] e z = refl
restored-same zero size (x ∷ b) e z = absurd (omega arith)
restored-same (suc count) size b e z =
    let rest : length (drop size b) ≡ count * size = omega (arith, length-drop size b) in
    elim (Bool-cases (is_null b)) [
      | inl null ↦ absurd (omega (arith, rw null at z))
      | inr live ↦
          let none : trues (nulls count size (drop size b)) ≡ 0 = omega (arith, z) in
          rw (live, restored-same count size (drop size b) rest none) (take-append-drop size b)
    ]

-- Every value of a byte without its highest bit.
all_below : ℕ → (ℕ → Bool) → Bool
all_below zero f = true
all_below (suc n) f = f n && all_below n f

bits_set-checked : all_below 128 (λ b. bits_set b == ones b) ≡ true
unfolding all_below bits_set clear_bits
bits_set-checked = refl

all_below-lt : (n k : ℕ) (f : ℕ → Bool) → all_below n f ≡ true → k < n → f k ≡ true
unfolding all_below
all_below-lt zero k f e l = absurd (omega arith)
all_below-lt (suc n) k f e l = elim (dec_lt k n) [
  | yes below ↦ all_below-lt n k f (ground arith) below
  | no above ↦ let last : k ≡ n = omega arith in rw last (ground arith)
]

bits_set-ones : (bits : ℕ) → bits_set (bits % 2 ^ 7) ≡ ones (bits % 2 ^ 7)
bits_set-ones bits =
    let checked =
      all_below-lt 128 (bits % 2 ^ 7) (λ b. bits_set b == ones b) bits_set-checked (omega arith) in
    ground arith

-- The packet size of the flag.
sized : Bool → ℕ
sized true = 204
sized false = 188

packets_left :
    (s : Bool) (len t count : ℕ) → len + t * sized s ≡ count * sized s → len / sized s + t ≡ count
unfolding sized
packets_left true len t count e = omega arith
packets_left false len t count e = omega arith

expand-none : (bits : ℕ) (x : Bytes) → bits_set (bits % 2 ^ 7) ≡ 0 → expand [] x bits ≡ ok x
unfolding expand
expand-none bits x e = rw e refl

expand-some :
    (bits size total k : ℕ) (x : Bytes)
    → packet_size bits ≡ size
    → bits_set (bits % 2 ^ 7) ≡ suc k
    → length x / size + suc k ≡ total
    → total ≤ 7
    → expand [] x bits ≡ expand_packets total 0 size (bits % 2 ^ 7) x []
unfolding expand
expand-some bits size total k x p n t l =
    let some : (suc k == 0) ≡ false = ground arith in
    let few : ltb 7 total ≡ false = ground arith in rw (p, n, t, some, few) refl

flagged : (s : Bool) → (if digit s == 1 then 204 else 188) ≡ sized s
unfolding sized digit
flagged true = refl
flagged false = refl

packet_size-sized :
    (bits : ℕ) (s : Bool) (fs : List Bool)
    → length fs ≤ 7
    → bits ≡ digit s * 128 + weight 0 fs
    → packet_size bits ≡ sized s
packet_size-sized bits s fs l e = rw (flag-weight bits s fs l e) (flagged s)

keep_marked-none :
    (b : Bytes) (size bits n : ℕ) (r : Bytes × ℕ × ℕ)
    → n ≡ 0
    → keep_marked [] b size (ok (bits, n)) ≡ ok r
    → (r.0 ≡ b) × (r.1 ≡ bits)
keep_marked-none b size bits n r z k =
    let e : (n == 0) ≡ true = ground arith in let f = rw e at k in (cc, cc)

keep_marked-some :
    (b : Bytes) (size bits n : ℕ) (r : Bytes × ℕ × ℕ)
    → (n == 0) ≡ false
    → keep_marked [] b size (ok (bits, n)) ≡ ok r
    → (r.0 ≡ keep_packets (length b / size) 0 size bits b []) × (r.1 ≡ bits)
keep_marked-some b size bits n r e k = let f = rw e at k in (cc, cc)

from_marks :
    (s : Bool) (count : ℕ) (b : Bytes) (q : Result NpdError (ℕ × ℕ)) (r : Bytes × ℕ × ℕ)
    → count ≤ 7
    → length b ≡ count * sized s
    → length b / sized s ≡ count
    → mark_nulls count 0 (sized s) b (digit s * 128) 0 ≡ q
    → keep_marked [] b (sized s) q ≡ ok r
    → expand [] r.0 r.1 ≡ ok (restored count (sized s) b)
from_marks s count b (err e) r l whole quotient m k = cc
from_marks s count b (ok (bits, n)) r l whole quotient m k =
    let fs = nulls count (sized s) b in
    let (value, number) = mark_nulls-weight count 0 (sized s) b (digit s * 128) 0 (bits, n) m in
    let few : length fs ≤ 7 = omega (arith, length-nulls count (sized s) b) in
    let marks = Marks-weight bits s fs few value in
    let masked = Marks-weight (bits % 2 ^ 7) false fs few (masked-weight bits s fs few value) in
    let set = bits_set-ones bits ∙ ones-weight bits s fs few value in
    let size = packet_size-sized bits s fs few value in
    let left =
      packets_left s (length (kept count (sized s) b)) (trues fs) count
        (length-kept count (sized s) b whole) in
    elim (ℕ_discrete n 0) [
      | yes nothing ↦
          let (same, marked) = keep_marked-none b (sized s) bits n r nothing k in
          let zero : trues fs ≡ 0 = omega arith in
          rw (same, marked)
            (expand-none bits b (set ∙ zero)
              ∙ ap ok (sym (restored-same count (sized s) b whole zero)))
      | no something ↦
          let (sent, marked) = keep_marked-some b (sized s) bits n r (ground arith) k in
          let again = keep_packets-kept count 0 (sized s) bits b [] marks in
          let some : trues fs ≡ suc (trues fs - 1) = omega arith in
          rw (sent, marked, quotient, again)
            (expand-some bits (sized s) count (trues fs - 1) (kept count (sized s) b) size
                (set ∙ some) (omega arith) l
              ∙ expand_packets-kept count 0 (sized s) (bits % 2 ^ 7) b [] whole masked)
    ]

whole_packets : (s : Bool) (n : ℕ) → n % sized s ≡ 0 → n ≡ n / sized s * sized s
unfolding sized
whole_packets true n e = omega arith
whole_packets false n e = omega arith

from_packets :
    (s : Bool) (b : Bytes) (r : Bytes × ℕ × ℕ)
    → length b % sized s ≡ 0
    → suppress_packets [] b (sized s) (digit s * 128) ≡ ok r
    → expand [] r.0 r.1 ≡ ok (restored (length b / sized s) (sized s) b)
from_packets s b r e f =
    let count = length b / sized s in
    elim (Bool-cases (ltb max_packets count)) [
      | inl many ↦ let g = rw many at f in cc
      | inr few ↦
          let g = rw few at f in
          from_marks s count b (mark_nulls count 0 (sized s) b (digit s * 128) 0) r (ground arith)
            (whole_packets s (length b) e) refl refl g
    ]

-- The stream with every null packet in the standard form, in packets of the size that Suppress takes.
unfoldable pub standard : Bytes → Bytes
unfolding restored
standard b =
    if length b % 188 == 0 then restored (length b / 188) 188 b else restored (length b / 204) 204 b

-- Whatever input Suppress accepts, Expand makes of its output and its bitmap the input again,
-- with every null packet in the standard form.
pub expand-suppress :
    (b : Bytes) (r : Bytes × ℕ × ℕ) → suppress [] b ≡ ok r → expand [] r.0 r.1 ≡ ok (standard b)
unfolding suppress standard sized digit
expand-suppress b r e = elim (Bool-cases (length b % 188 == 0)) [
  | inl short ↦ let f = rw short at e in rw short (from_packets false b r (ground arith) f)
  | inr other ↦ elim (Bool-cases (length b % 204 == 0)) [
    | inl long ↦ let f = rw (other, long) at e in rw other (from_packets true b r (ground arith) f)
    | inr neither ↦ let f = rw (other, neither) at e in cc
  ]
]
