-- ===== src/Rtcp/Nack/Expanding.antt =====
-- The bound on what a NACK expands to.
use ristgo.Prelude.{ℕ, zero, suc, ◌+◌, ◌^◌, ◌≤◌, ◌≡◌, refl, arith, Bool, true, false}
use ristgo.Prelude.{List, [], ◌∷◌, ◌++◌, length, length-append, leb, if◌then◌else◌, some}
use ristgo.Rtcp.Nack.{
  NackRange, Expansion, expand_range, expand_ranges, next16, max_nack_expand, Packet, range,
  bitmask, other, decode_nack, NackPair, follower, expand_bits, append_missing_bitmask,
}

-- The count is right and within the guard.
abbrev Guarded : Expansion → Type 0
Guarded x = (length x.dst ≡ x.appended) × (x.appended ≤ 2 ^ 16)

expand_range-Guarded :
    (rounds s : ℕ) (x : Expansion) → Guarded x → Guarded (expand_range rounds s x)
unfolding expand_range
expand_range-Guarded zero s x g = g
expand_range-Guarded (suc rounds) s x g =
    let more =
      expand_range-Guarded rounds (next16 s)
        (record x { dst = x.dst ++ (s ∷ []); appended = x.appended + 1 }) in
    ground (arith, more, g, length-append x.dst (s ∷ []))

if-Guarded : (b : Bool) (x y : Expansion) → Guarded x → Guarded y → Guarded (if b then x else y)
if-Guarded true x y g h = g
if-Guarded false x y g h = h

expand_ranges-Guarded :
    (rs : List NackRange) (x : Expansion) → Guarded x → Guarded (expand_ranges rs x)
unfolding expand_ranges
expand_ranges-Guarded [] x g = g
expand_ranges-Guarded (r ∷ rs) x g =
    let once = expand_range-Guarded (r.extra + 1) r.start x g in
    if-Guarded (expand_range (r.extra + 1) r.start x).full _ _ once
      (expand_ranges-Guarded rs (expand_range (r.extra + 1) r.start x) once)

expand_bits-length :
    (rounds i : ℕ) (n : NackPair) (dst : List ℕ)
    → length dst ≤ 2 ^ 16
    → length (expand_bits rounds i n dst).0 ≤ 2 ^ 16
unfolding expand_bits
expand_bits-length zero i n dst h = h
expand_bits-length (suc rounds) i n dst h =
    let out = dst ++ (follower n i ∷ []) in
    ground (
      arith,
      length-append dst (follower n i ∷ []),
      expand_bits-length rounds (i + 1) n dst h,
      expand_bits-length rounds (i + 1) n out,
    )

pushed-length :
    (dst : List ℕ) (s : ℕ)
    → leb max_nack_expand (length dst) ≡ false
    → length (dst ++ (s ∷ [])) ≤ 2 ^ 16
pushed-length dst s room = ground (arith, length-append dst (s ∷ []))

three-length :
    (b c : Bool) (k l m : List ℕ)
    → length k ≤ 2 ^ 16
    → (b ≡ false → length l ≤ 2 ^ 16)
    → (b ≡ false → length m ≤ 2 ^ 16)
    → length (if b then k else if c then l else m) ≤ 2 ^ 16
three-length true c k l m hk hl hm = hk
three-length false true k l m hk hl hm = hl refl
three-length false false k l m hk hl hm = hm refl

append_missing_bitmask-length :
    (ns : List NackPair) (dst : List ℕ)
    → length dst ≤ 2 ^ 16
    → length (append_missing_bitmask ns dst) ≤ 2 ^ 16
unfolding append_missing_bitmask
append_missing_bitmask-length [] dst h = h
append_missing_bitmask-length (n ∷ ns) dst h =
    let out = dst ++ (n.pid ∷ []) in
    three-length (leb max_nack_expand (length dst)) (expand_bits 16 0 n out).1 dst
      (expand_bits 16 0 n out).0 _ h
      (λ room. expand_bits-length 16 0 n out (pushed-length dst n.pid room))
      (λ room.
        append_missing_bitmask-length ns (expand_bits 16 0 n out).0
          (expand_bits-length 16 0 n out (pushed-length dst n.pid room)))

-- However many records a NACK has, and whatever they say, it expands to at most 65536 sequences.
pub decode_nack-length : (p : Packet) (ns : List ℕ) → decode_nack p ≡ some ns → length ns ≤ 2 ^ 16
unfolding decode_nack
decode_nack-length (range p) ns e =
    let (right, few) =
      expand_ranges-Guarded p.ranges (record { dst = []; appended = 0; full = false })
        (refl, omega arith) in
    ground (arith, right, few, e)
decode_nack-length (bitmask p) ns e = ground (arith, append_missing_bitmask-length p.fcis [], e)
decode_nack-length other ns e = absurd (ground arith)
