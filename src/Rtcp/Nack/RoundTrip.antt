-- ===== src/Rtcp/Nack/RoundTrip.antt =====
-- Encoding missing sequences as ranges and expanding them again.
use ristgo.Prelude.{
  ℕ, zero, suc, ◌+◌, ◌%◌, ◌^◌, ◌≤◌, ◌<◌, ◌≡◌, refl, arith, Bool-cases, false, inl, inr,
}
use ristgo.Prelude.{List, [], ◌∷◌, ◌++◌, length, length-append, leb, ◌∙◌, ap, sym, ◌==◌, ltb, ◌&&◌}
use ristgo.Rtcp.Nack.{
  NackRange, RangeNack, Expansion, expand_range, expand_ranges, next16, Encoding, flush_range,
  encode_one, encode_loop, encode_range_nack, missing_seqs, last_packet,
}
use mathlib.Core.Path.{ap₂}
use mathlib.Core.List.{append-nil, append_assoc, map}

-- The sequences that a range stands for, without the guard.
abbrev range_seqs : ℕ → ℕ → List ℕ
range_seqs zero s = []
range_seqs (suc k) s = s ∷ range_seqs k (next16 s)

abbrev all_seqs : List NackRange → List ℕ
all_seqs [] = []
all_seqs (r ∷ rs) = range_seqs (suc r.extra) r.start ++ all_seqs rs

abbrev packet_seqs : List RangeNack → List ℕ
packet_seqs [] = []
packet_seqs (p ∷ ps) = all_seqs p.ranges ++ packet_seqs ps

range_seqs-more :
    (k s : ℕ) → s < 2 ^ 16 → range_seqs (suc k) s ≡ range_seqs k s ++ ((s + k) % 2 ^ 16 ∷ [])
range_seqs-more zero s h = let e : s ≡ (s + 0) % 2 ^ 16 = omega arith in ap (λ (n : ℕ). n ∷ []) e
range_seqs-more (suc k) s h =
    let e : (next16 s + k) % 2 ^ 16 ≡ (s + suc k) % 2 ^ 16 = omega arith in
    ap (λ (l : List ℕ). s ∷ l) (range_seqs-more k (next16 s) (omega arith))
    ∙ ap (λ (n : ℕ). s ∷ (range_seqs k (next16 s) ++ (n ∷ []))) e

all_seqs-append : (rs ts : List NackRange) → all_seqs (rs ++ ts) ≡ all_seqs rs ++ all_seqs ts
all_seqs-append [] ts = refl
all_seqs-append (r ∷ rs) ts =
    ap (λ (l : List ℕ). range_seqs (suc r.extra) r.start ++ l) (all_seqs-append rs ts)
    ∙ sym (append_assoc (range_seqs (suc r.extra) r.start) (all_seqs rs) (all_seqs ts))

packet_seqs-append :
    (ps ts : List RangeNack) → packet_seqs (ps ++ ts) ≡ packet_seqs ps ++ packet_seqs ts
packet_seqs-append [] ts = refl
packet_seqs-append (p ∷ ps) ts =
    ap (λ (l : List ℕ). all_seqs p.ranges ++ l) (packet_seqs-append ps ts)
    ∙ sym (append_assoc (all_seqs p.ranges) (packet_seqs ps) (packet_seqs ts))

-- What the encoder has taken in.
abbrev flushed : Encoding → List ℕ
flushed e = packet_seqs e.pkts ++ all_seqs e.pending

abbrev listed : Encoding → List ℕ
listed e = flushed e ++ range_seqs (suc e.cur.extra) e.cur.start

record Tracks (e : Encoding) : Type 0 where
  fits : e.cur.start < 2 ^ 16
  newest : e.newest ≡ (e.cur.start + e.cur.extra) % 2 ^ 16

flush_range-listed : (ssrc : ℕ) (e : Encoding) → flushed (flush_range ssrc e) ≡ listed e
unfolding flush_range
flush_range-listed ssrc e =
    let rs = e.pending ++ (e.cur ∷ []) in
    let joined : all_seqs rs ≡ all_seqs e.pending ++ range_seqs (suc e.cur.extra) e.cur.start =
      all_seqs-append e.pending (e.cur ∷ [])
      ∙ ap (λ (l : List ℕ). all_seqs e.pending ++ l)
          (append-nil (range_seqs (suc e.cur.extra) e.cur.start)) in
    let together =
      ap (λ (l : List ℕ). packet_seqs e.pkts ++ l) joined
      ∙ sym (
          append_assoc (packet_seqs e.pkts) (all_seqs e.pending)
            (range_seqs (suc e.cur.extra) e.cur.start)) in
    elim (Bool-cases (length rs == 16)) [
      | inl full ↦
          let p : RangeNack = record { media_ssrc = ssrc; ranges = rs } in
          rw full (
            append-nil (packet_seqs (e.pkts ++ (p ∷ [])))
            ∙ packet_seqs-append e.pkts (p ∷ [])
            ∙ ap (λ (l : List ℕ). packet_seqs e.pkts ++ l) (append-nil (all_seqs rs))
            ∙ together)
      | inr room ↦ rw room together
    ]

encode_one-Tracks :
    (ssrc s : ℕ) (e : Encoding) → s < 2 ^ 16 → Tracks e → Tracks (encode_one ssrc s e)
unfolding encode_one
encode_one-Tracks ssrc s e h t =
    elim (Bool-cases (s == next16 e.newest && ltb e.cur.extra 0xFFFF)) [
      | inl next ↦
          let at : s ≡ next16 e.newest = ground arith in
          rw next (record { fits = t.fits; newest = omega (arith, at, t.newest) })
      | inr apart ↦ rw apart (record { fits = h; newest = omega arith })
    ]

encode_one-listed :
    (ssrc s : ℕ) (e : Encoding)
    → s < 2 ^ 16
    → Tracks e
    → listed (encode_one ssrc s e) ≡ listed e ++ (s ∷ [])
unfolding encode_one
encode_one-listed ssrc s e h t =
    elim (Bool-cases (s == next16 e.newest && ltb e.cur.extra 0xFFFF)) [
      | inl next ↦
          let at : s ≡ next16 e.newest = ground arith in
          let end : (e.cur.start + suc e.cur.extra) % 2 ^ 16 ≡ s = omega (arith, at, t.newest) in
          let longer : e.cur.extra + 1 ≡ suc e.cur.extra = omega arith in
          rw (next, longer)
            (ap (λ (l : List ℕ). flushed e ++ l)
                (range_seqs-more (suc e.cur.extra) e.cur.start t.fits
                  ∙ ap (λ (n : ℕ). range_seqs (suc e.cur.extra) e.cur.start ++ (n ∷ [])) end)
              ∙ sym (append_assoc (flushed e) (range_seqs (suc e.cur.extra) e.cur.start) (s ∷ [])))
      | inr apart ↦ rw apart (ap (λ (l : List ℕ). l ++ (s ∷ [])) (flush_range-listed ssrc e))
    ]

abbrev pub cut : ℕ → ℕ
cut m = m % 2 ^ 16

encode_loop-listed :
    (ssrc : ℕ) (ms : List ℕ) (e : Encoding)
    → Tracks e
    → listed (encode_loop ssrc ms e) ≡ listed e ++ map cut ms
unfolding encode_loop
encode_loop-listed ssrc [] e t = sym (append-nil (listed e))
encode_loop-listed ssrc (m ∷ ms) e t =
    let s = m % 2 ^ 16 in
    encode_loop-listed ssrc ms (encode_one ssrc s e) (encode_one-Tracks ssrc s e (omega arith) t)
    ∙ ap (λ (l : List ℕ). l ++ map cut ms) (encode_one-listed ssrc s e (omega arith) t)
    ∙ append_assoc (listed e) (s ∷ []) (map cut ms)

encode-packet_seqs :
    (sender media : ℕ) (missing : List ℕ)
    → packet_seqs (encode_range_nack sender media missing) ≡ map cut missing
unfolding encode_range_nack
encode-packet_seqs sender media [] = refl
encode-packet_seqs sender media (m ∷ ms) =
    let e0 : Encoding = record {
      pkts = [];
      pending = [];
      cur = record { start = m % 2 ^ 16; extra = 0 };
      newest = m % 2 ^ 16;
    } in
    let loop = encode_loop media ms e0 in
    let e = flush_range media loop in
    packet_seqs-append e.pkts (last_packet media e.pending)
    ∙ ap (λ (l : List ℕ). packet_seqs e.pkts ++ l) (last_packet-seqs media e.pending)
    ∙ flush_range-listed media loop
    ∙ encode_loop-listed media ms e0 (record { fits = omega arith; newest = omega arith })
  where
    last_packet-seqs :
        (media : ℕ) (rs : List NackRange) → packet_seqs (last_packet media rs) ≡ all_seqs rs
    last_packet-seqs media [] = refl
    last_packet-seqs media (r ∷ rs) = append-nil (all_seqs (r ∷ rs))

-- An expansion under way, not stopped by the guard.
abbrev going : List ℕ → ℕ → Expansion
going dst n = record { dst = dst; appended = n; full = false }

-- Below the guard, the expansion is the plain one.
expand_range-plain :
    (k s : ℕ) (dst : List ℕ) (n : ℕ)
    → n + k ≤ 2 ^ 16
    → expand_range k s (going dst n) ≡ going (dst ++ range_seqs k s) (n + k)
unfolding expand_range
expand_range-plain zero s dst n h =
    let same : n ≡ n + 0 = omega arith in ap₂ going (sym (append-nil dst)) same
expand_range-plain (suc k) s dst n h =
    let room : leb (2 ^ 16) n ≡ false = ground arith in
    let rest = expand_range-plain k (next16 s) (dst ++ (s ∷ [])) (n + 1) (omega arith) in
    let count : n + 1 + k ≡ n + suc k = omega arith in
    rw room (rest ∙ ap₂ going (append_assoc dst (s ∷ []) (range_seqs k (next16 s))) count)

range_seqs-length : (k s : ℕ) → length (range_seqs k s) ≡ k
range_seqs-length zero s = refl
range_seqs-length (suc k) s = ap suc (range_seqs-length k (next16 s))

expand_ranges-plain :
    (rs : List NackRange) (dst : List ℕ) (n : ℕ)
    → n + length (all_seqs rs) ≤ 2 ^ 16
    → (expand_ranges rs (going dst n)).dst ≡ dst ++ all_seqs rs
unfolding expand_ranges
expand_ranges-plain [] dst n h = sym (append-nil dst)
expand_ranges-plain (r ∷ rs) dst n h =
    let k = r.extra + 1 in
    let seqs = range_seqs (suc r.extra) r.start in
    let rounds : k ≡ suc r.extra = omega arith in
    let sizes : length (all_seqs (r ∷ rs)) ≡ suc r.extra + length (all_seqs rs) =
      length-append seqs (all_seqs rs)
      ∙ ap (λ (l : ℕ). l + length (all_seqs rs)) (range_seqs-length (suc r.extra) r.start) in
    let once : expand_range k r.start (going dst n) ≡ going (dst ++ seqs) (n + suc r.extra) =
      rw rounds (expand_range-plain (suc r.extra) r.start dst n (omega (arith, sizes))) in
    rw once (
      expand_ranges-plain rs (dst ++ seqs) (n + suc r.extra) (omega (arith, sizes))
      ∙ append_assoc dst seqs (all_seqs rs))

-- What a receiver reads out of a list of packets.
abbrev pub decoded : List RangeNack → List ℕ
decoded [] = []
decoded (p ∷ ps) = missing_seqs p ++ decoded ps

decoded-plain :
    (ps : List RangeNack) → length (packet_seqs ps) ≤ 2 ^ 16 → decoded ps ≡ packet_seqs ps
unfolding missing_seqs
decoded-plain [] h = refl
decoded-plain (p ∷ ps) h =
    let sizes = length-append (all_seqs p.ranges) (packet_seqs ps) in
    ap₂ (λ (k l : List ℕ). k ++ l) (expand_ranges-plain p.ranges [] 0 (omega (arith, sizes)))
      (decoded-plain ps (omega (arith, sizes)))

length-cut : (ms : List ℕ) → length (map cut ms) ≡ length ms
length-cut [] = refl
length-cut (m ∷ ms) = ap suc (length-cut ms)

-- At most 65536 missing sequences, encoded as range NACKs and expanded again packet by packet, are
-- the same sequences in the same order, each cut to 16 bits.
pub decoded-encode_range_nack :
    (sender media : ℕ) (missing : List ℕ)
    → length missing ≤ 2 ^ 16
    → decoded (encode_range_nack sender media missing) ≡ map cut missing
decoded-encode_range_nack sender media missing h =
    let plain = encode-packet_seqs sender media missing in
    let size : length (packet_seqs (encode_range_nack sender media missing)) ≤ 2 ^ 16 =
      omega (arith, ap length plain, length-cut missing) in
    decoded-plain (encode_range_nack sender media missing) size ∙ plain
