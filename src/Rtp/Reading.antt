-- ===== src/Rtp/Reading.antt =====
-- How rtp.go reads a header's bytes back.
use ristgo.Prelude.{ℕ, ◌+◌, ◌*◌, ◌/◌, ◌%◌, ◌^◌, ◌<◌, ◌≡◌, refl, arith, Bool, true, false}
use ristgo.Prelude.{
  ◌++◌, List, [], ◌∷◌, length, ltb, ◌==◌, take-front, drop-front, length-append, All, ap,
}
use ristgo.Prelude.Bytes.{Bytes, put16, put32, get16, bit_at, get16-put16, get32-put32}
use ristgo.Prelude.Results.{ok}
use ristgo.Rtp.{Header, read_csrc, with_fixed, unmarshal, put_csrc}

abbrev pub Is32 : ℕ → Type 0
Is32 n = n < 2 ^ 32

pub length-put_csrc : (cs : List ℕ) → length (put_csrc cs) ≡ length cs * 4
length-put_csrc [] = refl
length-put_csrc (c ∷ cs) = omega (arith, length-put_csrc cs)

pub read-put_csrc :
    (cs : List ℕ) (rest : Bytes) → All Is32 cs → read_csrc (length cs) (put_csrc cs ++ rest) ≡ cs
read-put_csrc [] rest a = refl
read-put_csrc (c ∷ cs) rest (l, ls) =
    λ i. get32-put32 c (put_csrc cs ++ rest) l i ∷ read-put_csrc cs rest ls i

-- A header's bytes from its first two, with what follows the fixed part.
unfoldable pub fixed : (f0 f1 s t r : ℕ) → Bytes → Bytes
fixed f0 f1 s t r body = f0 ∷ f1 ∷ (put16 s ++ (put32 t ++ (put32 r ++ body)))

module _ (f0 f1 v pt s t r : ℕ) (p m : Bool) (cs : List ℕ) (version_back : f0 / 2 ^ 6 ≡ v)
    (padding_back : (bit_at f0 5 == 1) ≡ p) (count_back : f0 % 2 ^ 4 ≡ length cs)
    (marker_back : (f1 / 2 ^ 7 == 1) ≡ m) (type_back : f1 % 2 ^ 7 ≡ pt) (ls : s < 2 ^ 16)
    (lt : t < 2 ^ 32) (lr : r < 2 ^ 32) (lcs : All Is32 cs) where
  unfoldable pub made : Bool → ℕ → Bytes → Header
  made x profile payload = record {
    version = v;
    padding = p;
    extension = x;
    csrc_count = length cs;
    marker = m;
    payload_type = pt;
    sequence_number = s;
    timestamp = t;
    ssrc = r;
    csrc = cs;
    extension_profile = profile;
    extension_payload = payload;
  }

  with_fixed-made :
      (body payload : Bytes) (profile : ℕ) (x : Bool)
      → (bit_at f0 4 == 1) ≡ x
      → with_fixed (fixed f0 f1 s t r body) cs profile payload ≡ made x profile payload
  unfolding fixed made
  with_fixed-made body payload profile x e = λ i. record {
    version = version_back i;
    padding = padding_back i;
    extension = e i;
    csrc_count = count_back i;
    marker = marker_back i;
    payload_type = type_back i;
    sequence_number = get16-put16 s [] ls i;
    timestamp = get32-put32 t [] lt i;
    ssrc = get32-put32 r [] lr i;
    csrc = cs;
    extension_profile = profile;
    extension_payload = payload;
  }

  length-fixed : (body : Bytes) → length (fixed f0 f1 s t r body) ≡ 12 + length body
  unfolding fixed
  length-fixed body = omega arith

  pub unmarshal-plain :
      (rest : Bytes)
      → (bit_at f0 4 == 1) ≡ false
      → unmarshal (fixed f0 f1 s t r (put_csrc cs ++ rest))
        ≡ ok (made false 0 [], 12 + length cs * 4)
  unfolding unmarshal fixed
  unmarshal-plain rest e =
      let long = length-append (put_csrc cs) rest in
      let many = length-put_csrc cs in
      let whole = length-fixed (put_csrc cs ++ rest) in
      let a : ltb (length (fixed f0 f1 s t r (put_csrc cs ++ rest))) 12 ≡ false = ground arith in
      let b : ltb (length (fixed f0 f1 s t r (put_csrc cs ++ rest))) (12 + length cs * 4) ≡ false =
        ground arith in
      let back = with_fixed-made (put_csrc cs ++ rest) [] 0 false e in
      rw (a, count_back, b, e, read-put_csrc cs rest lcs)
        (ap (λ h. ok (h, 12 + length cs * 4)) (rw (count_back, e) at back))

  pub unmarshal-extended :
      (profile : ℕ) (payload rest : Bytes)
      → (bit_at f0 4 == 1) ≡ true
      → profile < 2 ^ 16
      → length payload % 4 ≡ 0
      → length payload / 4 < 2 ^ 16
      → let n = 12 + length cs * 4 + 4 + length payload in
        unmarshal (
          fixed f0 f1 s t r
            (put_csrc cs ++ (put16 profile ++ (put16 (length payload / 4) ++ (payload ++ rest)))))
        ≡ ok (made true profile payload, n)
  unfolding unmarshal fixed
  unmarshal-extended profile payload rest e lp aligned few =
      let tail = put16 profile ++ (put16 (length payload / 4) ++ (payload ++ rest)) in
      let long = length-append (put_csrc cs) tail in
      let paid = length-append payload rest in
      let many = length-put_csrc cs in
      let whole = length-fixed (put_csrc cs ++ tail) in
      let n = 12 + length cs * 4 in
      let size = length (fixed f0 f1 s t r (put_csrc cs ++ tail)) in
      let words : get16 (put16 (length payload / 4) ++ (payload ++ rest)) * 4 ≡ length payload =
        omega arith in
      let a : ltb size 12 ≡ false = ground arith in
      let b : ltb size n ≡ false = ground arith in
      let c : ltb size (n + 4) ≡ false = ground arith in
      let d : ltb size (n + 4 + length payload) ≡ false = ground arith in
      let back = with_fixed-made (put_csrc cs ++ tail) payload profile true e in
      rw
        (
          a,
          count_back,
          b,
          e,
          read-put_csrc cs tail lcs,
          drop-front (length cs * 4) (put_csrc cs) tail many,
          words,
          c,
          d,
          get16-put16 profile [] lp,
          take-front (length payload) payload rest refl,
        )
        (ap (λ h. ok (h, n + 4 + length payload)) (rw (count_back, e) at back))
