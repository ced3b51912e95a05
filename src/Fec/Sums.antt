-- ===== src/Fec/Sums.antt =====
-- The sums that fec.go's encoder and decoder keep of a group: order does not matter, and twice is never.
use ristgo.Prelude.{ℕ, zero, suc, ◌%◌, ◌^◌, ◌≤◌, ◌≡◌, refl, sym, ap, ◌∙◌, arith, bit_xor}
use ristgo.Prelude.{List, [], ◌∷◌, ◌++◌, length, take}
use ristgo.Prelude.Bytes.{Bytes, replicate}
use ristgo.Prelude.Xor.{bit_xor-twice, bit_xor-swap, bit_xor-zero}
use ristgo.Fec.Group.{xor_into}
use ristgo.Fec.Decoder.{StoredMedia}

-- The sums of a group, which both ends accumulate.
pub record Sums : Type 0 where
  pub len : ℕ
  pub pt : ℕ
  pub ts : ℕ
  pub bytes : Bytes

abbrev pub step : Sums → StoredMedia → Sums
step c m = record {
  len = bit_xor c.len (length m.payload % 2 ^ 16);
  pt = bit_xor c.pt (m.pt % 2 ^ 7);
  ts = bit_xor c.ts m.ts;
  bytes = xor_into c.bytes m.payload;
}

xor_into-twice : (d s : Bytes) → xor_into (xor_into d s) s ≡ d
xor_into-twice [] s = refl
xor_into-twice (d ∷ ds) [] = refl
xor_into-twice (d ∷ ds) (s ∷ ss) = λ i. bit_xor-twice d s i ∷ xor_into-twice ds ss i

xor_into-swap : (d s t : Bytes) → xor_into (xor_into d s) t ≡ xor_into (xor_into d t) s
xor_into-swap [] s t = refl
xor_into-swap (d ∷ ds) [] [] = refl
xor_into-swap (d ∷ ds) [] (t ∷ ts) = refl
xor_into-swap (d ∷ ds) (s ∷ ss) [] = refl
xor_into-swap (d ∷ ds) (s ∷ ss) (t ∷ ts) = λ i. bit_xor-swap d s t i ∷ xor_into-swap ds ss ts i

pub length-xor_into : (d s : Bytes) → length (xor_into d s) ≡ length d
length-xor_into [] s = refl
length-xor_into (d ∷ ds) [] = refl
length-xor_into (d ∷ ds) (s ∷ ss) = omega (arith, length-xor_into ds ss)

-- A payload put into zeros.
pub take-xor_into :
    (n : ℕ) (p : Bytes) → length p ≤ n → take (length p) (xor_into (replicate n 0) p) ≡ p
take-xor_into n [] l = refl
take-xor_into zero (x ∷ p) l = absurd (omega arith)
take-xor_into (suc n) (x ∷ p) l = λ i. bit_xor-zero x i ∷ take-xor_into n p (omega arith) i

step-twice : (c : Sums) (m : StoredMedia) → step (step c m) m ≡ c
step-twice c m = λ i. record {
  len = bit_xor-twice c.len (length m.payload % 2 ^ 16) i;
  pt = bit_xor-twice c.pt (m.pt % 2 ^ 7) i;
  ts = bit_xor-twice c.ts m.ts i;
  bytes = xor_into-twice c.bytes m.payload i;
}

step-swap : (c : Sums) (m k : StoredMedia) → step (step c m) k ≡ step (step c k) m
step-swap c m k = λ i. record {
  len = bit_xor-swap c.len (length m.payload % 2 ^ 16) (length k.payload % 2 ^ 16) i;
  pt = bit_xor-swap c.pt (m.pt % 2 ^ 7) (k.pt % 2 ^ 7) i;
  ts = bit_xor-swap c.ts m.ts k.ts i;
  bytes = xor_into-swap c.bytes m.payload k.payload i;
}

unfoldable pub steps : Sums → List StoredMedia → Sums
steps c [] = c
steps c (m ∷ ms) = steps (step c m) ms

steps-swap :
    (c : Sums) (m : StoredMedia) (ms : List StoredMedia) → steps (step c m) ms ≡ step (steps c ms) m
unfolding steps
steps-swap c m [] = refl
steps-swap c m (k ∷ ms) = rw (step-swap c m k) (steps-swap (step c k) m ms)

steps-twice : (c : Sums) (ms : List StoredMedia) → steps (steps c ms) ms ≡ c
unfolding steps
steps-twice c [] = refl
steps-twice c (m ∷ ms) = rw (sym (steps-swap (step c m) m ms), step-twice c m) (steps-twice c ms)

pub steps-append :
    (c : Sums) (ms ks : List StoredMedia) → steps c (ms ++ ks) ≡ steps (steps c ms) ks
unfolding steps
steps-append c [] ks = refl
steps-append c (m ∷ ms) ks = steps-append (step c m) ms ks

-- All of a group, and then all but one, leave that one.
pub steps-lost :
    (c : Sums) (front back : List StoredMedia) (lost : StoredMedia)
    → steps (steps c (front ++ (lost ∷ back))) (front ++ back) ≡ step c lost
unfolding steps
steps-lost c front back lost =
    let rest = front ++ back in
    let all : steps c (front ++ (lost ∷ back)) ≡ step (steps c rest) lost =
      steps-append c front (lost ∷ back)
      ∙ (steps-swap (steps c front) lost back
          ∙ ap (λ s. step s lost) (sym (steps-append c front back))) in
    rw all (steps-swap (steps c rest) lost rest ∙ ap (λ s. step s lost) (steps-twice c rest))
