-- ===== src/Rtp/RoundTrip.antt =====
-- RTP headers of rtp.go written and read again.
use ristgo.Prelude.{
  ℕ, zero, suc, ◌+◌, ◌*◌, ◌/◌, ◌%◌, ◌^◌, ◌<◌, ◌≡◌, refl, arith, Bool, true, false, not, ◌&&◌,
}
use ristgo.Prelude.{
  ◌++◌, [], ◌∷◌, length, drop, ltb, ◌==◌, if◌then◌else◌, length-append, All, sym, ap, ◌∙◌,
}
use ristgo.Prelude.{Bool-cases, inl, inr}
use mathlib.Core.List.{append_assoc}
use ristgo.Prelude.Bytes.{Bytes, put16, bit_at, replicate}
use ristgo.Prelude.Results.{ok}
use ristgo.Rtp.{Header, unmarshal, marshal_size, put_csrc, header_bytes, marshal_to}
use ristgo.Rtp.Reading.{Is32, length-put_csrc, fixed, made, unmarshal-plain, unmarshal-extended}

-- A header of which every part is on the wire.
pub record IsWire (h : Header) : Type 0 where
  pub payload_type_fits : h.payload_type < 2 ^ 7
  pub sequence_number_fits : h.sequence_number < 2 ^ 16
  pub timestamp_fits : h.timestamp < 2 ^ 32
  pub ssrc_fits : h.ssrc < 2 ^ 32
  pub csrc_counted : h.csrc_count ≡ length h.csrc
  pub csrc_fits : All Is32 h.csrc
  pub profile_fits : h.extension_profile < (if h.extension then 2 ^ 16 else 1)
  pub no_payload : (not h.extension && ltb 0 (length h.extension_payload)) ≡ false

abbrev first_byte : (v n : ℕ) (p x : Bool) → ℕ
first_byte v n p x = v * 2 ^ 6 + n + (if p then 2 ^ 5 else 0) + (if x then 2 ^ 4 else 0)

abbrev second_byte : (pt : ℕ) (m : Bool) → ℕ
second_byte pt m = pt % 2 ^ 7 + (if m then 2 ^ 7 else 0)

first_byte-back :
    (v n : ℕ) (p x : Bool)
    → v < 4
    → n < 16
    → let f = first_byte v n p x in
      (f / 2 ^ 6 ≡ v) × ((bit_at f 5 == 1) ≡ p) × ((bit_at f 4 == 1) ≡ x) × (f % 2 ^ 4 ≡ n)
first_byte-back v n true true lv ln = (omega arith, ground arith, ground arith, omega arith)
first_byte-back v n true false lv ln = (omega arith, ground arith, ground arith, omega arith)
first_byte-back v n false true lv ln = (omega arith, ground arith, ground arith, omega arith)
first_byte-back v n false false lv ln = (omega arith, ground arith, ground arith, omega arith)

second_byte-back :
    (pt : ℕ) (m : Bool)
    → pt < 2 ^ 7
    → let f = second_byte pt m in ((f / 2 ^ 7 == 1) ≡ m) × (f % 2 ^ 7 ≡ pt)
second_byte-back pt true l = (ground arith, omega arith)
second_byte-back pt false l = (ground arith, omega arith)

pub drop-all : (n x : ℕ) → drop n (replicate n x) ≡ []
drop-all zero x = refl
drop-all (suc n) x = drop-all n x

-- What an accepted header satisfies.
pub record Accepted (h : Header) : Type 0 where
  pub version_fits : h.version < 4
  pub count_fits : length h.csrc < 16
  pub aligned : (h.extension && not (length h.extension_payload % 4 == 0)) ≡ false
  pub bounded : (h.extension && ltb 0xFFFF (length h.extension_payload / 4)) ≡ false

pub marshal_to-ok :
    (h : Header) (buf : Bytes) (r : Bytes × ℕ)
    → marshal_to h buf ≡ ok r
    → Accepted h × (r ≡ (header_bytes h ++ drop (marshal_size h) buf, marshal_size h))
unfolding marshal_to
marshal_to-ok h buf r e = elim (Bool-cases (ltb 3 h.version)) [
  | inl v ↦ let f = rw v at e in cc
  | inr v ↦ elim (Bool-cases (ltb 15 (length h.csrc))) [
    | inl c ↦ let f = rw (v, c) at e in cc
    | inr c ↦ elim (Bool-cases (h.extension && not (length h.extension_payload % 4 == 0))) [
      | inl a ↦ let f = rw (v, c, a) at e in cc
      | inr a ↦ elim (Bool-cases (h.extension && ltb 0xFFFF (length h.extension_payload / 4))) [
        | inl b ↦ let f = rw (v, c, a, b) at e in cc
        | inr b ↦ elim (Bool-cases (ltb (length buf) (marshal_size h))) [
          | inl s ↦ let f = rw (v, c, a, b, s) at e in cc
          | inr s ↦
              let f = rw (v, c, a, b, s) at e in
              (
                record {
                  version_fits = ground arith;
                  count_fits = ground arith;
                  aligned = a;
                  bounded = b;
                },
                cc,
              )
        ]
      ]
    ]
  ]
]

extension_bytes : (x : Bool) (profile : ℕ) (payload : Bytes) → Bytes
extension_bytes true profile payload = put16 profile ++ (put16 (length payload / 4) ++ payload)
extension_bytes false profile payload = []

extension_bytes-if :
    (x : Bool) (profile : ℕ) (payload : Bytes)
    → (if x then put16 profile ++ (put16 (length payload / 4) ++ payload) else [])
      ≡ extension_bytes x profile payload
unfolding extension_bytes
extension_bytes-if true profile payload = refl
extension_bytes-if false profile payload = refl

header_bytes-fixed :
    (h : Header) (rest : Bytes)
    → header_bytes h ++ rest
      ≡ fixed
          (first_byte h.version (length h.csrc) h.padding h.extension)
          (second_byte h.payload_type h.marker)
          h.sequence_number
          h.timestamp
          h.ssrc
          (put_csrc h.csrc
            ++ (extension_bytes h.extension h.extension_profile h.extension_payload ++ rest))
unfolding header_bytes fixed
header_bytes-fixed h rest =
    ap
      (fixed (first_byte h.version (length h.csrc) h.padding h.extension)
        (second_byte h.payload_type h.marker) h.sequence_number h.timestamp h.ssrc)
      (append_assoc (put_csrc h.csrc) _ rest
        ∙ ap (λ e. put_csrc h.csrc ++ (e ++ rest))
            (extension_bytes-if h.extension h.extension_profile h.extension_payload))

nil_of_length : (b : Bytes) → length b ≡ 0 → b ≡ []
nil_of_length [] e = refl
nil_of_length (x ∷ b) e = absurd (omega arith)

pub length-header_bytes : (h : Header) → length (header_bytes h) ≡ marshal_size h
unfolding header_bytes marshal_size
length-header_bytes h =
    let many = length-put_csrc h.csrc in
    let whole = length-append (put_csrc h.csrc) (
      if h.extension
      then put16 h.extension_profile
        ++ (put16 (length h.extension_payload / 4) ++ h.extension_payload)
      else []) in
    elim (Bool-cases h.extension) [
      | inl x ↦ rw x (let f = rw x at whole in omega arith)
      | inr x ↦ rw x (let f = rw x at whole in omega arith)
    ]

pub unmarshal-header_bytes :
    (h : Header) (rest : Bytes)
    → IsWire h
    → Accepted h
    → unmarshal (header_bytes h ++ rest) ≡ ok (h, marshal_size h)
unfolding marshal_size made extension_bytes
unmarshal-header_bytes h rest w a =
    let f0 = first_byte h.version (length h.csrc) h.padding h.extension in
    let f1 = second_byte h.payload_type h.marker in
    let (version, padding, extension, count) =
      first_byte-back h.version (length h.csrc) h.padding h.extension a.version_fits a.count_fits in
    let (marker, kind) = second_byte-back h.payload_type h.marker w.payload_type_fits in
    let s = h.sequence_number in
    let t = h.timestamp in
    let r = h.ssrc in
    let start = header_bytes-fixed h rest in
    elim (Bool-cases h.extension) [
      | inl x ↦
          let profile = rw x at w.profile_fits in
          let words = rw x at a.aligned in
          let many = rw x at a.bounded in
          let aligned : length h.extension_payload % 4 ≡ 0 = ground arith in
          let few : length h.extension_payload / 4 < 2 ^ 16 = ground arith in
          let size : 12 + length h.csrc * 4 + 4 + length h.extension_payload ≡ marshal_size h =
            rw x (omega arith) in
          let back =
            unmarshal-extended f0 f1 h.version h.payload_type s t r h.padding h.marker h.csrc
              version padding count marker kind w.sequence_number_fits w.timestamp_fits w.ssrc_fits
              w.csrc_fits h.extension_profile h.extension_payload rest (extension ∙ x) profile
              aligned few in
          ap unmarshal (
            start
            ∙ ap
                (λ e. fixed f0 f1 s t r (
                  put_csrc h.csrc
                  ++ (extension_bytes e h.extension_profile h.extension_payload ++ rest)))
                x)
          ∙ back
          ∙ λ i. ok (
            record {
              version = h.version;
              padding = h.padding;
              extension = (sym x) i;
              csrc_count = (sym w.csrc_counted) i;
              marker = h.marker;
              payload_type = h.payload_type;
              sequence_number = h.sequence_number;
              timestamp = h.timestamp;
              ssrc = h.ssrc;
              csrc = h.csrc;
              extension_profile = h.extension_profile;
              extension_payload = h.extension_payload;
            },
            size i,
          )
      | inr x ↦
          let profile = rw x at w.profile_fits in
          let empty = rw x at w.no_payload in
          let no_payload : h.extension_payload ≡ [] =
            nil_of_length h.extension_payload (ground arith) in
          let no_profile : h.extension_profile ≡ 0 = omega arith in
          let size : 12 + length h.csrc * 4 ≡ marshal_size h = rw x (omega arith) in
          let back =
            unmarshal-plain f0 f1 h.version h.payload_type s t r h.padding h.marker h.csrc version
              padding count marker kind w.sequence_number_fits w.timestamp_fits w.ssrc_fits
              w.csrc_fits rest (extension ∙ x) in
          ap unmarshal (
            start
            ∙ ap
                (λ e. fixed f0 f1 s t r (
                  put_csrc h.csrc
                  ++ (extension_bytes e h.extension_profile h.extension_payload ++ rest)))
                x)
          ∙ back
          ∙ λ i. ok (
            record {
              version = h.version;
              padding = h.padding;
              extension = (sym x) i;
              csrc_count = (sym w.csrc_counted) i;
              marker = h.marker;
              payload_type = h.payload_type;
              sequence_number = h.sequence_number;
              timestamp = h.timestamp;
              ssrc = h.ssrc;
              csrc = h.csrc;
              extension_profile = (sym no_profile) i;
              extension_payload = (sym no_payload) i;
            },
            size i,
          )
    ]
