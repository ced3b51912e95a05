-- ===== src/Gre/Keepalive/RoundTrip.antt =====
-- Keep-alive bodies written and read again.
use ristgo.Prelude.{
  ℕ, ◌*◌, ◌≡◌, arith, Bool, true, false, ◌++◌, [], ◌∷◌, length, drop, ltb, leb, ◌||◌, ◌∙◌,
  if◌then◌else◌,
}
use ristgo.Prelude.Bytes.{Bytes, byte}
use ristgo.Prelude.Digits.{
  digit, byte_of, bit0-byte_of, bit1-byte_of, bit2-byte_of, bit3-byte_of, bit4-byte_of,
  bit5-byte_of, bit6-byte_of, bit7-byte_of,
}
use ristgo.Prelude.Results.{ok}
use ristgo.Gre.Keepalive.{
  Capabilities, AdvExtCaps, Keepalive, no_adv_ext, set_bit, encode_capabilities,
  decode_capabilities, encode_adv_ext, decode_adv_ext, append_keepalive, parse_keepalive,
}

set_bit-digit : (q : Bool) (w : ℕ) → set_bit q w ≡ digit q * w
unfolding digit
set_bit-digit true w = omega arith
set_bit-digit false w = omega arith

encode_capabilities-byte_of :
    (c : Capabilities)
    → encode_capabilities c
      ≡ (byte_of c.n c.l c.e c.p c.a c.b c.r c.x, byte_of false false false c.f c.j c.v c.t c.d)
unfolding encode_capabilities byte_of digit
encode_capabilities-byte_of c = simp set_bit-digit (ground arith)

encode_adv_ext-byte_of :
    (a : AdvExtCaps) → encode_adv_ext a ≡ byte_of false false false false false a.c a.g a.i
unfolding encode_adv_ext byte_of digit
encode_adv_ext-byte_of a = simp set_bit-digit (omega arith)

decode-encode_capabilities :
    (c : Capabilities) → let (c1, c2) = encode_capabilities c in decode_capabilities c1 c2 ≡ c
unfolding decode_capabilities
decode-encode_capabilities c = rw (encode_capabilities-byte_of c) (λ i. record {
  n = bit0-byte_of c.n c.l c.e c.p c.a c.b c.r c.x i;
  l = bit1-byte_of c.n c.l c.e c.p c.a c.b c.r c.x i;
  e = bit2-byte_of c.n c.l c.e c.p c.a c.b c.r c.x i;
  p = bit3-byte_of c.n c.l c.e c.p c.a c.b c.r c.x i;
  a = bit4-byte_of c.n c.l c.e c.p c.a c.b c.r c.x i;
  b = bit5-byte_of c.n c.l c.e c.p c.a c.b c.r c.x i;
  r = bit6-byte_of c.n c.l c.e c.p c.a c.b c.r c.x i;
  x = bit7-byte_of c.n c.l c.e c.p c.a c.b c.r c.x i;
  f = bit3-byte_of false false false c.f c.j c.v c.t c.d i;
  j = bit4-byte_of false false false c.f c.j c.v c.t c.d i;
  v = bit5-byte_of false false false c.f c.j c.v c.t c.d i;
  t = bit6-byte_of false false false c.f c.j c.v c.t c.d i;
  d = bit7-byte_of false false false c.f c.j c.v c.t c.d i;
})

-- The flags of a written extended block.
decode-encode_adv_ext : (a : AdvExtCaps) → decode_adv_ext (encode_adv_ext a) ≡ a
decode-encode_adv_ext a = rw (encode_adv_ext-byte_of a) (λ i. record {
  i = bit7-byte_of false false false false false a.c a.g a.i i;
  g = bit6-byte_of false false false false false a.c a.g a.i i;
  c = bit5-byte_of false false false false false a.c a.g a.i i;
})

-- What follows the fixed part, read as the code reads it.
tail_of : Capabilities → Bytes → Bytes → Keepalive
tail_of caps mac rest = record {
  mac = mac;
  caps = caps;
  has_adv_ext = leb 4 (length rest);
  adv_ext = if leb 4 (length rest) then decode_adv_ext (byte rest 0) else no_adv_ext;
  json = if leb 4 (length rest) then drop 4 rest else rest;
}

parse-fixed :
    (mac rest : Bytes) (caps : Capabilities)
    → length mac ≡ 6
    → let (c1, c2) = encode_capabilities caps in
      parse_keepalive (mac ++ (c1 ∷ c2 ∷ rest)) ≡ ok (tail_of caps mac rest)
unfolding parse_keepalive tail_of
parse-fixed (u ∷ v ∷ w ∷ x ∷ y ∷ z ∷ []) rest caps e =
    rw (decode-encode_capabilities caps) (ground arith)
parse-fixed [] rest caps e = cc
parse-fixed (u ∷ []) rest caps e = ground arith
parse-fixed (u ∷ v ∷ []) rest caps e = ground arith
parse-fixed (u ∷ v ∷ w ∷ []) rest caps e = ground arith
parse-fixed (u ∷ v ∷ w ∷ x ∷ []) rest caps e = ground arith
parse-fixed (u ∷ v ∷ w ∷ x ∷ y ∷ []) rest caps e = ground arith
parse-fixed (u ∷ v ∷ w ∷ x ∷ y ∷ z ∷ m ∷ more) rest caps e = ground arith

-- A written body with a MAC of six bytes is read back, when the extended block is there or the
-- JSON is shorter than four bytes; an absent extended block reads as one without capabilities.
pub parse-append_keepalive :
    (mac json : Bytes) (caps : Capabilities) (has : Bool) (ext : AdvExtCaps)
    → length mac ≡ 6
    → (has || ltb (length json) 4) ≡ true
    → let k : Keepalive = record {
      mac = mac;
      caps = caps;
      has_adv_ext = has;
      adv_ext = ext;
      json = json;
    } in
      parse_keepalive (append_keepalive k [])
      ≡ ok (record k { adv_ext = if has then ext else no_adv_ext })
unfolding append_keepalive encode_capabilities encode_adv_ext tail_of
parse-append_keepalive mac json caps true ext e f =
    parse-fixed mac (encode_adv_ext ext ∷ 0 ∷ 0 ∷ 0 ∷ json) caps e
    ∙ rw (decode-encode_adv_ext ext) (ground arith)
parse-append_keepalive mac json caps false ext e f = parse-fixed mac json caps e ∙ ground arith
