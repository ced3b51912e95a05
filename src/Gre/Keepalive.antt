-- ===== src/Gre/Keepalive.antt =====
-- internal/gre/keepalive.go: the keep-alive body and its capability bits.
pub mod RoundTrip
use ristgo.Prelude.{ℕ, ◌+◌, ◌*◌, ◌/◌, ◌%◌, ◌^◌, ◌≤◌, ◌<◌, ◌≡◌, ◌⊎◌, arith, refl, Bool, true, false}
use ristgo.Prelude.{◌++◌, List, [], ◌∷◌, length, take, drop, ltb, leb, ◌==◌, if◌then◌else◌}
use ristgo.Prelude.Bytes.{Bytes, byte, bit_at}
use ristgo.Prelude.Results.{Result, ok, err}

pub data KeepaliveError : Type 0 where
  too_short : KeepaliveError

-- The source's one-letter names, in lower case.
pub record Capabilities : Type 0 where
  pub n : Bool
  pub l : Bool
  pub e : Bool
  pub p : Bool
  pub a : Bool
  pub b : Bool
  pub r : Bool
  pub x : Bool
  pub f : Bool
  pub j : Bool
  pub v : Bool
  pub t : Bool
  pub d : Bool

unfoldable pub standard_capabilities : Capabilities
standard_capabilities = record {
  n = true;
  l = false;
  e = true;
  p = false;
  a = false;
  b = true;
  r = false;
  x = false;
  f = false;
  j = false;
  v = true;
  t = false;
  d = false;
}

-- `*dst |= 1 << bit` for distinct bits, so setting them adds them.
abbrev set_bit : Bool → ℕ → ℕ
set_bit true weight = weight
set_bit false weight = 0

unfoldable pub encode_capabilities : Capabilities → ℕ × ℕ
encode_capabilities c = (
  set_bit c.n 1
      + set_bit c.l 2
      + set_bit c.e 4
      + set_bit c.p 8
      + set_bit c.a 16
      + set_bit c.b 32
      + set_bit c.r 64
      + set_bit c.x 128,
  set_bit c.f 8 + set_bit c.j 16 + set_bit c.v 32 + set_bit c.t 64 + set_bit c.d 128,
)

abbrev has_bit : ℕ → ℕ → Bool
has_bit b k = bit_at b k == 1

unfoldable pub decode_capabilities : ℕ → ℕ → Capabilities
decode_capabilities c1 c2 = record {
  n = has_bit c1 0;
  l = has_bit c1 1;
  e = has_bit c1 2;
  p = has_bit c1 3;
  a = has_bit c1 4;
  b = has_bit c1 5;
  r = has_bit c1 6;
  x = has_bit c1 7;
  f = has_bit c2 3;
  j = has_bit c2 4;
  v = has_bit c2 5;
  t = has_bit c2 6;
  d = has_bit c2 7;
}

pub record AdvExtCaps : Type 0 where
  pub i : Bool
  pub g : Bool
  pub c : Bool

abbrev pub no_adv_ext : AdvExtCaps
no_adv_ext = record { i = false; g = false; c = false }

unfoldable pub encode_adv_ext : AdvExtCaps → ℕ
encode_adv_ext a = set_bit a.i 128 + set_bit a.g 64 + set_bit a.c 32

abbrev decode_adv_ext : ℕ → AdvExtCaps
decode_adv_ext first = record { i = has_bit first 7; g = has_bit first 6; c = has_bit first 5 }

-- The MAC is its six bytes; JSON nil is the empty list.
pub record Keepalive : Type 0 where
  pub mac : Bytes
  pub caps : Capabilities
  pub has_adv_ext : Bool
  pub adv_ext : AdvExtCaps
  pub json : Bytes

unfoldable pub keepalive_size : Keepalive → ℕ
keepalive_size k = 8 + (if k.has_adv_ext then 4 else 0) + length k.json

unfoldable pub append_keepalive : Keepalive → Bytes → Bytes
unfolding encode_capabilities encode_adv_ext
append_keepalive k dst =
    let (c1, c2) = encode_capabilities k.caps in
    dst
    ++ (k.mac
        ++ (c1 ∷ c2 ∷ (if k.has_adv_ext then encode_adv_ext k.adv_ext ∷ 0 ∷ 0 ∷ 0 ∷ [] else [])
            ++ k.json))

unfoldable pub parse_keepalive : Bytes → Result KeepaliveError Keepalive
unfolding decode_capabilities
parse_keepalive b =
    let rest = drop 8 b in
    let extended = leb 4 (length rest) in
    if ltb (length b) 8
    then err too_short
    else ok (record {
      mac = take 6 b;
      caps = decode_capabilities (byte b 6) (byte b 7);
      has_adv_ext = extended;
      adv_ext = if extended then decode_adv_ext (byte rest 0) else no_adv_ext;
      json = if extended then drop 4 rest else rest;
    })
