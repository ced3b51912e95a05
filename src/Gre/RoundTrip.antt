-- ===== src/Gre/RoundTrip.antt =====
-- Headers written and read again.
use ristgo.Prelude.{ℕ, ◌+◌, ◌*◌, ◌%◌, ◌^◌, ◌<◌, ◌≡◌, Bool, false, ◌&&◌, not, [], ◌∷◌, ◌++◌}
use ristgo.Prelude.{if◌then◌else◌}
use ristgo.Prelude.Bytes.{Bytes, put16, put32}
use ristgo.Gre.{Header, flags1, flags2}

-- A header of which every part is on the wire: widths, and zero for what its flags leave out.
pub record IsWire (h : Header) : Type 0 where
  pub version_fits : h.version < 8
  pub nonce_fits : h.nonce < (if h.has_key then 2 ^ 32 else 1)
  pub seq_fits : h.seq < (if h.has_seq then 2 ^ 32 else 1)
  pub prot_fits : h.prot_type < 2 ^ 16
  pub sized : (h.key_size256 && not h.has_key) ≡ false

abbrev pub version_bits : ℕ → ℕ → ℕ
version_bits v key_bit = v % 2 ^ 3 * 2 ^ 3 + key_bit

wire : Header → Bytes
wire h =
    flags1 h
    ∷ flags2 h
    ∷ (put16 h.prot_type
        ++ ((if h.has_key then put32 h.nonce else []) ++ (if h.has_seq then put32 h.seq else [])))

header_of : (v n s p : ℕ) (key seq k256 : Bool) → Header
header_of v n s p key seq k256 = record {
  version = v;
  has_key = key;
  has_seq = seq;
  key_size256 = k256;
  nonce = n;
  seq = s;
  prot_type = p;
}
