-- ===== src/Fec/Group.antt =====
-- internal/fec/fec.go: configuration, packets, sequence arithmetic and the group of clipped packets.
use ristgo.Prelude.{ℕ, ◌*◌, ◌%◌, ◌^◌, bit_xor, Bool}
use ristgo.Prelude.{[], ◌∷◌, length}
use ristgo.Prelude.Bytes.{Bytes, replicate}
use ristgo.Prelude.Int.{ℤ}
use ristgo.Seq.{w32, distance, add}
use ristgo.Fec.Header.{Direction}

pub data Variant : Type 0 where
  variant20221 variant20225 : Variant

pub record Config : Type 0 where
  pub cols : ℕ
  pub rows : ℕ
  pub column_only : Bool
  pub variant : Variant

abbrev pub matrix_size : Config → ℕ
matrix_size c = c.cols * c.rows

pub record FecPacket : Type 0 where
  pub direction : Direction
  pub bytes : Bytes

pub record Recovered : Type 0 where
  pub seq : ℕ
  pub timestamp : ℕ
  pub payload_type : ℕ
  pub ssrc : ℕ
  pub payload : Bytes

unfoldable pub seq_add : ℕ → ℤ → ℕ
unfolding add
seq_add base off = add w32 base off

unfoldable pub seq_diff : ℕ → ℕ → ℤ
unfolding distance
seq_diff base s = distance w32 base s

pub record FecGroup : Type 0 where
  pub base : ℕ
  pub collected : ℕ
  pub length_clip : ℕ
  pub pt_clip : ℕ
  pub ts_clip : ℕ
  pub payload_clip : Bytes

unfoldable pub new_group : ℕ → ℕ → FecGroup
new_group base payload_size = record {
  base = base;
  collected = 0;
  length_clip = 0;
  pt_clip = 0;
  ts_clip = 0;
  payload_clip = replicate payload_size 0;
}

unfoldable pub reset : FecGroup → ℕ → FecGroup
unfolding new_group
reset g base = new_group base (length g.payload_clip)

-- `dst[i] ^= src[i]` while both have a byte `i`.
abbrev pub xor_into : Bytes → Bytes → Bytes
xor_into [] src = []
xor_into (d ∷ dst) [] = d ∷ dst
xor_into (d ∷ dst) (s ∷ src) = bit_xor d s ∷ xor_into dst src

unfoldable pub clip : FecGroup → (len pt ts : ℕ) → Bytes → FecGroup
clip g len pt ts payload = record g {
  length_clip = bit_xor g.length_clip len;
  pt_clip = bit_xor g.pt_clip (pt % 2 ^ 7);
  ts_clip = bit_xor g.ts_clip ts;
  payload_clip = xor_into g.payload_clip payload;
}
