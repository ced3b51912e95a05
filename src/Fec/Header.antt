-- ===== src/Fec/Header.antt =====
-- internal/fec/header.go and header2022_5.go: the headers of FEC packets.
use ristgo.Prelude.{ℕ, ◌+◌, ◌*◌, ◌/◌, ◌%◌, ◌^◌, Bool, true, false}
use ristgo.Prelude.{◌++◌, [], ◌∷◌, length, drop, ltb, ◌==◌, if◌then◌else◌}
use ristgo.Prelude.Bytes.{Bytes, put16, put32, byte, get16, get32, bit_at}
use ristgo.Prelude.Results.{Result, ok, err}

pub data FecError : Type 0 where
  short_header : FecError

pub data Direction : Type 0 where
  column row : Direction

abbrev pub header_size : ℕ
header_size = 16

-- 2022-1.
pub record Header : Type 0 where
  pub sn_base : ℕ
  pub length_recovery : ℕ
  pub pt_recovery : ℕ
  pub ts_recovery : ℕ
  pub direction : Direction
  pub offset : ℕ
  pub na : ℕ
  pub sn_base_ext : ℕ

abbrev direction_bit : Direction → ℕ
direction_bit column = 0
direction_bit row = 2 ^ 6

unfoldable pub append_header : Header → Bytes → Bytes
append_header h dst =
    dst
    ++ (put16 h.sn_base
        ++ (put16 h.length_recovery
            ++ ((h.pt_recovery % 2 ^ 7)
                ∷ 0
                ∷ 0
                ∷ 0
                ∷ (put32 h.ts_recovery
                    ++ (direction_bit h.direction ∷ h.offset ∷ h.na ∷ h.sn_base_ext ∷ [])))))

unfoldable pub parse_header : Bytes → Result FecError (Header × ℕ)
parse_header b =
    if ltb (length b) header_size
    then err short_header
    else ok (
      record {
        sn_base = get16 b;
        length_recovery = get16 (drop 2 b);
        pt_recovery = byte b 4 % 2 ^ 7;
        ts_recovery = get32 (drop 8 b);
        direction = if bit_at (byte b 12) 6 == 1 then row else column;
        offset = byte b 13;
        na = byte b 14;
        sn_base_ext = byte b 15;
      },
      header_size,
    )

abbrev pub base24 : Header → ℕ
base24 h = h.sn_base_ext * 2 ^ 16 + h.sn_base

abbrev pub set_base24 : Header → ℕ → Header
set_base24 h seq = record h { sn_base = seq % 2 ^ 16; sn_base_ext = seq / 2 ^ 16 % 2 ^ 8 }

-- 2022-5.
pub record Header5 : Type 0 where
  pub p_recovery : Bool
  pub x_recovery : Bool
  pub cc_recovery : ℕ
  pub m_recovery : Bool
  pub pt_recovery : ℕ
  pub sn_base : ℕ
  pub ts_recovery : ℕ
  pub length_recovery : ℕ
  pub offset : ℕ
  pub na : ℕ

abbrev pub na10_max : ℕ
na10_max = 0x3FF

abbrev flag : Bool → ℕ → ℕ
flag true weight = weight
flag false weight = 0

unfoldable pub append_header5 : Header5 → Bytes → Bytes
append_header5 h dst =
    dst
    ++ ((flag h.p_recovery (2 ^ 5) + flag h.x_recovery (2 ^ 4) + h.cc_recovery % 2 ^ 4)
        ∷ (flag h.m_recovery (2 ^ 7) + h.pt_recovery % 2 ^ 7)
        ∷ (put16 h.sn_base
            ++ (put32 h.ts_recovery
                ++ (put16 h.length_recovery
                    ++ (0
                        ∷ 0
                        ∷ (put16 (h.offset % 2 ^ 10 * 2 ^ 6) ++ put16 (h.na % 2 ^ 10 * 2 ^ 6)))))))

unfoldable pub parse_header5 : Bytes → Result FecError (Header5 × ℕ)
parse_header5 b =
    if ltb (length b) header_size
    then err short_header
    else ok (
      record {
        p_recovery = bit_at (byte b 0) 5 == 1;
        x_recovery = bit_at (byte b 0) 4 == 1;
        cc_recovery = byte b 0 % 2 ^ 4;
        m_recovery = bit_at (byte b 1) 7 == 1;
        pt_recovery = byte b 1 % 2 ^ 7;
        sn_base = get16 (drop 2 b);
        ts_recovery = get32 (drop 4 b);
        length_recovery = get16 (drop 8 b);
        offset = get16 (drop 12 b) / 2 ^ 6;
        na = get16 (drop 14 b) / 2 ^ 6;
      },
      header_size,
    )
