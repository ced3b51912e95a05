-- ===== src/Fec/Encoder.antt =====
-- internal/fec/fec.go: the encoder.
use ristgo.Prelude.{ℕ, zero, suc, ◌+◌, ◌%◌, ◌^◌, false, ◌&&◌}
use ristgo.Prelude.{List, [], ◌∷◌, ◌++◌, length, ltb, leb, if◌then◌else◌}
use ristgo.Prelude.Bytes.{Bytes}
use ristgo.Prelude.Int.{pos, leb_ℤ, ltb_ℤ, pos_part}
use ristgo.Fec.Header.{Direction, column, row, append_header, set_base24, append_header5}
use ristgo.Fec.Group.{
  Variant, variant20221, variant20225, Config, matrix_size, FecPacket, seq_add, seq_diff, FecGroup,
  new_group, reset, clip,
}

pub record Encoder : Type 0 where
  pub cfg : Config
  pub payload_size : ℕ
  pub row_group : FecGroup
  pub col_groups : List FecGroup
  pub row_base : ℕ

abbrev new_cols : (count i isn payload_size : ℕ) → List FecGroup
new_cols zero i isn payload_size = []
new_cols (suc count) i isn payload_size =
    new_group (seq_add isn (pos i)) payload_size ∷ new_cols count (i + 1) isn payload_size

unfoldable pub new_encoder : Config → ℕ → ℕ → Encoder
unfolding seq_add new_group
new_encoder cfg payload_size isn = record {
  cfg = cfg;
  payload_size = payload_size;
  row_group = new_group isn payload_size;
  col_groups = if ltb 1 cfg.rows then new_cols cfg.cols 0 isn payload_size else [];
  row_base = isn;
}

abbrev stride_of : Config → Direction → ℕ
stride_of cfg row = 1
stride_of cfg column = cfg.cols

abbrev count_of : Config → Direction → ℕ
count_of cfg row = cfg.cols
count_of cfg column = cfg.rows

abbrev emit_header : Variant → Config → FecGroup → Direction → Bytes
emit_header variant20225 cfg g dir =
    append_header5
      (record {
        p_recovery = false;
        x_recovery = false;
        cc_recovery = 0;
        m_recovery = false;
        pt_recovery = g.pt_clip;
        sn_base = g.base % 2 ^ 16;
        ts_recovery = g.ts_clip;
        length_recovery = g.length_clip;
        offset = stride_of cfg dir % 2 ^ 16;
        na = count_of cfg dir % 2 ^ 16;
      })
      []
emit_header variant20221 cfg g dir =
    append_header
      (set_base24
        (record {
          sn_base = 0;
          length_recovery = g.length_clip;
          pt_recovery = g.pt_clip;
          ts_recovery = g.ts_clip;
          direction = dir;
          offset = stride_of cfg dir % 2 ^ 8;
          na = count_of cfg dir % 2 ^ 8;
          sn_base_ext = 0;
        })
        g.base)
      []

unfoldable pub emit : Encoder → FecGroup → Direction → FecPacket
unfolding append_header append_header5
emit e g dir = record {
  direction = dir;
  bytes = emit_header e.cfg.variant e.cfg g dir ++ g.payload_clip;
}

abbrev pub counted : FecGroup → FecGroup
counted g = record g { collected = g.collected + 1 }

abbrev clip_payload : FecGroup → (ts pt : ℕ) → Bytes → FecGroup
clip_payload g ts pt payload = counted (clip g (length payload % 2 ^ 16) pt ts payload)

-- A column group takes a packet: the group afterwards and the packet that it completes.
unfoldable pub push_col : Encoder → FecGroup → (s ts pt : ℕ) → Bytes → FecGroup × List FecPacket
unfolding emit seq_add seq_diff reset clip
push_col e col s ts pt payload =
    let next = seq_add col.base (pos (matrix_size e.cfg)) in
    let moved =
      if leb_ℤ (pos (matrix_size e.cfg)) (seq_diff col.base s) then reset col next else col in
    let g = clip_payload moved ts pt payload in
    if leb e.cfg.rows g.collected
    then (reset g (seq_add g.base (pos (matrix_size e.cfg))), emit e g column ∷ [])
    else (g, [])

abbrev push_col_at :
    Encoder → ℕ → List FecGroup → (s ts pt : ℕ) → Bytes → List FecGroup × List FecPacket
push_col_at e i [] s ts pt payload = ([], [])
push_col_at e zero (g ∷ gs) s ts pt payload =
    let (g2, out) = push_col e g s ts pt payload in (g2 ∷ gs, out)
push_col_at e (suc i) (g ∷ gs) s ts pt payload =
    let (rest, out) = push_col_at e i gs s ts pt payload in (g ∷ rest, out)

-- The packet opens the next row when it lies beyond the current one.
abbrev open_row : Encoder → ℕ → Encoder
open_row e s =
    let next = seq_add e.row_base (pos e.cfg.cols) in
    if leb_ℤ (pos e.cfg.cols) (seq_diff e.row_base s)
    then record e { row_base = next; row_group = reset e.row_group next }
    else e

abbrev close_row : Encoder → Encoder × List FecPacket
close_row e =
    let next = seq_add e.row_base (pos e.cfg.cols) in
    if leb e.cfg.cols e.row_group.collected
    then (
      record e { row_base = next; row_group = reset e.row_group next },
      if e.cfg.column_only then [] else emit e e.row_group row ∷ [],
    )
    else (e, [])

unfoldable pub push : Encoder → (s ts pt : ℕ) → Bytes → Encoder × List FecPacket
unfolding push_col emit seq_add seq_diff reset clip
push e s ts pt payload =
    let opened = open_row e s in
    let place = seq_diff opened.row_base s in
    let rowed = record opened { row_group = clip_payload opened.row_group ts pt payload } in
    let in_column =
      ltb 1 e.cfg.rows && leb_ℤ (pos 0) place && ltb_ℤ place (pos (length e.col_groups)) in
    let (cols, from_cols) =
      if in_column
      then push_col_at e (pos_part place) rowed.col_groups s ts pt payload
      else (rowed.col_groups, []) in
    let (closed, from_row) = close_row (record rowed { col_groups = cols }) in
    (closed, from_cols ++ from_row)
