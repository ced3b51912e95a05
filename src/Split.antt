-- ===== src/Split.antt =====
-- internal/split/split.go: splitting a payload over two sequences, and merging the halves.
mod SendSide
mod Merging
mod Tests
use ristgo.Prelude.{ℕ, ◌+◌, ◌-◌, ◌*◌, ◌/◌, ◌%◌, ◌^◌, Bool, true, false, not, ◌&&◌, ◌||◌}
use ristgo.Prelude.{Option, none, some, List, [], ◌∷◌, ◌++◌, length, take, drop, bit_and}
use ristgo.Prelude.{ltb, leb, ◌==◌, if◌then◌else◌}

-- A payload is its bytes.
abbrev pub Payload : Type 0
Payload = List ℕ

pub data SplitMode : Type 0 where
  split_off split_auto split_half : SplitMode

pub data MergeMode : Type 0 where
  merge_off merge_pairs merge_auto : MergeMode

abbrev pub ts_packet_len : ℕ
ts_packet_len = 188

abbrev pub ts_sync_byte : ℕ
ts_sync_byte = 0x47

abbrev is_off : SplitMode → Bool
is_off split_off = true
is_off _ = false

abbrev is_auto : SplitMode → Bool
is_auto split_auto = true
is_auto _ = false

abbrev starts_with : Payload → ℕ → Bool
starts_with [] b = false
starts_with (x ∷ xs) b = x == b

-- `none` is `ok == false`. `payload[0]` is read only where the payload is not empty.
pub split_point : SplitMode → Payload → Option (ℕ × ℕ)
split_point mode payload =
    let n = length payload in
    if is_off mode || ltb n 2
    then none
    else let f = n / ts_packet_len / 2 in
      let aligned =
        is_auto mode
        && leb (2 * ts_packet_len) n
        && n % ts_packet_len == 0
        && starts_with payload ts_sync_byte in
      let first = if aligned then (if f == 0 then 1 else f) * ts_packet_len else n / 2 in
      some (first, n - first)

-- uint32 sequences and uint64 source times.
pub is_split_pair : ℕ → ℕ → ℕ → ℕ → Bool
is_split_pair first_seq first_src second_seq second_src =
    bit_and first_seq 1 == 0 && second_seq == (first_seq + 1) % 2 ^ 32 && first_src == second_src

pub record Halves : Type 0 where
  pub first : Payload
  pub last : Payload
  pub split : Bool

abbrev point_of : Option (ℕ × ℕ) → ℕ
point_of none = 0
point_of (some (at, _)) = at

pub split_payload : SplitMode → Payload → Halves
split_payload mode payload =
    if is_off mode || length payload == 0
    then record { first = payload; last = []; split = false }
    else let at = point_of (split_point mode payload) in
      record { first = take at payload; last = drop at payload; split = true }

pub record Merger : Type 0 where
  pub mode : MergeMode
  pub auto_enabled : Bool
  pub has_held : Bool
  pub held_seq : ℕ
  pub held_src : ℕ
  pub held_payload : Payload

pub new_merger : MergeMode → Merger
new_merger mode = record {
  mode = mode;
  auto_enabled = false;
  has_held = false;
  held_seq = 0;
  held_src = 0;
  held_payload = [];
}

pub set_auto_enabled : Merger → Bool → Merger
set_auto_enabled m on = record m { auto_enabled = on }

active_in : MergeMode → Bool → Bool
active_in merge_pairs auto = true
active_in merge_auto auto = auto
active_in merge_off auto = false

pub active : Merger → Bool
unfolding active_in
active m = active_in m.mode m.auto_enabled

pub clear_held : Merger → Merger
clear_held m = record m { has_held = false; held_payload = [] }

pub fresh : Merger → ℕ → ℕ → Payload → Merger × List Payload
fresh m seq src_time payload =
    if bit_and seq 1 == 0
    then (
      record m { has_held = true; held_seq = seq; held_src = src_time; held_payload = payload },
      [],
    )
    else (m, payload ∷ [])

pub deliver : Merger → ℕ → ℕ → Payload → Bool → Merger × List Payload
unfolding active fresh clear_held is_split_pair
deliver m seq src_time payload discontinuity =
    if not (active m)
    then (m, payload ∷ [])
    else if m.has_held
    then (if not discontinuity && is_split_pair m.held_seq m.held_src seq src_time
        then (clear_held m, (m.held_payload ++ payload) ∷ [])
        else (let (m', out) = fresh (clear_held m) seq src_time payload in
            (m', m.held_payload ∷ out)))
    else fresh m seq src_time payload
