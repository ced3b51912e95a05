-- ===== src/Replay.antt =====
-- internal/dtls/replay.go: the sliding-window anti-replay filter of the DTLS record layer.
mod Accepted
mod Tests
use ristgo.Prelude.{
  ℕ, zero, suc, ◌+◌, ◌-◌, ◌*◌, ◌%◌, ◌^◌, Bool, true, false, not, ◌||◌, bit_and, bit_or,
}
use ristgo.Prelude.{ltb, leb, ◌==◌, if◌then◌else◌}

-- `replayWindow`; the fields are uint64.
pub record Window : Type 0 where
  pub right : ℕ
  pub bitmap : ℕ
  pub seen : Bool

abbrev pub empty : Window
empty = record { right = 0; bitmap = 0; seen = false }

abbrev pub window_size : ℕ
window_size = 64

pub check : Window → ℕ → Bool
check w seq =
    if not w.seen || ltb w.right seq
    then true
    else let diff = w.right - seq in
      if leb window_size diff then false else bit_and w.bitmap (2 ^ diff) == 0

-- `w.right - seq` runs only where `seq` is at most `right`; a shift drops what passes bit 63.
pub mark : Window → ℕ → Window
mark w seq =
    if not w.seen
    then record { right = seq; bitmap = 1; seen = true }
    else if ltb w.right seq
    then (let shift = seq - w.right in
        let slid = bit_or (w.bitmap * 2 ^ shift % 2 ^ 64) 1 in
        record w { right = seq; bitmap = if leb window_size shift then 1 else slid })
    else (let diff = w.right - seq in
        if ltb diff window_size then record w { bitmap = bit_or w.bitmap (2 ^ diff) } else w)
