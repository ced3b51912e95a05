-- ===== src/Reassembly.antt =====
-- internal/session/reassembler.go: payloads joined from their fragments.
mod Tests
use ristgo.Prelude.{
  ℕ, zero, suc, ◌+◌, ◌<◌, ◌≡◌, refl, arith, ◌∙◌, ap, Bool, true, false, not, ◌||◌, ◌&&◌, ◌%◌, ◌^◌,
}
use ristgo.Prelude.{List, [], ◌∷◌, ◌++◌, Option, none, some, length, leb, ◌==◌, if◌then◌else◌}
use ristgo.Prelude.Bytes.{Bytes}
use ristgo.Wire.{FragRole, frag_standalone, frag_first, frag_middle, frag_last}
use mathlib.Core.List.{append_assoc, append-nil}

pub record FragReassembler : Type 0 where
  pub buf : Bytes
  pub active : Bool
  pub count : ℕ

abbrev pub max_reassembly_fragments : ℕ
max_reassembly_fragments = 64

abbrev pub idle_reassembler : FragReassembler
idle_reassembler = record { buf = []; active = false; count = 0 }

-- `reset`, which the code writes as a method.
unfoldable pub reset : FragReassembler → FragReassembler
reset r = idle_reassembler

-- A lost fragment, or too long a run.
abbrev is_broken : FragReassembler → Bool → Bool
is_broken r discontinuity = not r.active || discontinuity || leb max_reassembly_fragments r.count

-- The reassembler afterwards and the payload that is whole now.
unfoldable pub push : FragReassembler → FragRole → Bytes → Bool → FragReassembler × Option Bytes
unfolding reset
push r frag_first payload discontinuity = (record { buf = payload; active = true; count = 1 }, none)
push r frag_middle payload discontinuity =
    if is_broken r discontinuity
    then (reset r, none)
    else (record r { buf = r.buf ++ payload; count = r.count + 1 }, none)
push r frag_last payload discontinuity =
    if is_broken r discontinuity
    then (reset r, none)
    else (record r { buf = r.buf ++ payload; active = false }, some (r.buf ++ payload))
push r frag_standalone payload discontinuity = (reset r, some payload)

pub record FecCtrlReassembler : Type 0 where
  pub inner : FragReassembler
  pub last_seq : ℕ
  pub have_seq : Bool

abbrev pub fresh_ctrl : FecCtrlReassembler
fresh_ctrl = record { inner = idle_reassembler; last_seq = 0; have_seq = false }

unfoldable pub push_ctrl :
    FecCtrlReassembler → (seq : ℕ) → FragRole → Bytes → FecCtrlReassembler × Option Bytes
unfolding push
push_ctrl f seq role payload =
    let discontinuity = f.have_seq && not (seq == (f.last_seq + 1) % 2 ^ 32) in
    let (inner, whole) = push f.inner role payload discontinuity in
    (record { inner = inner; last_seq = seq; have_seq = true }, whole)

-- Middle fragments and the last, in sequence after `seq`, with what comes out of each.
unfoldable pub push_run :
    FecCtrlReassembler → (seq : ℕ) → List Bytes → (last : Bytes) → List (Option Bytes)
unfolding push_ctrl
push_run f seq [] last = (push_ctrl f seq frag_last last).1 ∷ []
push_run f seq (m ∷ ms) last =
    let (next, whole) = push_ctrl f seq frag_middle m in
    whole ∷ push_run next ((seq + 1) % 2 ^ 32) ms last

abbrev pub joined : List Bytes → Bytes → Bytes
joined [] last = last
joined (m ∷ ms) last = m ++ joined ms last

abbrev pub nothings : List Bytes → List (Option Bytes)
nothings [] = []
nothings (m ∷ ms) = none ∷ nothings ms

abbrev pub after_run : FecCtrlReassembler → ℕ → Bytes → ℕ → FecCtrlReassembler
after_run f seq buf count = record {
  inner = record { buf = buf; active = true; count = count };
  last_seq = seq;
  have_seq = true;
}

push_run-lem :
    (f : FecCtrlReassembler) (seq : ℕ) (buf : Bytes) (count : ℕ) (ms : List Bytes) (last : Bytes)
    → count + length ms < 64
    → push_run (after_run f seq buf count) ((seq + 1) % 2 ^ 32) ms last
      ≡ nothings ms ++ (some (buf ++ joined ms last) ∷ [])
unfolding push_run push_ctrl push
push_run-lem f seq buf count [] last l = ground arith
push_run-lem f seq buf count (m ∷ ms) last l =
    let next = (seq + 1) % 2 ^ 32 in
    let whole : is_broken (record { buf = buf; active = true; count = count }) (not (next == next))
        ≡ false =
      ground arith in
    rw whole (
      ap (λ r. none ∷ r)
        (push_run-lem f next (buf ++ m) (count + 1) ms last (omega arith)
          ∙ ap (λ b. nothings ms ++ (some b ∷ [])) (append_assoc buf m (joined ms last))))

-- A payload sent as a first fragment, at most 62 middle ones and a last one, with consecutive
-- sequence numbers, comes out whole at the last fragment, and nothing comes out at the first one
-- or at a middle one, whatever was pending.
pub push_ctrl-run :
    (f : FecCtrlReassembler) (seq : ℕ) (first : Bytes) (ms : List Bytes) (last : Bytes)
    → length ms < 63
    → let (begun, whole) = push_ctrl f seq frag_first first in
      (whole ≡ none)
      × (push_run begun ((seq + 1) % 2 ^ 32) ms last
          ≡ nothings ms ++ (some (joined (first ∷ ms) last) ∷ []))
unfolding push_ctrl push
push_ctrl-run f seq first ms last l = (refl, push_run-lem f seq first 1 ms last (omega arith))
