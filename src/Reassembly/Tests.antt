-- ===== src/Reassembly/Tests.antt =====
-- Four fragments around the end of the sequence numbers, and the theorem at them.
use ristgo.Prelude.{none, ◌+◌, ◌%◌, ◌^◌, ◌-◌, ◌≡◌, arith, some, [], ◌∷◌, ◌++◌}
use ristgo.Wire.{frag_first}
use ristgo.Reassembly.{fresh_ctrl, push_ctrl, push_run, joined, nothings, push_ctrl-run}

push_ctrl-run_example :
    let (begun, whole) = push_ctrl fresh_ctrl (2 ^ 32 - 1) frag_first (1 ∷ []) in
    (whole ≡ none)
    × (push_run begun ((2 ^ 32 - 1 + 1) % 2 ^ 32) ((2 ∷ []) ∷ (3 ∷ []) ∷ []) (4 ∷ [])
        ≡ nothings ((2 ∷ []) ∷ (3 ∷ []) ∷ [])
          ++ (some (joined ((1 ∷ []) ∷ (2 ∷ []) ∷ (3 ∷ []) ∷ []) (4 ∷ [])) ∷ []))
push_ctrl-run_example =
    push_ctrl-run fresh_ctrl (2 ^ 32 - 1) (1 ∷ []) ((2 ∷ []) ∷ (3 ∷ []) ∷ []) (4 ∷ []) (omega arith)
