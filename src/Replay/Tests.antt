-- ===== src/Replay/Tests.antt =====
-- Runs at concrete windows, and the theorem at one.
use ristgo.Prelude.{◌≡◌, refl, false, ◌∷◌, []}
use ristgo.Replay.{empty, mark, check}
use ristgo.Replay.Accepted.{mark_all, acceptable, check-mark_all}

replay_seen : check (mark (mark empty 5) 9) 5 ≡ false
unfolding check mark
replay_seen = refl

check-mark_all_example : check (mark_all (9 ∷ 5 ∷ [])) 5 ≡ acceptable (9 ∷ 5 ∷ []) 5
check-mark_all_example = check-mark_all (9 ∷ 5 ∷ []) 5
