-- ===== src/Peer/Tests.antt =====
-- Addresses as numbers whose tens are the host, and the theorem at a spoofed report.
use ristgo.Prelude.{ℕ, ◌/◌, refl, false, not, ◌==◌, [], ◌∷◌}
use ristgo.Prelude.Int.{pos}
use ristgo.Peer.{
  Addresses, Peer, media_from, rtcp_from, alive_at, heard, IsGuarded, heard-IsGuarded,
}

abbrev numbered : Addresses ℕ
numbered = record { is_valid = λ a. not (a == 0); same_host = λ a b. a / 10 == b / 10 }

abbrev learned : Peer ℕ
learned = record { media = 21; rtcp = 0; timeout = pos 100; last_seen = pos 0; seen = false }

learned-IsGuarded : IsGuarded ℕ numbered 21 learned
learned-IsGuarded = record { kept = refl; same = refl }

heard-IsGuarded_example :
    IsGuarded ℕ numbered 21 (
      heard ℕ numbered learned
        (rtcp_from 35 ∷ media_from 44 ∷ alive_at (pos 5) ∷ rtcp_from 22 ∷ []))
heard-IsGuarded_example =
    heard-IsGuarded ℕ numbered 21 learned
      (rtcp_from 35 ∷ media_from 44 ∷ alive_at (pos 5) ∷ rtcp_from 22 ∷ []) refl learned-IsGuarded
