-- ===== src/Peer.antt =====
-- internal/peer/peer.go: the addresses of a peer and its last sign of life. Addresses are those of the package netip,
-- of which the code uses validity, equality and the host.
mod Tests
use ristgo.Prelude.{
  ℕ, Bool, true, false, not, ◌&&◌, ◌||◌, ◌≡◌, refl, arith, List, [], ◌∷◌, if◌then◌else◌, Bool-cases,
  inl, inr,
}
use ristgo.Prelude.Int.{ℤ, ltb_ℤ}
use ristgo.Clock.{Timestamp, Microseconds, since}

-- The package netip.
pub record Addresses (A : Type 0) : Type 0 where
  pub is_valid : A → Bool
  pub same_host : A → A → Bool

pub record Peer (A : Type 0) : Type 0 where
  pub media : A
  pub rtcp : A
  pub timeout : Microseconds
  pub last_seen : Timestamp
  pub seen : Bool

module _ (A : Type 0) (net : Addresses A) where
  abbrev pub new_peer : (nowhere : A) (timeout : Microseconds) (epoch : Timestamp) → Peer A
  new_peer nowhere timeout epoch = record {
    media = nowhere;
    rtcp = nowhere;
    timeout = timeout;
    last_seen = epoch;
    seen = false;
  }

  unfoldable pub learn_media : Peer A → A → Peer A
  learn_media p addr = if net.is_valid p.media then p else record p { media = addr }

  -- A source on another host than the media's is a spoof.
  unfoldable pub learn_rtcp : Peer A → A → Peer A
  learn_rtcp p addr =
      if net.is_valid p.rtcp
      then p
      else if net.is_valid p.media && net.is_valid addr && not (net.same_host p.media addr)
      then p
      else record p { rtcp = addr }

  unfoldable pub observe : Peer A → Timestamp → Peer A
  observe p now = record p { last_seen = now; seen = true }

  unfoldable pub rebind : Peer A → A → Peer A
  rebind p addr = record p { media = addr; rtcp = addr }

  unfoldable pub silent_for : Peer A → Timestamp → Microseconds → Bool
  silent_for p now d = p.seen && ltb_ℤ d (since now p.last_seen)

  unfoldable pub expired : Peer A → Timestamp → Bool
  unfolding silent_for
  expired p now = silent_for p now p.timeout

-- What a peer hears of.
pub data Hearing (A : Type 0) : Type 0 where
  media_from : A → Hearing A
  rtcp_from : A → Hearing A
  alive_at : Timestamp → Hearing A

module _ (A : Type 0) (net : Addresses A) where
  unfoldable pub hear : Peer A → Hearing A → Peer A
  unfolding learn_media learn_rtcp observe
  hear p (media_from a) = learn_media A net p a
  hear p (rtcp_from a) = learn_rtcp A net p a
  hear p (alive_at t) = observe A net p t

  unfoldable pub heard : Peer A → List (Hearing A) → Peer A
  unfolding hear
  heard p [] = p
  heard p (h ∷ hs) = heard (hear p h) hs

-- A peer keeps the media address that it has, and a report address only of that address's host.
pub record IsGuarded (A : Type 0) (net : Addresses A) (media : A) (p : Peer A) : Type 0 where
  pub kept : p.media ≡ media
  pub same : (net.is_valid p.rtcp && not (net.same_host media p.rtcp)) ≡ false

module _ (A : Type 0) (net : Addresses A) (media : A) (known : net.is_valid media ≡ true) where
  hear-IsGuarded :
      (p : Peer A) (h : Hearing A)
      → IsGuarded A net media p
      → IsGuarded A net media (hear A net p h)
  unfolding hear learn_media learn_rtcp observe
  hear-IsGuarded p (media_from a) g =
      let f : net.is_valid p.media ≡ true = rw g.kept known in simp f g
  hear-IsGuarded p (rtcp_from a) g =
      let f : net.is_valid p.media ≡ true = rw g.kept known in
      elim (Bool-cases (net.is_valid p.rtcp)) [
        | inl have ↦ simp have g
        | inr lack ↦ elim (Bool-cases (net.is_valid a && not (net.same_host p.media a))) [
          | inl spoof ↦ simp (lack, f, spoof) g
          | inr good ↦ simp (lack, f, good) (record { kept = g.kept; same = rw g.kept at good })
        ]
      ]
  hear-IsGuarded p (alive_at t) g = record { kept = g.kept; same = g.same }

-- Once the media address is valid it stays as it is, and a valid report address is on the media
-- address's host if it was at the start, whatever media, reports and signs of life come, in any
-- order, from anywhere.
pub heard-IsGuarded :
    (A : Type 0) (net : Addresses A) (media : A) (p : Peer A) (hs : List (Hearing A))
    → net.is_valid media ≡ true
    → IsGuarded A net media p
    → IsGuarded A net media (heard A net p hs)
unfolding heard
heard-IsGuarded A net media p [] known g = g
heard-IsGuarded A net media p (h ∷ hs) known g =
    heard-IsGuarded A net media (hear A net p h) hs known (hear-IsGuarded A net media known p h g)
