-- ===== src/Flow/Receiver/Merging.antt =====
-- The multipath merge of `feed`: a second copy of a packet that the ring holds.
use ristgo.Prelude.{◌≡◌}
use ristgo.Prelude.{true}
use ristgo.Wire.{MediaPacket}
use ristgo.Flow.State.{Flow, slot_at}
use ristgo.Flow.Receiver.{is_duplicate}

-- The packet is in the ring.
abbrev pub Merged : MediaPacket → Flow → Type 0
Merged pkt f = is_duplicate (slot_at f.receiver pkt.seq) pkt ≡ true

abbrev SameRing : Flow → Flow → Type 0
SameRing f g = (g.receiver.ring ≡ f.receiver.ring) × (g.receiver.mask ≡ f.receiver.mask)

kept : (pkt : MediaPacket) (f g : Flow) → SameRing f g → Merged pkt f → Merged pkt g
kept pkt f g (ring, mask) h = rw (ring, mask) h
