-- ===== src/Flow/Playout/Measure.antt =====
-- The loop of `deliverDue` ends: a delivery empties a slot, a skip nears the newest sequence.
use ristgo.Prelude.{ℕ, zero, suc, ◌+◌, ◌-◌, ◌*◌, ◌%◌, ◌^◌, ◌≤◌, ◌<◌, ◌≡◌, ◌≢◌, ◌⊎◌, refl, arith}
use ristgo.Prelude.{bit_and, Bool-cases, inl, inr, true, ==_iff, sym}
use native.Mathlib.Decide.{ℕ_discrete}
use ristgo.Prelude.{if◌then◌else◌, ◌==◌, ◌∙◌, ap}
use native.Mathlib.Nat.{mod-lt}
use ristgo.Prelude.Bits.{bit_and-mask, pow_pos}
use ristgo.Prelude.Int.{pos_part}
use ristgo.Seq.{w32, distance}
use ristgo.Flow.State.{Flow, ReceiverState, Slot, is_filled, slot_at, put_slot}

-- A ring of a power of two, with the mask of its indices, and 32-bit cursors.
pub record Shaped (r : ReceiverState) : Type 0 where
  pub bits : ℕ
  pub len : r.ring_len ≡ 2 ^ bits
  pub ones : r.mask ≡ 2 ^ bits - 1
  pub cursor : r.deliver_next < 2 ^ 32
  pub top : r.highest < 2 ^ 32

masked : (r : ReceiverState) (n : ℕ) → Shaped r → bit_and n r.mask ≡ n % r.ring_len
masked r n v =
    let e : bit_and n r.mask ≡ n % 2 ^ v.bits = ap (bit_and n) v.ones ∙ bit_and-mask v.bits n in
    e ∙ ap (λ len. n % len) (sym v.len)

pub index_in_ring : (r : ReceiverState) (n : ℕ) → Shaped r → bit_and n r.mask < r.ring_len
index_in_ring r n v =
    let e : bit_and n r.mask ≡ n % 2 ^ v.bits = ap (bit_and n) v.ones ∙ bit_and-mask v.bits n in
    rw (e, v.len) (mod-lt n (pow_pos v.bits))

-- In a well-shaped ring, the slot written for the sequence `n` is the one read back for every
-- sequence `m` that agrees with `n` modulo the ring's size; for every other `m` the slot read is
-- the one that was there before the write.
pub slot_at-put_slot :
    (r : ReceiverState) (n m : ℕ) (s : Slot)
    → Shaped r
    → ((n % r.ring_len ≡ m % r.ring_len) × (slot_at (put_slot r n s) m ≡ s))
      ⊎ ((n % r.ring_len ≢ m % r.ring_len) × (slot_at (put_slot r n s) m ≡ slot_at r m))
slot_at-put_slot r n m s v = elim (ℕ_discrete (n % r.ring_len) (m % r.ring_len)) [
  | yes same ↦
      let hit : (bit_and m r.mask == bit_and n r.mask) ≡ true =
        (==_iff _ _).1 (masked r m v ∙ (sym same ∙ sym (masked r n v))) in
      inl (same, rw hit refl)
  | no other ↦ elim (Bool-cases (bit_and m r.mask == bit_and n r.mask)) [
    | inl hit ↦ absurd (other (sym (masked r n v) ∙ (sym ((==_iff _ _).0 hit) ∙ masked r m v)))
    | inr miss ↦ inr (other, rw miss refl)
  ]
]

unfoldable pub weight : Slot → ℕ
weight s = if is_filled s.state then 1 else 0

unfoldable pub count_filled : (ℕ → Slot) → ℕ → ℕ
unfolding weight
count_filled ring zero = 0
count_filled ring (suc n) = weight (ring n) + count_filled ring n

abbrev upd : (ℕ → Slot) → ℕ → Slot → ℕ → Slot
upd ring i s j = if j == i then s else ring j

pub count_filled-le : (ring : ℕ → Slot) (n : ℕ) → count_filled ring n ≤ n
unfolding count_filled
count_filled-le ring zero = omega arith
count_filled-le ring (suc n) = ground (arith, count_filled-le ring n)

pub count_upd_out :
    (ring : ℕ → Slot) (i : ℕ) (s : Slot) (n : ℕ)
    → n ≤ i
    → count_filled (upd ring i s) n ≡ count_filled ring n
unfolding count_filled
count_upd_out ring i s zero h = refl
count_upd_out ring i s (suc n) h = ground (arith, count_upd_out ring i s n)

pub count_upd_in :
    (ring : ℕ → Slot) (i : ℕ) (s : Slot) (n : ℕ)
    → i < n
    → count_filled (upd ring i s) n + weight (ring i) ≡ count_filled ring n + weight s
unfolding count_filled
count_upd_in ring i s zero h = absurd (omega arith)
count_upd_in ring i s (suc n) h =
    ground
      (arith, count_upd_in ring i s n, count_upd_out ring i s n, ap (λ (k : ℕ). weight (ring k)))

abbrev pub filled : ReceiverState → ℕ
filled r = count_filled r.ring r.ring_len

-- The distance still ahead of the cursor, 0 if there is none.
abbrev pub ahead : ReceiverState → ℕ
ahead r = pos_part (distance w32 r.deliver_next r.highest)

abbrev pub measure : Flow → ℕ
measure f = filled f.receiver * 2 ^ 32 + ahead f.receiver

pub ahead_bound : (c h : ℕ) → c < 2 ^ 32 → h < 2 ^ 32 → pos_part (distance w32 c h) ≤ 2 ^ 31
unfolding distance
ahead_bound c h hc hh = ground arith

pub ahead_step :
    (c h k : ℕ)
    → c < 2 ^ 32
    → h < 2 ^ 32
    → 1 ≤ k
    → k ≤ pos_part (distance w32 c h)
    → pos_part (distance w32 ((c + k) % 2 ^ 32) h) + k ≡ pos_part (distance w32 c h)
unfolding distance
ahead_step c h k hc hh lo hi = ground arith
