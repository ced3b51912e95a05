-- ===== src/Flow/Reach.antt =====
-- The life of a receiving flow: `New`, then any sequence of calls of the public API.
use ristgo.Prelude.{ℕ, zero, suc, ◌-◌, ◌*◌, ◌^◌, ◌<◌, ◌≡◌, refl, arith, ap}
use ristgo.Prelude.{Bool-cases, inl, inr, Option, none, some, ltb, if◌then◌else◌}
use ristgo.Prelude.Floats.{Floats}
use ristgo.Clock.{Timestamp, Microseconds}
use ristgo.Wire.{MediaPacket, Feedback}
use ristgo.Flow.Effects.{TimerId, Output, Deliver}
use ristgo.Flow.Config.{Config, Role, role_sender, role_receiver, next_pow2_from, next_pow2}
use ristgo.Flow.State.{Flow, new, new_receiver, ◌>>=◌}
use ristgo.Flow.Sender.{sender_handle_timer}
use mathlib.Core.Path.{subst}
use ristgo.Prelude.{◌%◌, ◌≤◌, ◌∙◌, ltb→lt}
use ristgo.Prelude.Bits.{pow_suc}
use ristgo.Prelude.Int.{ℤ, pos, leb_ℤ, pos_part}
use ristgo.Flow.Config.{derive_ring_size}
use ristgo.Flow.Receiver.{set_sender_max_buffer}
use ristgo.Flow.Api.{
  feed, feed_feedback, handle_timer, tick, poll_output, poll_event, set_rtt_multiplier,
}
use ristgo.Flow.Nacks.Passes.{Asked, process_nacks_lem}
use native.Mathlib.Nat.{one-le-pow, pow-le-pow_right}
use ristgo.Flow.Invariant.{Inv, Quiet, Quiet-Inv, deliver_due-Inv}
use ristgo.Flow.Invariant.Ingest.{feed-Inv}
use ristgo.Flow.Invariant.Timers.{unmoved, process_nacks-Inv, timer-Inv, feedback-Inv}

module _ (F : Floats) where
  -- One call on a flow in the receiver role. Sequence numbers are uint32.
  pub data Step (f : Flow) : Flow → Type 0 where
    fed :
        (now : Timestamp) (path : ℕ) (pkt : MediaPacket)
        → pkt.seq < 2 ^ 32
        → Step f (feed now path pkt f)
    answered : (now : Timestamp) (fb : Feedback) → Step f (feed_feedback now fb f)
    fired : (now : Timestamp) (id : TimerId) → Step f (handle_timer F now id f)
    ticked : (now : Timestamp) → Step f (tick F now f)
    told_buffer : (max_buffer : Microseconds) → Step f (set_sender_max_buffer max_buffer f)
    set_multiplier : (multiplier : ℤ) → Step f (set_rtt_multiplier multiplier f)
    polled_output : (z : Output) → Step f (poll_output z f).1
    polled_event : (z : Deliver) → Step f (poll_event z f).1

  pub data Reachable (cfg : Config) : Flow → Type 0 where
    made : (f : Flow) → new F role_receiver cfg ≡ some f → Reachable cfg f
    after : (f f' : Flow) → Reachable cfg f → f.role ≡ role_receiver → Step f f' → Reachable cfg f'

  set_buffer-Quiet : (m : Microseconds) (f : Flow) → Quiet f (set_sender_max_buffer m f)
  unfolding set_sender_max_buffer
  set_buffer-Quiet m f = ground arith

  as_receiver :
      (o : Role) (g h : Flow)
      → o ≡ role_receiver
      → Inv g
      → Inv (elim o [ role_receiver ↦ g | role_sender ↦ h ])
  as_receiver role_receiver g h e v = v
  as_receiver role_sender g h e v = absurd (ground arith)

  multiplier-Inv : (m : ℤ) (f : Flow) → Inv f → Inv (set_rtt_multiplier m f)
  unfolding set_rtt_multiplier
  multiplier-Inv m f v = record {
    shaped = v.shaped;
    last = v.last;
    queue = record { count = v.queue.count; bounded = v.queue.bounded };
  }

  fed-Inv :
      (now : Timestamp) (path : ℕ) (pkt : MediaPacket) (f : Flow)
      → pkt.seq < 2 ^ 32
      → f.role ≡ role_receiver
      → Inv f
      → Inv (feed now path pkt f)
  unfolding feed
  fed-Inv now path pkt f h e v = as_receiver f.role _ f e (feed-Inv now path pkt f h v)

  fired-Inv :
      (now : Timestamp) (id : TimerId) (f : Flow)
      → f.role ≡ role_receiver
      → Inv f
      → Inv (handle_timer F now id f)
  unfolding handle_timer
  fired-Inv now id f e v =
      as_receiver f.role _ (sender_handle_timer now id f) e (timer-Inv F now id f v)

  ticked-Inv : (now : Timestamp) (f : Flow) → f.role ≡ role_receiver → Inv f → Inv (tick F now f)
  unfolding tick
  ticked-Inv now f e v =
      as_receiver f.role _ f e (process_nacks-Inv F now _ (deliver_due-Inv now f v))

  Step-Inv : (f f' : Flow) → f.role ≡ role_receiver → Step f f' → Inv f → Inv f'
  Step-Inv f _ e (fed now path pkt h) v = fed-Inv now path pkt f h e v
  Step-Inv f _ e (answered now fb) v = feedback-Inv now fb f e v
  Step-Inv f _ e (fired now id) v = fired-Inv now id f e v
  Step-Inv f _ e (ticked now) v = ticked-Inv now f e v
  Step-Inv f _ e (told_buffer m) v = Quiet-Inv f _ (set_buffer-Quiet m f) v
  Step-Inv f _ e (set_multiplier m) v = multiplier-Inv m f v
  Step-Inv f _ e (polled_output z) v = unfold poll_output in Quiet-Inv f _ (unmoved f) v
  Step-Inv f _ e (polled_event z) v = unfold poll_event in Quiet-Inv f _ (unmoved f) v

  exponent_lt : (k n : ℕ) → 2 ^ k < n → n ≤ 2 ^ 32 → k < 32
  exponent_lt k n lo hi = elim (Bool-cases (ltb k 32)) [
    | inl small ↦ ltb→lt _ _ small
    | inr large ↦
        let above : 32 ≤ k = ground (arith, large) in
        let two : 0 < 2 = omega arith in
        let grown : 2 ^ 32 ≤ 2 ^ k = pow-le-pow_right two above in
        absurd (omega (arith, lo, hi, grown))
  ]

  -- The power of two that is found for a size of at most 2^32 is at most 2^32.
  pow2_from :
      (fuel n p k s : ℕ)
      → n ≤ 2 ^ 32
      → k ≤ 32
      → p ≡ 2 ^ k
      → next_pow2_from fuel n p ≡ some s
      → (j : ℕ) × (j ≤ 32) × (s ≡ 2 ^ j)
  unfolding next_pow2_from
  pow2_from zero n p k s small within at e = absurd (ground arith)
  pow2_from (suc fuel) n p k s small within at e = elim (Bool-cases (ltb p n)) [
    | inl low ↦
        let below : 2 ^ k < n = subst (λ x. x < n) at (ltb→lt _ _ low) in
        pow2_from fuel n (p * 2) (suc k) s small (exponent_lt k n below small)
          (omega (arith, at, pow_suc k)) (ground (arith, low, e))
    | inr high ↦ (k, within, ground (arith, at, high, e))
  ]

  bound_some :
      (o : Option ℕ) (k : ℕ → Flow) (f : Flow)
      → (o >>= (λ s. some (k s))) ≡ some f
      → (size : ℕ) × (o ≡ some size) × (k size ≡ f)
  bound_some none k f e = absurd (ground arith)
  bound_some (some size) k f e = (size, refl, ground arith)

  -- The mask of a ring of at most 2^32 slots.
  mask_of : (j : ℕ) → j ≤ 32 → (2 ^ j - 1) % 2 ^ 32 ≡ 2 ^ j - 1
  mask_of j within =
      let two : 0 < 2 = omega arith in
      let top : 2 ^ j ≤ 2 ^ 32 = pow-le-pow_right two within in
      let some_slot : 1 ≤ 2 ^ j = one-le-pow j 2 (omega arith) in omega (arith, top, some_slot)

  -- The number of slots that `New` asks for, before it is rounded up to a power of two.
  abbrev pub wanted_size : Config → ℕ
  wanted_size cfg =
      pos_part (if leb_ℤ cfg.ring_size (pos 0) then derive_ring_size cfg else cfg.ring_size)

  new-Inv :
      (cfg : Config) (f : Flow)
      → wanted_size cfg ≤ 2 ^ 32
      → new F role_receiver cfg ≡ some f
      → Inv f
  unfolding new new_receiver next_pow2
  new-Inv cfg f small e =
      let (size, sized, same) = bound_some _ _ f e in
      let (j, within, pow) =
        pow2_from 63 (wanted_size cfg) 1 0 size small (omega arith) refl sized in
      subst Inv same (record {
        shaped = record {
          bits = j;
          len = pow;
          ones = ap (λ n. (n - 1) % 2 ^ 32) pow ∙ mask_of j within;
          cursor = omega arith;
          top = omega arith;
        };
        last = omega arith;
        queue = record { count = refl; bounded = tt };
      })

  Reachable-Inv : (cfg : Config) (f : Flow) → wanted_size cfg ≤ 2 ^ 32 → Reachable cfg f → Inv f
  Reachable-Inv cfg f small (made _ e) = new-Inv cfg f small e
  Reachable-Inv cfg f small (after g _ r role s) = Step-Inv g f role s (Reachable-Inv cfg g small r)

  -- For a configuration that wants a ring of at most 2^32 slots, every flow in the receiver role that
  -- `New` and then any calls of the API lead to keeps its invariant: the ring's size is a power of two
  -- and the mask is one less, the cursors are 32-bit, the missing counter counts the queue, and each
  -- queued entry's counter of requests is 0 or at most MaxRetries. A NACK pass from it, at any time,
  -- requests at most 200 sequences, raises the counter of each entry it requests by one, requests none
  -- whose counter has reached MaxRetries, and leaves the other entries as they are or drops them.
  pub reachable-Inv :
      (cfg : Config) (f : Flow) (now : Timestamp)
      → wanted_size cfg ≤ 2 ^ 32
      → Reachable cfg f
      → Inv f × Asked F now f
  reachable-Inv cfg f now small r =
      let v = Reachable-Inv cfg f small r in (v, (process_nacks_lem F now f v.queue).0)
