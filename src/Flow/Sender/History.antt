-- ===== src/Flow/Sender/History.antt =====
-- `serviceNack` and the history: what a request is answered with.
use ristgo.Prelude.{ℕ, ◌+◌, ◌%◌, ◌^◌, ◌≤◌, ◌≡◌, ◌⊎◌, inl, inr, refl, arith, ◌∙◌, ap, sym}
use ristgo.Prelude.{Bool, true, false, Bool-cases, List, [], ◌∷◌, ◌++◌, length, All, ◌==◌, ◌&&◌}
use ristgo.Prelude.{if◌then◌else◌, some, bit_and}
use ristgo.Prelude.Int.{pos, ◌≤ℤ◌, leb_ℤ}
use ristgo.Clock.{Timestamp, Microseconds}
use ristgo.Wire.{FragRole}
use ristgo.Flow.Fifo.{Fifo, push}
use ristgo.Flow.Effects.{Output, send_media}
use ristgo.Flow.Config.{congestion_off}
use ristgo.Flow.Congestion.{over_budget}
use ristgo.Flow.State.{Flow, SenderState, SenderSlot, sender_slot_at, is_filled}
use ristgo.Flow.Sender.{
  Gate, aged, suppressed, over, exhausted, resend, gate, retransmit, refuse, is_resend, media_of,
  service_loop, service_nack, refresh_rates, spacing, push_app_block, start_sender, history_slot,
}
use mathlib.Core.List.{append-nil, append_assoc, map}
use mathlib.Core.Path.{subst}

-- What a history slot keeps through retransmissions.
abbrev SameSlot : SenderSlot → SenderSlot → Type 0
SameSlot a b =
    (b.payload ≡ a.payload)
    × (b.source_time ≡ a.source_time)
    × (b.seq ≡ a.seq)
    × (b.frag ≡ a.frag)
    × (b.state ≡ a.state)

record SameHistory (s t : SenderState) : Type 0 where
  mask : t.mask ≡ s.mask
  ssrc : t.ssrc ≡ s.ssrc
  path : t.tx_path ≡ s.tx_path
  slots : (i : ℕ) → SameSlot (s.ring i) (t.ring i)

-- The history holds the sequence `n`.
abbrev pub in_history : SenderState → ℕ → Bool
in_history s n = is_filled (sender_slot_at s n).state && (sender_slot_at s n).seq == n

-- The retransmission of the history's packet `n`.
abbrev pub resent_packet : SenderState → ℕ → Output
resent_packet s n = send_media s.tx_path (media_of s (sender_slot_at s n) true)

-- Sequences picked from a request, in its order.
pub data Picks : List ℕ → List ℕ → Type 0 where
  none_left : Picks [] []
  leave : {ms ns : List ℕ} (n : ℕ) → Picks ms ns → Picks ms (n ∷ ns)
  take : {ms ns : List ℕ} (n : ℕ) → Picks ms ns → Picks (n ∷ ms) (n ∷ ns)

-- The answer to a request, against the history `s` that stood before it.
pub record Serviced (s : SenderState) (f : Flow) (ns : List ℕ) (emitted : ℕ) (f' : Flow)
    : Type 0 where
  pub resent : List ℕ
  pub picked : Picks resent ns
  pub held : All (λ n. in_history s n ≡ true) resent
  pub appended : f'.outputs.items ≡ f.outputs.items ++ map (resent_packet s) resent
  pub counted : f'.stats.retransmitted % 2 ^ 64 ≡ (f.stats.retransmitted + length resent) % 2 ^ 64
  pub few : (length resent ≤ 1) ⊎ (pos (emitted + length resent) ≤ℤ f.max_nacks_per_loop)

same_history : (s : SenderState) → SameHistory s s
same_history s = record {
  mask = refl;
  ssrc = refl;
  path = refl;
  slots = λ i. (refl, refl, refl, refl, refl);
}

retransmit-SameHistory :
    (now : Timestamp) (n : ℕ) (s : SenderState) (f : Flow)
    → SameHistory s f.sender
    → SameHistory s (retransmit now n f).sender
unfolding retransmit
retransmit-SameHistory now n s f h = record {
  mask = h.mask;
  ssrc = h.ssrc;
  path = h.path;
  slots = λ i. ground (arith, h.slots i);
}

none_picked : (ns : List ℕ) → Picks [] ns
none_picked [] = none_left
none_picked (n ∷ ns) = leave n (none_picked ns)

same_packet : (s t : SenderState) (n : ℕ) → SameHistory s t → resent_packet t n ≡ resent_packet s n
same_packet s t n h =
    let k = h.slots (bit_and n s.mask) in ground (arith, h.mask, h.ssrc, h.path, k)

same_held : (s t : SenderState) (n : ℕ) → SameHistory s t → in_history t n ≡ in_history s n
same_held s t n h = let k = h.slots (bit_and n s.mask) in ground (arith, h.mask, k)

gate-held :
    (now : Timestamp) (rtt : Microseconds) (f : Flow) (n : ℕ)
    → is_resend (gate now rtt f n) ≡ true
    → in_history f.sender n ≡ true
unfolding gate
gate-held now rtt f n e = ground arith

-- A packet that was pushed with a sequence and a source time, and is then requested alone, is
-- sent again as it was, marked as a retransmission, and nothing else is, if recovery is on,
-- congestion control is off and retries are allowed.
pub nack_after_push :
    (now later : Timestamp) (payload : List ℕ) (frag : FragRole) (seq src : ℕ) (f : Flow)
    → f.cfg.no_recovery ≡ false
    → f.cfg.congestion_control ≡ congestion_off
    → leb_ℤ f.cfg.max_retries (pos 0) ≡ false
    → let g = push_app_block now payload frag (some seq) (some src) f in
      (service_nack later (seq ∷ []) g).outputs.items
      ≡ g.outputs.items
        ++ (send_media f.sender.tx_path (media_of f.sender (history_slot seq src payload frag) true)
            ∷ [])
unfolding push_app_block start_sender service_nack service_loop gate retransmit refuse refresh_rates
    over_budget push
nack_after_push now later payload frag seq src f on off some_retries = ground arith

-- Nothing sent.
nothing-Serviced :
    (s : SenderState) (f : Flow) (ns : List ℕ) (emitted : ℕ) → Serviced s f ns emitted f
nothing-Serviced s f ns emitted = record {
  resent = [];
  picked = none_picked ns;
  held = tt;
  appended = sym (append-nil f.outputs.items);
  counted = omega arith;
  few = inl (omega arith);
}

-- A refusal changes only its own counter.
refuse-frame :
    (o : Gate) (f : Flow)
    → ((refuse o f).outputs ≡ f.outputs)
      × ((refuse o f).stats.retransmitted ≡ f.stats.retransmitted)
      × ((refuse o f).max_nacks_per_loop ≡ f.max_nacks_per_loop)
      × ((refuse o f).sender ≡ f.sender)
unfolding refuse
refuse-frame aged f = (refl, refl, refl, refl)
refuse-frame suppressed f = (refl, refl, refl, refl)
refuse-frame over f = (refl, refl, refl, refl)
refuse-frame exhausted f = (refl, refl, refl, refl)
refuse-frame resend f = (refl, refl, refl, refl)

refuse-Serviced :
    (s : SenderState) (o : Gate) (n : ℕ) (f f' : Flow) (ns : List ℕ) (emitted : ℕ)
    → Serviced s (refuse o f) ns emitted f'
    → Serviced s f (n ∷ ns) emitted f'
refuse-Serviced s o n f f' ns emitted k =
    let (outputs, total, limit, _) = refuse-frame o f in
    record {
      resent = k.resent;
      picked = leave n k.picked;
      held = k.held;
      appended =
          k.appended ∙ ap (λ (q : Fifo Output). q.items ++ map (resent_packet s) k.resent) outputs;
      counted = omega (arith, k.counted, total);
      few = rw limit at k.few;
    }

-- One retransmission, and then the answer to the rest.
retransmit-Serviced :
    (now : Timestamp) (s : SenderState) (n : ℕ) (f f' : Flow) (ns : List ℕ) (emitted : ℕ)
    → SameHistory s f.sender
    → in_history f.sender n ≡ true
    → leb_ℤ f.max_nacks_per_loop (pos (emitted + 1)) ≡ false
    → Serviced s (retransmit now n f) ns (emitted + 1) f'
    → Serviced s f (n ∷ ns) emitted f'
unfolding retransmit push
retransmit-Serviced now s n f f' ns emitted h held room k = record {
  resent = n ∷ k.resent;
  picked = take n k.picked;
  held = (sym (same_held s f.sender n h) ∙ held, k.held);
  appended =
      k.appended
      ∙ append_assoc f.outputs.items (resent_packet f.sender n ∷ [])
          (map (resent_packet s) k.resent)
      ∙ ap (λ (o : Output). f.outputs.items ++ (o ∷ map (resent_packet s) k.resent))
          (same_packet s f.sender n h);
  counted = omega (arith, k.counted);
  few = inr (ground (arith, k.few, room));
}

-- The retransmission that reaches the limit.
last-Serviced :
    (now : Timestamp) (s : SenderState) (n : ℕ) (f : Flow) (ns : List ℕ) (emitted : ℕ)
    → SameHistory s f.sender
    → in_history f.sender n ≡ true
    → Serviced s f (n ∷ ns) emitted (retransmit now n f)
unfolding retransmit push
last-Serviced now s n f ns emitted h held = record {
  resent = n ∷ [];
  picked = take n (none_picked ns);
  held = (sym (same_held s f.sender n h) ∙ held, tt);
  appended = ap (λ (o : Output). f.outputs.items ++ (o ∷ [])) (same_packet s f.sender n h);
  counted = omega arith;
  few = inl (omega arith);
}

service_loop-cons :
    (now : Timestamp) (rtt : Microseconds) (n : ℕ) (ns : List ℕ) (emitted : ℕ) (f : Flow)
    → let sent = retransmit now n f in
      service_loop now rtt (n ∷ ns) emitted f ≡ (
        if is_resend (gate now rtt f n)
        then (if leb_ℤ f.max_nacks_per_loop (pos (emitted + 1))
            then sent
            else service_loop now rtt ns (emitted + 1) sent)
        else service_loop now rtt ns emitted (refuse (gate now rtt f n) f))
unfolding service_loop
service_loop-cons now rtt n ns emitted f = refl

service_loop-Serviced :
    (now : Timestamp) (rtt : Microseconds) (s : SenderState) (ns : List ℕ) (emitted : ℕ) (f : Flow)
    → SameHistory s f.sender
    → Serviced s f ns emitted (service_loop now rtt ns emitted f)
service_loop-Serviced now rtt s [] emitted f h =
    unfold service_loop in nothing-Serviced s f [] emitted
service_loop-Serviced now rtt s (n ∷ ns) emitted f h =
    let sent =
      service_loop-Serviced now rtt s ns (emitted + 1) (retransmit now n f)
        (retransmit-SameHistory now n s f h) in
    let (_, _, _, kept) = refuse-frame (gate now rtt f n) f in
    let refused =
      service_loop-Serviced now rtt s ns emitted (refuse (gate now rtt f n) f)
        (subst (SameHistory s) (sym kept) h) in
    subst (Serviced s f (n ∷ ns) emitted) (sym (service_loop-cons now rtt n ns emitted f))
      (elim (Bool-cases (is_resend (gate now rtt f n))) [
        | inl resends ↦
            let held = gate-held now rtt f n resends in
            elim (Bool-cases (leb_ℤ f.max_nacks_per_loop (pos (emitted + 1)))) [
              | inl limit ↦ simp (resends, limit) (last-Serviced now s n f ns emitted h held)
              | inr room ↦
                  simp (resends, room) (retransmit-Serviced now s n f _ ns emitted h held room sent)
            ]
        | inr refuses ↦ simp refuses (refuse-Serviced s (gate now rtt f n) n f _ ns emitted refused)
      ])

-- A NACK is answered with retransmissions of packets that were in the history when it arrived,
-- each as it stands there and marked as a retransmission, for sequences picked from the request
-- in its order; nothing else is sent. Retransmitted counts them, and they are at most one or at
-- most MaxNacksPerLoop.
pub service_nack-Serviced :
    (now : Timestamp) (ns : List ℕ) (f : Flow) → Serviced f.sender f ns 0 (service_nack now ns f)
unfolding service_nack refresh_rates
service_nack-Serviced now ns f =
    let k = service_loop-Serviced now (spacing f) f.sender ns 0 (refresh_rates now f) (record {
      mask = refl;
      ssrc = refl;
      path = refl;
      slots = λ i. (refl, refl, refl, refl, refl);
    }) in
    record {
      resent = k.resent;
      picked = k.picked;
      held = k.held;
      appended = k.appended;
      counted = k.counted;
      few = k.few;
    }
