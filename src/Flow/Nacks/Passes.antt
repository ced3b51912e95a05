-- ===== src/Flow/Nacks/Passes.antt =====
-- `processNacks` as a whole: what it sends, and what it keeps true of the queue.
use ristgo.Prelude.{ℕ, ◌≤◌, ◌≡◌, ◌≢◌, ap, sym, ◌∙◌, arith, true, Bool-cases, inl, inr}
use ristgo.Prelude.{List, [], ◌∷◌, length, All, ◌==◌}
use mathlib.Core.Path.{subst, subst₂}
use native.Mathlib.Decide.{ℕ_discrete}
use ristgo.Flow.Nacks.{first_pass}
use ristgo.Prelude.Floats.{Floats}
use ristgo.Clock.{Timestamp}
use ristgo.Wire.{nack_request}
use ristgo.Flow.Fifo.{Fifo, push}
use ristgo.Flow.Effects.{Output, send_feedback}
use ristgo.Flow.State.{Flow, ReceiverState, MissingEntry}
use ristgo.Flow.Nacks.{limited, unlimited, refill, run_pass, process_nacks, Pass}
use ristgo.Flow.Nacks.Requests.{
  Bounded, Leaves, Remains, has_arrived, Stays, Requests, Requests-Bounded, Went, walk-Went,
  none_left, drop, pass_over, ask,
}

-- The outputs after a pass: one NackRequest for the whole batch, if there is one.
abbrev pub reply : ReceiverState → Fifo Output → List ℕ → Fifo Output
reply r q [] = q
reply r q (n ∷ ns) = push q (send_feedback r.last_path (nack_request r.ssrc (n ∷ ns)))

-- The queue's count is right, and each entry's counter of requests is 0 or within the maximum.
pub record QueueSound (f : Flow) : Type 0 where
  pub count : f.receiver.missing_count ≡ length f.receiver.missing
  pub bounded : All (Bounded f) f.receiver.missing

module _ (F : Floats) (now : Timestamp) (f : Flow) where
  abbrev refilled : Flow
  refilled = record f { receiver = refill F now f.receiver }

  -- The refill touches nothing but the tokens.
  refill-frame :
      let r = refill F now f.receiver in
      r ≡ record (f.receiver) { nack_tokens = r.nack_tokens; nack_tokens_time = r.nack_tokens_time }
  unfolding refill
  refill-frame = elim (Bool-cases (limited F f.receiver)) [ inl e ↦ rw e | inr e ↦ rw e ]

  arrived-refilled : (e : MissingEntry) → has_arrived F now refilled e ≡ has_arrived F now f e
  arrived-refilled e = rw refill-frame

  Leaves-refilled : (e : MissingEntry) → Leaves F now refilled e → Leaves F now f e
  Leaves-refilled e (inl h) = inl (sym (arrived-refilled e) ∙ h)
  Leaves-refilled e (inr h) = inr h

  Remains-refilled : (e : MissingEntry) → Remains F now refilled e → Remains F now f e
  Remains-refilled e (h, k, l) = (sym (arrived-refilled e) ∙ h, k, l)

  unlimited-refilled : unlimited F refilled.receiver ≡ unlimited F f.receiver
  unfolding unlimited
  unlimited-refilled = rw refill-frame

  Stays-refilled : (n : ℕ) (e : MissingEntry) → Stays F now refilled n e → Stays F now f n e
  Stays-refilled n e (g, inl h) = (Remains-refilled e g, inl h)
  Stays-refilled n e (g, inr (h, inl full)) = (Remains-refilled e g, inr (h, inl full))
  Stays-refilled n e (g, inr (h, inr slow)) =
      (Remains-refilled e g, inr (h, inr (sym unlimited-refilled ∙ slow)))

  Requests-refilled :
      {n : ℕ} {es ks : List MissingEntry} {ns : List ℕ}
      → Requests F now refilled n es ns ks
      → Requests F now f n es ns ks
  Requests-refilled (none_left n) = none_left n
  Requests-refilled (drop e g t) = drop e (Leaves-refilled e g) (Requests-refilled t)
  Requests-refilled (pass_over e g t) = pass_over e (Stays-refilled _ e g) (Requests-refilled t)
  Requests-refilled (ask e g d b t) = ask e (Remains-refilled e g) d b (Requests-refilled t)

  abbrev pass_now : Pass
  pass_now = run_pass F now refilled

  outcome :
      f.receiver.missing_count ≢ 0
      → let g = process_nacks F now f in
        (g.outputs ≡ reply (refill F now f.receiver) f.outputs pass_now.batch)
        × (g.receiver.missing ≡ pass_now.kept)
        × (g.receiver.missing_count ≡ pass_now.count)
        × (g.cfg ≡ f.cfg)
  unfolding process_nacks
  outcome h = ground arith

  went : Went F now refilled refilled.receiver.missing (first_pass refilled) pass_now
  unfolding run_pass
  went = walk-Went F now refilled refilled.receiver.missing (first_pass refilled)

  same_queue : (refill F now f.receiver).missing ≡ f.receiver.missing
  same_queue = ap (λ r. r.missing) refill-frame

  pass-Requests : Requests F now f 0 f.receiver.missing pass_now.batch pass_now.kept
  pass-Requests =
      let left =
        subst (Requests F now f 0 refilled.receiver.missing went.asked) (sym went.kept)
          (Requests-refilled went.requests) in
      subst₂ (λ es ns. Requests F now f 0 es ns pass_now.kept) same_queue (sym went.batch) left

  kept-count : QueueSound f → pass_now.count ≡ length pass_now.kept
  kept-count v =
      let same_count : (refill F now f.receiver).missing_count ≡ f.receiver.missing_count =
        ap (λ r. r.missing_count) refill-frame in
      went.count (omega (arith, same_count, ap length same_queue, v.count))

  empty_queue : (es : List MissingEntry) → length es ≡ 0 → Requests F now f 0 es [] es
  empty_queue [] h = none_left 0
  empty_queue (e ∷ es) h = absurd (omega (arith, h))

  idle_pass : f.receiver.missing_count ≡ 0 → process_nacks F now f ≡ f
  unfolding process_nacks
  idle_pass z = let e : (f.receiver.missing_count == 0) ≡ true = ground arith in simp e

  -- What a pass requests and leaves.
  pub record Asked : Type 0 where
    pub batch : List ℕ
    pub requests :
        Requests F now f 0 f.receiver.missing batch (process_nacks F now f).receiver.missing
    pub few : length batch ≤ 200
    pub sent : (process_nacks F now f).outputs ≡ reply (refill F now f.receiver) f.outputs batch

  -- A pass over a sound queue sends nothing or one NackRequest, for at most 200 sequences, and treats
  -- the entries in the queue's order. An entry leaves the queue if its slot of the ring is filled, if
  -- its counter of requests has reached MaxRetries, or if it is older than the flow allows
  -- (recoveryBuffer110). Any other entry stays. It is requested only if its next request is due; then its counter
  -- grows by one and is at most MaxRetries, and its next request is one interval away. If it is not
  -- requested it stays as it is, and then its next request is not due, or the batch is full, or the
  -- requests are limited in rate. The queue is sound afterwards: its count is right, and each entry's
  -- counter is 0 or at most MaxRetries.
  pub process_nacks_lem : QueueSound f → Asked × QueueSound (process_nacks F now f)
  process_nacks_lem v = elim (ℕ_discrete f.receiver.missing_count 0) [
    | yes none_missing ↦
        let same = idle_pass none_missing in
        (
          record {
            batch = [];
            requests =
                subst (λ g. Requests F now f 0 f.receiver.missing [] g.receiver.missing) (sym same)
                  (empty_queue f.receiver.missing (sym v.count ∙ none_missing));
            few = omega arith;
            sent = ap (λ g. g.outputs) same;
          },
          subst QueueSound (sym same) v,
        )
    | no some_missing ↦
        let (sent, queue, count, cfg) = outcome some_missing in
        let requests =
          subst (Requests F now f 0 f.receiver.missing pass_now.batch) (sym queue) pass-Requests in
        (
          record {
            batch = pass_now.batch;
            requests = requests;
            few = went.few (omega arith);
            sent = sent;
          },
          record {
            count = count ∙ (kept-count v ∙ ap length (sym queue));
            bounded = rw cfg (Requests-Bounded F now f requests v.bounded);
          },
        )
  ]
