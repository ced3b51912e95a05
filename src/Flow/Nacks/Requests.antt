-- ===== src/Flow/Nacks/Requests.antt =====
-- What one NACK pass requests, keeps and drops.
use ristgo.Prelude.{ℕ, ◌+◌, ◌-◌, ◌≤◌, ◌≡◌, ◌⊎◌, inl, inr, refl, arith}
use ristgo.Prelude.{true, false, Bool-cases, List, [], ◌∷◌, ◌++◌, length, length-append, All}
use ristgo.Prelude.{ltb, ◌∙◌, ap, sym}
use ristgo.Prelude.Int.{pos, ◌≤ℤ◌, ltb_ℤ, leb_ℤ}
use ristgo.Prelude.{Bool}
use ristgo.Prelude.Floats.{Floats}
use ristgo.Clock.{Timestamp, add, since, before}
use ristgo.Rtt.{retry_interval}
use ristgo.Flow.State.{Flow, MissingEntry, slot_at, is_filled}
use ristgo.Flow.Nacks.{
  Verdict, recovered, stale, abandoned, due, waiting, judge, Pass, keep, has_room, asked_entry,
  asked_pass, request, visit, walk, unlimited,
}
use mathlib.Core.List.{append-nil, append_assoc}
use mathlib.Core.Path.{subst}

-- An entry's counter of requests is 0 or at most the configured maximum.
abbrev pub Bounded : Flow → MissingEntry → Type 0
Bounded f e = (e.nack_count ≡ 0) ⊎ (pos e.nack_count ≤ℤ f.cfg.max_retries)

module _ (F : Floats) (now : Timestamp) (f : Flow) where
  -- The entry's slot of the ring is filled, by it or by another packet; it was requested as often as
  -- allowed; it is too old. Each of these takes it off the queue.
  abbrev pub has_arrived : MissingEntry → Bool
  has_arrived e = is_filled (slot_at f.receiver e.seq).state

  abbrev pub used_up : MissingEntry → Bool
  used_up e = leb_ℤ f.cfg.max_retries (pos e.nack_count)

  abbrev pub too_old : MissingEntry → Bool
  too_old e = ltb_ℤ f.recovery_buffer110 (since now e.insertion_time)

  abbrev pub Leaves : MissingEntry → Type 0
  Leaves e = (has_arrived e ≡ true) ⊎ (used_up e ≡ true) ⊎ (too_old e ≡ true)

  abbrev pub Remains : MissingEntry → Type 0
  Remains e = (has_arrived e ≡ false) × (used_up e ≡ false) × (too_old e ≡ false)

  -- An entry that stays as it is, when `n` sequences have been requested: its next request is not due,
  -- or it is due but the batch is full or the requests are limited in rate.
  abbrev pub Stays : ℕ → MissingEntry → Type 0
  Stays n e =
      Remains e
      × ((before now e.next_nack ≡ true)
          ⊎ ((before now e.next_nack ≡ false) × ((200 ≤ n) ⊎ (unlimited F f.receiver ≡ false))))

  -- An entry that has been requested once more: its counter is one higher and within the maximum,
  -- its next request is one interval away, and the rest is as before.
  abbrev pub once_more : MissingEntry → MissingEntry
  once_more e = record {
    seq = e.seq;
    insertion_time = e.insertion_time;
    next_nack = add now (retry_interval F f.est f.cfg.rtt_min f.cfg.rtt_max);
    nack_count = e.nack_count + 1;
    path = e.path;
  }

  -- From `n` sequences requested on: the entries, the sequences requested, and the entries left.
  pub data Requests : ℕ → List MissingEntry → List ℕ → List MissingEntry → Type 0 where
    none_left : (n : ℕ) → Requests n [] [] []
    drop :
        {n : ℕ} {es ks : List MissingEntry} {ns : List ℕ} (e : MissingEntry)
        → Leaves e
        → Requests n es ns ks
        → Requests n (e ∷ es) ns ks
    pass_over :
        {n : ℕ} {es ks : List MissingEntry} {ns : List ℕ} (e : MissingEntry)
        → Stays n e
        → Requests n es ns ks
        → Requests n (e ∷ es) ns (e ∷ ks)
    ask :
        {n : ℕ} {es ks : List MissingEntry} {ns : List ℕ} (e : MissingEntry)
        → Remains e
        → before now e.next_nack ≡ false
        → pos (e.nack_count + 1) ≤ℤ f.cfg.max_retries
        → Requests (n + 1) es ns ks
        → Requests n (e ∷ es) (e.seq ∷ ns) (once_more e ∷ ks)

  pub Requests-Bounded :
      {n : ℕ} {es ks : List MissingEntry} {ns : List ℕ}
      → Requests n es ns ks
      → All (Bounded f) es
      → All (Bounded f) ks
  Requests-Bounded (none_left n) h = tt
  Requests-Bounded (drop e g t) h = Requests-Bounded t h.1
  Requests-Bounded (pass_over e g t) h = (h.0, Requests-Bounded t h.1)
  Requests-Bounded (ask e g d below t) h = (inr below, Requests-Bounded t h.1)

  -- How a pass over `es` goes on from `p`, where the count is that of the entries kept and to come.
  pub record Went (es : List MissingEntry) (p q : Pass) : Type 0 where
    pub asked : List ℕ
    pub left : List MissingEntry
    pub batch : q.batch ≡ p.batch ++ asked
    pub kept : q.kept ≡ p.kept ++ left
    pub requests : Requests (length p.batch) es asked left
    pub few : length p.batch ≤ 200 → length q.batch ≤ 200
    pub count : p.count ≡ length p.kept + length es → q.count ≡ length q.kept

  due-below : (e : MissingEntry) → judge now f e ≡ due → pos (e.nack_count + 1) ≤ℤ f.cfg.max_retries
  unfolding judge
  due-below e h = ground arith

  due-Remains : (e : MissingEntry) → judge now f e ≡ due → Remains e
  unfolding judge
  due-Remains e h = ground arith

  due-before : (e : MissingEntry) → judge now f e ≡ due → before now e.next_nack ≡ false
  unfolding judge
  due-before e h = ground arith

  waiting-Stays : (e : MissingEntry) (n : ℕ) → judge now f e ≡ waiting → Stays n e
  unfolding judge
  waiting-Stays e n h = ground arith

  recovered-Leaves : (e : MissingEntry) → judge now f e ≡ recovered → Leaves e
  unfolding judge
  recovered-Leaves e h = ground arith

  stale-Leaves : (e : MissingEntry) → judge now f e ≡ stale → Leaves e
  unfolding judge
  stale-Leaves e h = ground arith

  abandoned-Leaves : (e : MissingEntry) → judge now f e ≡ abandoned → Leaves e
  unfolding judge
  abandoned-Leaves e h = ground arith

  kept-Went :
      (e : MissingEntry) (es : List MissingEntry) (p q : Pass)
      → Stays (length p.batch) e
      → Went es (keep e p) q
      → Went (e ∷ es) p q
  kept-Went e es p q stays w = record {
    asked = w.asked;
    left = e ∷ w.left;
    batch = w.batch;
    kept = w.kept ∙ append_assoc p.kept (e ∷ []) w.left;
    requests = pass_over e stays w.requests;
    few = w.few;
    count = λ h. w.count (omega (arith, h, length-append p.kept (e ∷ [])));
  }

  removed-Went :
      (e : MissingEntry) (es : List MissingEntry) (p m q : Pass)
      → Leaves e
      → m.kept ≡ p.kept
      → m.batch ≡ p.batch
      → m.count ≡ p.count - 1
      → Went es m q
      → Went (e ∷ es) p q
  removed-Went e es p m q leaves hk hb hc w = record {
    asked = w.asked;
    left = w.left;
    batch = w.batch ∙ ap (λ b. b ++ w.asked) hb;
    kept = w.kept ∙ ap (λ k. k ++ w.left) hk;
    requests = drop e leaves (subst (λ b. Requests (length b) es w.asked w.left) hb w.requests);
    few = λ h. w.few (omega (arith, h, ap length hb));
    count = λ h. w.count (omega (arith, h, hc, ap length hk));
  }

  asked-Went :
      (e : MissingEntry) (es : List MissingEntry) (p q : Pass)
      → judge now f e ≡ due
      → has_room F f.receiver p ≡ true
      → Went es (keep (asked_entry F now f e) (asked_pass F f e p)) q
      → Went (e ∷ es) p q
  unfolding has_room
  asked-Went e es p q h room w =
      let longer : length (p.batch ++ (e.seq ∷ [])) ≡ length p.batch + 1 =
        length-append p.batch (e.seq ∷ []) in
      let fits : ltb (length p.batch) 200 ≡ true = ground arith in
      record {
        asked = e.seq ∷ w.asked;
        left = once_more e ∷ w.left;
        batch = w.batch ∙ append_assoc p.batch (e.seq ∷ []) w.asked;
        kept = w.kept ∙ append_assoc p.kept (once_more e ∷ []) w.left;
        requests =
            ask e (due-Remains e h) (due-before e h) (due-below e h)
              (subst (λ n. Requests n es w.asked w.left) longer w.requests);
        few = λ le. w.few (ground (arith, longer, fits));
        count = λ c. w.count (omega (arith, c, length-append p.kept (once_more e ∷ [])));
      }

  full-Stays :
      (e : MissingEntry) (p : Pass)
      → judge now f e ≡ due
      → has_room F f.receiver p ≡ false
      → Stays (length p.batch) e
  unfolding has_room
  full-Stays e p h full = elim (Bool-cases (ltb (length p.batch) 200)) [
    | inl fits ↦ (due-Remains e h, inr (due-before e h, inr (ground arith)))
    | inr over ↦ (due-Remains e h, inr (due-before e h, inl (ground arith)))
  ]

  request-Went :
      (e : MissingEntry) (es : List MissingEntry) (p q : Pass)
      → judge now f e ≡ due
      → Went es (request F now f e p) q
      → Went (e ∷ es) p q
  unfolding request
  request-Went e es p q h = elim (Bool-cases (has_room F f.receiver p)) [
    | inl room ↦ rw room (asked-Went e es p q h room)
    | inr full ↦ rw full (kept-Went e es p q (full-Stays e p h full))
  ]

  verdict_cases :
      (v : Verdict) → (v ≡ recovered) ⊎ (v ≡ stale) ⊎ (v ≡ abandoned) ⊎ (v ≡ due) ⊎ (v ≡ waiting)
  verdict_cases v = ground arith

  visit-Went :
      (e : MissingEntry) (es : List MissingEntry) (p q : Pass)
      → Went es (visit F now f e p) q
      → Went (e ∷ es) p q
  unfolding visit
  visit-Went e es p q = elim (verdict_cases (judge now f e)) [
    | inl h ↦ rw (h, visit) (removed-Went e es p _ q (recovered-Leaves e h) refl refl refl)
    | inr (inl h) ↦ rw (h, visit) (removed-Went e es p _ q (stale-Leaves e h) refl refl refl)
    | inr (inr (inl h)) ↦
        rw (h, visit) (removed-Went e es p _ q (abandoned-Leaves e h) refl refl refl)
    | inr (inr (inr (inl h))) ↦ rw (h, visit) (request-Went e es p q h)
    | inr (inr (inr (inr h))) ↦
        rw (h, visit) (kept-Went e es p q (waiting-Stays e (length p.batch) h))
  ]

  pub walk-Went : (es : List MissingEntry) (p : Pass) → Went es p (walk F now f es p)
  unfolding walk
  walk-Went [] p = record {
    asked = [];
    left = [];
    batch = sym (append-nil p.batch);
    kept = sym (append-nil p.kept);
    requests = none_left (length p.batch);
    few = λ h. h;
    count = λ h. omega arith;
  }
  walk-Went (e ∷ es) p = visit-Went e es p _ (walk-Went es (visit F now f e p))
