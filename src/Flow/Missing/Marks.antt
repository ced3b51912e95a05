-- ===== src/Flow/Missing/Marks.antt =====
-- What `markMissing` queues.
use ristgo.Prelude.{ℕ, zero, suc, ◌+◌, ◌-◌, ◌%◌, ◌^◌, ◌≤◌, ◌<◌, ◌≡◌, ◌⊎◌, inl, inr, refl, arith}
use ristgo.Prelude.{true, false, Bool-cases, List, [], ◌∷◌, ◌++◌, length, max}
use ristgo.Prelude.{◌/◌, if◌then◌else◌, ltb, ltb→lt, ◌==◌, ==_iff, ◌∙◌, ◌||◌}
use ristgo.Clock.{Timestamp, Microseconds}
use ristgo.Flow.State.{Flow, MissingEntry}
use ristgo.Flow.Effects.{inc64}
use ristgo.Clock.{add}
use mathlib.Core.Path.{ap₂}
use ristgo.Flow.Missing.{new_entry, add_missing, mark_loop, mark_missing, gap_to, max_gap}
use mathlib.Core.List.{append-nil, append_assoc}
use native.Mathlib.Nat.{add-zero}

-- A flow with another missing queue.
abbrev pub marked : Flow → List MissingEntry → ℕ → ℕ → Flow
marked f queue count total = record f {
  receiver = record (f.receiver) { missing = queue; missing_count = count };
  stats = record (f.stats) { missing = total };
}

-- New entries: consecutive sequences from `m` on, never requested yet, for one path.
abbrev pub Fresh : ℕ → ℕ → List MissingEntry → Type 0
Fresh path m [] = Unit {0}
Fresh path m (e ∷ es) =
    (e.seq ≡ m) × (e.nack_count ≡ 0) × (e.path ≡ path) × Fresh path ((m + 1) % 2 ^ 32) es

-- The queue grew by fresh entries from `m` on, at most `d` of them; and fewer only because the
-- queue passed its limit or the rounds reached the ring's size.
pub record Marks (path m d count : ℕ) (f f' : Flow) : Type 0 where
  pub added : List MissingEntry
  pub total : ℕ
  pub grown :
      f' ≡ marked f (f.receiver.missing ++ added) (f.receiver.missing_count + length added) total
  pub fresh : Fresh path m added
  pub counted : total % 2 ^ 64 ≡ (f.stats.missing + length added) % 2 ^ 64
  pub within : length added ≤ d
  pub limit :
      f.receiver.missing_count + length added
      ≤ max f.receiver.missing_count (f.missing_counter_max + 1)
  pub full :
      (length added ≡ d)
      ⊎ (f.missing_counter_max < f.receiver.missing_count + length added)
      ⊎ (count + length added ≡ f.receiver.ring_len)

no-Marks :
    (path m d count : ℕ) (f : Flow)
    → (d ≡ 0) ⊎ (f.missing_counter_max < f.receiver.missing_count)
    → Marks path m d count f f
no-Marks path m d count f why = record {
  added = [];
  total = f.stats.missing;
  grown = same;
  fresh = tt;
  counted = omega arith;
  within = omega arith;
  limit = omega arith;
  full = ground arith;
}
  where
    same : f ≡ marked f (f.receiver.missing ++ []) (f.receiver.missing_count + 0) f.stats.missing
    same = rw (append-nil f.receiver.missing, add-zero f.receiver.missing_count)

-- One entry more in front.
more-Marks :
    (now : Timestamp) (path m d count : ℕ) (t : Timestamp) (f f' : Flow)
    → f.receiver.missing_count ≤ f.missing_counter_max
    → Marks path ((m + 1) % 2 ^ 32) d (count + 1) (add_missing now path m t f) f'
    → Marks path m (suc d) count f f'
unfolding add_missing
more-Marks now path m d count t f f' room k =
    let e = new_entry now path m t f in
    let queue : (f.receiver.missing ++ (e ∷ [])) ++ k.added ≡ f.receiver.missing ++ (e ∷ k.added) =
      append_assoc f.receiver.missing (e ∷ []) k.added in
    let size : f.receiver.missing_count + 1 + length k.added
        ≡ f.receiver.missing_count + suc (length k.added) =
      omega arith in
    record {
      added = e ∷ k.added;
      total = k.total;
      grown = k.grown ∙ ap₂ (λ l c. marked f l c k.total) queue size;
      fresh = (refl, refl, refl, k.fresh);
      counted = omega (arith, k.counted);
      within = omega (arith, k.within);
      limit = omega (arith, k.limit);
      full = ground (arith, k.full);
    }

-- The last entry before the rounds reach the ring's size.
last-Marks :
    (now : Timestamp) (path m d count : ℕ) (t : Timestamp) (f : Flow)
    → f.receiver.missing_count ≤ f.missing_counter_max
    → count + 1 ≡ f.receiver.ring_len
    → Marks path m (suc d) count f (add_missing now path m t f)
unfolding add_missing
last-Marks now path m d count t f room at_end = record {
  added = new_entry now path m t f ∷ [];
  total = inc64 f.stats.missing;
  grown = refl;
  fresh = (refl, refl, refl, tt);
  counted = omega arith;
  within = omega arith;
  limit = omega arith;
  full = inr (inr (omega arith));
}

-- The loop from `m`, `d` sequences before `current`.
mark_loop-Marks :
    (fuel : ℕ) (now : Timestamp) (path current : ℕ) (ipt : Microseconds) (t : Timestamp)
    (m d count : ℕ) (f : Flow)
    → m < 2 ^ 32
    → current ≡ (m + d) % 2 ^ 32
    → d < 2 ^ 32
    → d ≤ fuel
    → Marks path m d count f (mark_loop fuel now path current ipt t m count f)
unfolding mark_loop
mark_loop-Marks zero now path current ipt t m d count f hm hc hd hf =
    no-Marks path m d count f (inl (omega arith))
mark_loop-Marks (suc fuel) now path current ipt t m zero count f hm hc hd hf =
    let at_end : m == current || ltb f.missing_counter_max f.receiver.missing_count ≡ true =
      ground arith in
    rw at_end (no-Marks path m 0 count f (inl refl))
mark_loop-Marks (suc fuel) now path current ipt t m (suc d) count f hm hc hd hf =
    let later = add t ipt in
    let f1 = add_missing now path m later f in
    let before_end : (m == current) ≡ false = ground arith in
    let rest =
      mark_loop-Marks fuel now path current ipt later ((m + 1) % 2 ^ 32) d (count + 1) f1
        (omega arith) (omega arith) (omega arith) (omega arith) in
    elim (Bool-cases (ltb f.missing_counter_max f.receiver.missing_count)) [
      | inl over ↦ rw (before_end, over) (no-Marks path m (suc d) count f (inr (ltb→lt _ _ over)))
      | inr room ↦
          let fits : f.receiver.missing_count ≤ f.missing_counter_max = ground arith in
          elim (Bool-cases (count + 1 == f.receiver.ring_len)) [
            | inl lapped ↦
                rw (before_end, room, lapped)
                  (last-Marks now path m d count later f fits ((==_iff _ _).0 lapped))
            | inr inside ↦
                rw (before_end, room, inside) (more-Marks now path m d count later f _ fits rest)
          ]
    ]

-- The largest gap that is taken for a loss: 2^15 sequences with 16-bit framing, and half the ring
-- with 32-bit framing.
abbrev pub gap_cap : Flow → ℕ
gap_cap f = if f.receiver.short_seq then 2 ^ 15 else f.receiver.ring_len / 2

-- The early returns of `markMissing`.
abbrev pub Unmarked : ℕ → Flow → Type 0
Unmarked current f =
    (f.cfg.no_recovery ≡ true)
    ⊎ (gap_to f.receiver current ≡ 0)
    ⊎ (gap_cap f < gap_to f.receiver current)

mark_missing-off :
    (now : Timestamp) (path current : ℕ) (t : Timestamp) (f : Flow)
    → Unmarked current f
    → mark_missing now path current t f ≡ f
unfolding mark_missing
mark_missing-off now path current t f why =
    let off : f.cfg.no_recovery
          || ltb (max_gap f.receiver) (gap_to f.receiver current)
          || gap_to f.receiver current == 0
        ≡ true =
      ground arith in
    rw off

mark_missing-on :
    (now : Timestamp) (path current : ℕ) (t : Timestamp) (f : Flow)
    → current < 2 ^ 32
    → f.receiver.last_found < 2 ^ 32
    → f.cfg.no_recovery ≡ false
    → 1 ≤ gap_to f.receiver current
    → gap_to f.receiver current ≤ max_gap f.receiver
    → Marks path
        ((f.receiver.last_found + 1) % 2 ^ 32)
        (gap_to f.receiver current - 1)
        1
        f
        (mark_missing now path current t f)
unfolding mark_missing
mark_missing-on now path current t f hc hl ok lo hi =
    let gap = gap_to f.receiver current in
    let on : f.cfg.no_recovery || ltb (max_gap f.receiver) gap || gap == 0 ≡ false = ground arith in
    rw on (
      mark_loop-Marks gap now path current _ _ ((f.receiver.last_found + 1) % 2 ^ 32) (gap - 1) 1 f
        (omega arith) (omega arith) (omega arith) (omega arith))

-- With 32-bit sequences: either recovery is off, the gap is 0 or the gap is larger than the cap (2^15 with 16-bit framing, half the ring with 32-bit framing),
-- and `markMissing` changes nothing; or recovery is on and the gap is at least 1 and at most the
-- cap, and it queues, in order, fresh entries for the sequences
-- between lastFound and the packet, and changes nothing but the queue and its counters: all of
-- those sequences, unless the queue passes its limit or the rounds reach the ring's size. The
-- queue grows past its limit by one at most.
pub mark_missing-Marks :
    (now : Timestamp) (path current : ℕ) (t : Timestamp) (f : Flow)
    → current < 2 ^ 32
    → f.receiver.last_found < 2 ^ 32
    → (Unmarked current f × (mark_missing now path current t f ≡ f))
      ⊎ ((f.cfg.no_recovery ≡ false)
          × (1 ≤ gap_to f.receiver current)
          × (gap_to f.receiver current ≤ gap_cap f)
          × Marks path
              ((f.receiver.last_found + 1) % 2 ^ 32)
              (gap_to f.receiver current - 1)
              1
              f
              (mark_missing now path current t f))
mark_missing-Marks now path current t f hc hl =
    let gap = gap_to f.receiver current in
    elim (Bool-cases (f.cfg.no_recovery || ltb (max_gap f.receiver) gap || gap == 0)) [
      | inl off ↦
          let why : Unmarked current f = ground arith in
          inl (why, mark_missing-off now path current t f why)
      | inr on ↦
          let wants : f.cfg.no_recovery ≡ false = ground arith in
          let lo : 1 ≤ gap = ground arith in
          let hi : gap ≤ gap_cap f = ground arith in
          inr (wants, lo, hi, mark_missing-on now path current t f hc hl wants lo hi)
    ]
