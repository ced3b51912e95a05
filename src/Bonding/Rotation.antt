-- ===== src/Bonding/Rotation.antt =====
-- The weighted rotation: over a round each path carries exactly its share.
use ristgo.Prelude.{ℕ, zero, suc, ◌+◌, ◌^◌, ◌≤◌, ◌<◌, ◌≡◌, inl, inr, refl, arith, ◌∙◌, ap, sym}
use ristgo.Prelude.{Bool, true, false, not, ◌&&◌, Option, none, some, List, [], ◌∷◌}
use ristgo.Prelude.{length, All, ◌==◌, if◌then◌else◌, Bool-cases}
use ristgo.Prelude.Int.{ℤ, pos, pos_part, ltb_ℤ, leb_ℤ, ◌≤ℤ◌, sub64, sub64_parts, parts_apart}
use native.Mathlib.Decide.{dec_lt}
use ristgo.Clock.{Timestamp}
use ristgo.Bonding.{
  NetPath, Group, is_weighted, in_rotation, richer, best_weighted, adjust, spend, has_weighted,
  any_weighted, select_weighted, sendable,
}

-- What a path may still carry in this round, if it takes part.
abbrev pub credit : NetPath → ℕ
credit p = if is_weighted p then pos_part p.w_count else 0

abbrev pub total : List NetPath → ℕ
total [] = 0
total (p ∷ ps) = credit p + total ps

-- The credit under one index.
abbrev pub total_at : ℕ → List NetPath → ℕ
total_at i [] = 0
total_at i (p ∷ ps) = (if p.index == i then credit p else 0) + total_at i ps

abbrev at : ℕ → List NetPath → Option NetPath
at k [] = none
at zero (p ∷ ps) = some p
at (suc k) (p ∷ ps) = at k ps

-- A result of the scan stands where it says.
abbrev Found : List NetPath → Option (ℕ × NetPath) → Type 0
Found full none = Unit {0}
Found full (some (k, p)) = (at k full ≡ some p) × (is_weighted p ≡ true)

richer-Found :
    (full : List NetPath) (k : ℕ) (p : NetPath) (best : Option (ℕ × NetPath))
    → at k full ≡ some p
    → is_weighted p ≡ true
    → Found full best
    → Found full (some (richer k p best))
richer-Found full k p none here w f = (here, w)
richer-Found full k p (some (m, best)) here w f = elim (Bool-cases (ltb_ℤ best.w_count p.w_count)) [
  | inl more ↦ rw more (here, w)
  | inr less ↦ rw less f
]

step-Found :
    (g : Group) (now : Timestamp) (full : List NetPath) (k : ℕ) (p : NetPath)
    (best : Option (ℕ × NetPath))
    → at k full ≡ some p
    → Found full best
    → Found full (if in_rotation g now p then some (richer k p best) else best)
step-Found g now full k p best here f = elim (Bool-cases (in_rotation g now p)) [
  | inl runs ↦ rw runs (richer-Found full k p best here (ground (arith, runs)) f)
  | inr rests ↦ rw rests f
]

best_weighted-Found :
    (g : Group) (now : Timestamp) (full ps : List NetPath) (k : ℕ) (best : Option (ℕ × NetPath))
    → ((j : ℕ) → at j ps ≡ at (k + j) full)
    → Found full best
    → Found full (best_weighted g now ps k best)
unfolding best_weighted
best_weighted-Found g now full [] k best here f = f
best_weighted-Found g now full (p ∷ ps) k best here f =
    let first : k + 0 ≡ k = omega arith in
    let at_k : at k full ≡ some p = ap (λ (n : ℕ). at n full) (sym first) ∙ sym (here 0) in
    best_weighted-Found g now full ps (suc k) _
      (λ j.
        let e : k + suc j ≡ suc k + j = omega arith in here (suc j) ∙ ap (λ (n : ℕ). at n full) e)
      (step-Found g now full k p best at_k f)

-- The best path so far has at least the credit `c`.
abbrev Rich : ℤ → Option (ℕ × NetPath) → Type 0
Rich c none = ⊥
Rich c (some (k, p)) = c ≤ℤ p.w_count

richer-Rich :
    (c : ℤ) (k : ℕ) (p : NetPath) (best : Option (ℕ × NetPath))
    → Rich c best
    → Rich c (some (richer k p best))
richer-Rich c k p (some (m, best)) r = elim (Bool-cases (ltb_ℤ best.w_count p.w_count)) [
  | inl more ↦ rw more (ground (arith, more, r))
  | inr less ↦ rw less r
]
richer-Rich c k p none r = absurd r

richer-Rich_new :
    (k : ℕ) (p : NetPath) (best : Option (ℕ × NetPath)) → Rich p.w_count (some (richer k p best))
richer-Rich_new k p none = omega arith
richer-Rich_new k p (some (m, best)) = elim (Bool-cases (ltb_ℤ best.w_count p.w_count)) [
  | inl more ↦ rw more (omega arith)
  | inr less ↦ rw less (ground (arith, less))
]

best_weighted-Rich :
    (g : Group) (now : Timestamp) (c : ℤ) (ps : List NetPath) (k : ℕ) (best : Option (ℕ × NetPath))
    → Rich c best
    → Rich c (best_weighted g now ps k best)
unfolding best_weighted
best_weighted-Rich g now c [] k best r = r
best_weighted-Rich g now c (p ∷ ps) k best r =
    best_weighted-Rich g now c ps (suc k) _
      (kept (in_rotation g now p) (some (richer k p best)) best (richer-Rich c k p best r) r)
  where
    kept :
        (b : Bool) (x y : Option (ℕ × NetPath)) → Rich c x → Rich c y → Rich c (if b then x else y)
    kept true x y hx hy = hx
    kept false x y hx hy = hy

-- Every weighted path is live.
abbrev pub AllLive : Group → List NetPath → Timestamp → Type 0
AllLive g ps now = All (λ p. (is_weighted p && not (sendable g p now)) ≡ false) ps

-- With credit left, the best path has some.
best_weighted-credit :
    (g : Group) (now : Timestamp) (ps : List NetPath) (k : ℕ) (best : Option (ℕ × NetPath))
    → AllLive g ps now
    → 0 < total ps
    → Rich (pos 1) (best_weighted g now ps k best)
unfolding best_weighted
best_weighted-credit g now [] k best l h = absurd (omega arith)
best_weighted-credit g now (p ∷ ps) k best (live, rest) h = elim (dec_lt 0 (credit p)) [
  | yes has ↦
      let runs : in_rotation g now p ≡ true = ground (arith, has, live) in
      rw runs (
        best_weighted-Rich g now (pos 1) ps (suc k) (some (richer k p best))
          (at_least (pos 1) (ground (arith, has)) (richer-Rich_new k p best)))
  | no spent ↦ best_weighted-credit g now ps (suc k) _ rest (omega arith)
]
  where
    at_least :
        (c : ℤ)
        → c ≤ℤ p.w_count
        → Rich p.w_count (some (richer k p best))
        → Rich c (some (richer k p best))
    at_least c h' r = omega arith

credit-spend :
    (p : NetPath)
    → is_weighted p ≡ true
    → pos 1 ≤ℤ p.w_count
    → credit p < 2 ^ 63
    → credit (spend p) + 1 ≡ credit p
credit-spend p w h fits = ground (
  arith,
  w,
  h,
  fits,
  sub64_parts p.w_count (pos 1),
  parts_apart (sub64 p.w_count (pos 1)),
  parts_apart p.w_count,
)

-- An election takes one unit of credit, at the index elected.
total-adjust :
    (k : ℕ) (ps : List NetPath) (p : NetPath)
    → at k ps ≡ some p
    → credit (spend p) + 1 ≡ credit p
    → total (adjust k spend ps) + 1 ≡ total ps
total-adjust k [] p here e = absurd (ground arith)
total-adjust zero (q ∷ ps) p here e =
    let same : q ≡ p = ground (arith, here) in rw same (omega (arith, e))
total-adjust (suc k) (q ∷ ps) p here e = omega (arith, total-adjust k ps p here e)

total_at-adjust :
    (i k : ℕ) (ps : List NetPath) (p : NetPath)
    → at k ps ≡ some p
    → credit (spend p) + 1 ≡ credit p
    → total_at i (adjust k spend ps) + (if p.index == i then 1 else 0) ≡ total_at i ps
total_at-adjust i k [] p here e = absurd (ground arith)
total_at-adjust i zero (q ∷ ps) p here e =
    let same : q ≡ p = ground (arith, here) in rw same (ground (arith, e))
total_at-adjust i (suc k) (q ∷ ps) p here e = omega (arith, total_at-adjust i k ps p here e)

total_at-le : (i : ℕ) (ps : List NetPath) → total_at i ps ≤ total ps
total_at-le i [] = omega arith
total_at-le i (p ∷ ps) = ground (arith, total_at-le i ps)

credit-le-total : (k : ℕ) (ps : List NetPath) (p : NetPath) → at k ps ≡ some p → credit p ≤ total ps
credit-le-total k [] p here = absurd (ground arith)
credit-le-total zero (q ∷ ps) p here =
    let same : q ≡ p = ground (arith, here) in rw same (omega arith)
credit-le-total (suc k) (q ∷ ps) p here = omega (arith, credit-le-total k ps p here)

AllLive-adjust :
    (g : Group) (now : Timestamp) (k : ℕ) (ps : List NetPath)
    → AllLive g ps now
    → AllLive g (adjust k spend ps) now
AllLive-adjust g now k [] l = tt
AllLive-adjust g now zero (p ∷ ps) (live, rest) = (unfold sendable in live, rest)
AllLive-adjust g now (suc k) (p ∷ ps) (live, rest) = (live, AllLive-adjust g now k ps rest)

has_credit-any_weighted : (ps : List NetPath) → 0 < total ps → any_weighted ps ≡ true
has_credit-any_weighted [] h = absurd (omega arith)
has_credit-any_weighted (p ∷ ps) h = ground (arith, has_credit-any_weighted ps)

-- An election while credit is left.
record Elected (g : Group) (o : Option ℕ × Group) : Type 0 where
  chosen : NetPath
  place : ℕ
  stands : at place g.paths ≡ some chosen
  paid : credit (spend chosen) + 1 ≡ credit chosen
  result : o ≡ (some chosen.index, record g { paths = adjust place spend g.paths })

Elected-best :
    (g : Group) (now : Timestamp) (best : Option (ℕ × NetPath))
    → best_weighted g now g.paths 0 none ≡ best
    → has_weighted g ≡ true
    → total g.paths < 2 ^ 63
    → Rich (pos 1) best
    → Found g.paths best
    → Elected g (select_weighted now g)
unfolding select_weighted
Elected-best g now none e w fits r f = absurd r
Elected-best g now (some (k, p)) e w fits r (here, weighted) =
    let has_some : leb_ℤ p.w_count (pos 0) ≡ false = ground (arith, r) in
    record {
      chosen = p;
      place = k;
      stands = here;
      paid = credit-spend p weighted r (omega (arith, credit-le-total k g.paths p here, fits));
      result = simp (w, e, has_some) refl;
    }

select_weighted-Elected :
    (now : Timestamp) (g : Group)
    → AllLive g g.paths now
    → 0 < total g.paths
    → total g.paths < 2 ^ 63
    → Elected g (select_weighted now g)
select_weighted-Elected now g l h fits =
    Elected-best g now _ refl (unfold has_weighted in has_credit-any_weighted g.paths h) fits
      (best_weighted-credit g now g.paths 0 none l h)
      (best_weighted-Found g now g.paths g.paths 0 none
        (λ j. ap (λ (n : ℕ). at n g.paths) (zero_plus j)) tt)
  where
    zero_plus : (j : ℕ) → j ≡ 0 + j
    zero_plus j = omega arith

-- The elections at successive instants.
abbrev pub elections : List Timestamp → Group → List (Option ℕ)
elections [] g = []
elections (now ∷ nows) g = let (choice, g') = select_weighted now g in choice ∷ elections nows g'

abbrev pub is_index : ℕ → Option ℕ → Bool
is_index i none = false
is_index i (some j) = j == i

abbrev pub times : ℕ → List (Option ℕ) → ℕ
times i [] = 0
times i (o ∷ os) = (if is_index i o then 1 else 0) + times i os

AllLive-moved :
    (g : Group) (paths ps : List NetPath) (now : Timestamp)
    → AllLive g ps now
    → AllLive (record g { paths = paths }) ps now
unfolding sendable
AllLive-moved g paths [] now l = tt
AllLive-moved g paths (p ∷ ps) now (live, rest) = (live, AllLive-moved g paths ps now rest)

nows_live :
    (g : Group) (k : ℕ) (nows : List Timestamp)
    → All (AllLive g g.paths) nows
    → let paths = adjust k spend g.paths in All (AllLive (record g { paths = paths }) paths) nows
nows_live g k [] l = tt
nows_live g k (now ∷ nows) (l, ls) = (
  AllLive-moved g (adjust k spend g.paths) (adjust k spend g.paths) now
      (AllLive-adjust g now k g.paths l),
  nows_live g k nows ls,
)

elections-times :
    (nows : List Timestamp) (g : Group) (i : ℕ)
    → All (AllLive g g.paths) nows
    → total g.paths ≡ length nows
    → total g.paths < 2 ^ 63
    → times i (elections nows g) ≡ total_at i g.paths
elections-times [] g i l e fits = omega (arith, total_at-le i g.paths)
elections-times (now ∷ nows) g i (l, ls) e fits =
    let s = select_weighted-Elected now g l (omega arith) fits in
    let g' : Group = record g { paths = adjust s.place spend g.paths } in
    let less = total-adjust s.place g.paths s.chosen s.stands s.paid in
    let less_at = total_at-adjust i s.place g.paths s.chosen s.stands s.paid in
    let rest =
      elections-times nows g' i (nows_live g s.place nows ls) (omega arith) (omega arith) in
    rw s.result (omega (arith, rest, less_at))

-- The weights, of all paths and of those under one index; a weight that is not positive is none.
abbrev pub total_weight : List NetPath → ℕ
total_weight [] = 0
total_weight (p ∷ ps) = pos_part p.weight + total_weight ps

abbrev pub weight_at : ℕ → List NetPath → ℕ
weight_at i [] = 0
weight_at i (p ∷ ps) = (if p.index == i then pos_part p.weight else 0) + weight_at i ps

-- Full credit, as after `AddPath` and `SetWeight`.
abbrev pub Fresh : List NetPath → Type 0
Fresh = All (λ p. p.w_count ≡ p.weight)

credit_full : (p : NetPath) → p.w_count ≡ p.weight → credit p ≡ pos_part p.weight
credit_full p e = ground (arith, e)

total_full : (ps : List NetPath) → Fresh ps → total ps ≡ total_weight ps
total_full [] f = refl
total_full (p ∷ ps) (e, f) = omega (arith, credit_full p e, total_full ps f)

total_at_full : (i : ℕ) (ps : List NetPath) → Fresh ps → total_at i ps ≡ weight_at i ps
total_at_full i [] f = refl
total_at_full i (p ∷ ps) (e, f) = rw (credit_full p e, total_at_full i ps f)

-- While every weighted path stays live, a round that starts with full credits, one election for
-- each unit of the weights' sum, elects each index exactly as often as its weight says.
pub elections-weight_at :
    (nows : List Timestamp) (g : Group) (i : ℕ)
    → Fresh g.paths
    → All (AllLive g g.paths) nows
    → total_weight g.paths ≡ length nows
    → total_weight g.paths < 2 ^ 63
    → times i (elections nows g) ≡ weight_at i g.paths
elections-weight_at nows g i f l e fits =
    let full = total_full g.paths f in
    elections-times nows g i l (full ∙ e) (omega (arith, full, fits)) ∙ total_at_full i g.paths f
