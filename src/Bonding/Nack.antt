-- ===== src/Bonding/Nack.antt =====
-- The path that `SelectNackPath` chooses is the best one.
use ristgo.Prelude.{ℕ, ◌≡◌, ◌⊎◌, inl, inr, refl, arith, ◌∙◌, ap}
use ristgo.Prelude.{Bool, true, false, ◌&&◌, Option, none, some, List, [], ◌∷◌}
use ristgo.Prelude.{All, if◌then◌else◌, Bool-cases}
use ristgo.Prelude.Int.{ltb_ℤ}
use ristgo.Prelude.{ltb, ◌||◌, ◌==◌}
use mathlib.Core.Path.{subst}
use ristgo.Clock.{Timestamp, after}
use ristgo.Bonding.{
  NetPath, Group, better, scan, usable, live_usable, preferred, select_nack_path, nack_rtt,
}

abbrev pub Among : NetPath → List NetPath → Type 0
Among p [] = ⊥
Among p (q ∷ ps) = (p ≡ q) ⊎ Among p ps

All-map :
    (P Q : NetPath → Type 0) (ps : List NetPath) → ((p : NetPath) → P p → Q p) → All P ps → All Q ps
All-map P Q [] f h = tt
All-map P Q (p ∷ ps) f (h, hs) = (f p h, All-map P Q ps f hs)

abbrev Unbeaten : (NetPath → NetPath → Bool) → NetPath → Option NetPath → Type 0
Unbeaten beats q none = ⊥
Unbeaten beats q (some p) = beats q p ≡ false

-- What a scan finds is there, passes the test, and is beaten by none that passes it; and if it finds
-- nothing, nothing passes.
abbrev pub Optimal :
    (NetPath → Bool) → (NetPath → NetPath → Bool) → List NetPath → Option NetPath → Type 0
Optimal test beats ps none = All (λ q. test q ≡ false) ps
Optimal test beats ps (some p) =
    Among p ps × (test p ≡ true) × All (λ q. (test q && beats q p) ≡ false) ps

-- Where a scan's result comes from.
abbrev Origin : (NetPath → Bool) → List NetPath → Option NetPath → Option NetPath → Type 0
Origin test ps best none = best ≡ none
Origin test ps best (some p) = (best ≡ some p) ⊎ (Among p ps × (test p ≡ true))

-- A scan by a test and an order of which a better path is no easier to beat.
module _ (test : NetPath → Bool) (beats : NetPath → NetPath → Bool)
    (irrefl : (p : NetPath) → beats p p ≡ false)
    (onward : (q p best : NetPath)
      → beats q best ≡ false
      → beats p best ≡ true
      → beats q p ≡ false) where
  pick-Unbeaten :
      (b : Bool) (q p : NetPath) (best : Option NetPath)
      → Unbeaten beats q best
      → Unbeaten beats q (if b then some (better beats p best) else best)
  pick-Unbeaten false q p best u = u
  pick-Unbeaten true q p none u = absurd u
  pick-Unbeaten true q p (some best) u = elim (Bool-cases (beats p best)) [
    | inl wins ↦ rw wins (onward q p best u wins)
    | inr loses ↦ rw loses u
  ]

  better-Unbeaten :
      (p : NetPath) (best : Option NetPath) → Unbeaten beats p (some (better beats p best))
  better-Unbeaten p none = irrefl p
  better-Unbeaten p (some best) = elim (Bool-cases (beats p best)) [
    | inl wins ↦ rw wins (irrefl p)
    | inr loses ↦ rw loses loses
  ]

  scan-Unbeaten :
      (q : NetPath) (ps : List NetPath) (best : Option NetPath)
      → Unbeaten beats q best
      → Unbeaten beats q (scan test beats ps best)
  scan-Unbeaten q [] best u = u
  scan-Unbeaten q (p ∷ ps) best u = scan-Unbeaten q ps _ (pick-Unbeaten (test p) q p best u)

  step-Origin :
      (p : NetPath) (ps : List NetPath) (b : Bool) (best r : Option NetPath)
      → test p ≡ b
      → Origin test ps (if b then some (better beats p best) else best) r
      → Origin test (p ∷ ps) best r
  step-Origin p ps true none none t o = absurd (ground (arith, o))
  step-Origin p ps true (some q) none t o = absurd (ground (arith, o))
  step-Origin p ps true none (some x) t (inl e) =
      let same : x ≡ p = ground (arith, e) in inr (inl same, ap test same ∙ t)
  step-Origin p ps true (some q) (some x) t (inl e) = elim (Bool-cases (beats p q)) [
    | inl wins ↦ let same : x ≡ p = ground (arith, e, wins) in inr (inl same, ap test same ∙ t)
    | inr loses ↦ inl (ground (arith, e, loses))
  ]
  step-Origin p ps true none (some x) t (inr (found, passes)) = inr (inr found, passes)
  step-Origin p ps true (some q) (some x) t (inr (found, passes)) = inr (inr found, passes)
  step-Origin p ps false best none t o = o
  step-Origin p ps false best (some x) t (inl e) = inl e
  step-Origin p ps false best (some x) t (inr (found, passes)) = inr (inr found, passes)

  scan-Origin :
      (ps : List NetPath) (best : Option NetPath) → Origin test ps best (scan test beats ps best)
  scan-Origin [] none = refl
  scan-Origin [] (some p) = inl refl
  scan-Origin (p ∷ ps) best = step-Origin p ps (test p) best _ refl (scan-Origin ps _)

  -- Every path that passes the test is unbeaten by the result.
  scan-all :
      (ps : List NetPath) (best : Option NetPath)
      → All (λ q. (test q ≡ false) ⊎ Unbeaten beats q (scan test beats ps best)) ps
  scan-all [] best = tt
  scan-all (p ∷ ps) best =
      (first (test p) refl, scan-all ps (if test p then some (better beats p best) else best))
    where
      first :
          (b : Bool)
          → test p ≡ b
          → (test p ≡ false) ⊎ Unbeaten beats p (scan test beats (p ∷ ps) best)
      first false t = inl t
      first true t = inr (rw t (scan-Unbeaten p ps _ (better-Unbeaten p best)))

  summary :
      (full ps : List NetPath) (r : Option NetPath)
      → Origin test full none r
      → All (λ q. (test q ≡ false) ⊎ Unbeaten beats q r) full
      → Optimal test beats full r
  summary full ps none o all = All-map _ _ full (λ q. none_passes q) all
    where
      none_passes : (q : NetPath) → (test q ≡ false) ⊎ ⊥ → test q ≡ false
      none_passes q (inl h) = h
      none_passes q (inr h) = absurd h
  summary full ps (some p) (inl e) all = absurd (ground (arith, e))
  summary full ps (some p) (inr (found, passes)) all =
      (found, passes, All-map _ _ full (λ q. not_beaten q) all)
    where
      not_beaten :
          (q : NetPath) → (test q ≡ false) ⊎ (beats q p ≡ false) → (test q && beats q p) ≡ false
      not_beaten q (inl h) = ground (arith, h)
      not_beaten q (inr h) = ground (arith, h)

  pub scan-Optimal : (ps : List NetPath) → Optimal test beats ps (scan test beats ps none)
  scan-Optimal ps = summary ps ps _ (scan-Origin ps none) (scan-all ps none)

preferred_irrefl : (g : Group) (p : NetPath) → preferred g p p ≡ false
unfolding preferred
preferred_irrefl g p = ground arith

preferred_onward :
    (g : Group) (q p best : NetPath)
    → preferred g q best ≡ false
    → preferred g p best ≡ true
    → preferred g q p ≡ false
unfolding preferred
preferred_onward g q p best h k = ground (arith, h, k)

-- A higher priority, or an equal priority and a shorter round trip.
abbrev pub outranks : Group → NetPath → NetPath → Bool
outranks g q p =
    ltb p.priority q.priority || (q.priority == p.priority && ltb_ℤ (nack_rtt g q) (nack_rtt g p))

preferred-outranks : (g : Group) (q p : NetPath) → preferred g q p ≡ outranks g q p
unfolding preferred
preferred-outranks g q p = ground arith

outranked :
    (g : Group) (test : NetPath → Bool) (ps : List NetPath) (o : Option NetPath)
    → Optimal test (preferred g) ps o
    → Optimal test (outranks g) ps o
outranked g test ps none h = h
outranked g test ps (some p) (found, passes, unbeaten) =
    (found, passes, All-map _ _ ps (λ q h. restated q h) unbeaten)
  where
    restated :
        (q : NetPath) → (test q && preferred g q p) ≡ false → (test q && outranks g q p) ≡ false
    restated q h = subst (λ b. (test q && b) ≡ false) (preferred-outranks g q p) h

abbrev pub later : NetPath → NetPath → Bool
later p best = after p.last_seen best.last_seen

later_irrefl : (p : NetPath) → later p p ≡ false
later_irrefl p = ground arith

later_onward : (q p best : NetPath) → later q best ≡ false → later p best ≡ true → later q p ≡ false
later_onward q p best h k = ground (arith, h, k)

abbrev pub seen_usable : Option (ℕ → Bool) → NetPath → Bool
seen_usable addr_known p = p.seen && usable addr_known p

-- What a choice of the path for a NACK may be.
pub data Choice (now : Timestamp) (addr_known : Option (ℕ → Bool)) (g : Group) (o : Option ℕ)
    : Type 0 where
  best_live :
      (p : NetPath)
      → Optimal (live_usable addr_known now g) (outranks g) g.paths (some p)
      → o ≡ some p.index
      → Choice now addr_known g o
  last_heard :
      (p : NetPath)
      → Optimal (live_usable addr_known now g) (outranks g) g.paths none
      → Optimal (seen_usable addr_known) later g.paths (some p)
      → o ≡ some p.index
      → Choice now addr_known g o
  nowhere :
      Optimal (seen_usable addr_known) later g.paths none → o ≡ none → Choice now addr_known g o

-- The path chosen for a NACK is a live one that can be sent on, of which none is of higher priority
-- or of equal priority and a shorter round trip; if no path is live and can be sent on, it is one
-- that has been seen and can be sent on, of which none was heard of later; and there is no choice
-- only if no path that has been seen can be sent on.
pub select_nack_path-Choice :
    (now : Timestamp) (addr_known : Option (ℕ → Bool)) (g : Group)
    → Choice now addr_known g (select_nack_path now addr_known g)
unfolding select_nack_path
select_nack_path-Choice now addr_known g =
    chosen _ _
      (outranked g (live_usable addr_known now g) g.paths _ (
        scan-Optimal (live_usable addr_known now g) (preferred g) (preferred_irrefl g)
          (preferred_onward g) g.paths))
      (scan-Optimal (seen_usable addr_known) later later_irrefl later_onward g.paths)
  where
    chosen :
        (live fallback : Option NetPath)
        → Optimal (live_usable addr_known now g) (outranks g) g.paths live
        → Optimal (seen_usable addr_known) later g.paths fallback
        → Choice now addr_known g (elim live [
          | some p ↦ some p.index
          | none ↦ elim fallback [ some p ↦ some p.index | none ↦ none ]
        ])
    chosen (some p) fallback l f = best_live p l refl
    chosen none (some p) l f = last_heard p l f refl
    chosen none none l f = nowhere f refl
