-- ===== src/Bonding/Ticks.antt =====
-- What `Tick` tells of and changes: each path's death is told once.
use ristgo.Prelude.{ℕ, ◌≡◌, inl, inr, refl, arith, ◌∙◌, ap}
use ristgo.Prelude.{Bool, true, false, not, ◌&&◌, List, [], ◌∷◌, All, if◌then◌else◌, Bool-cases}
use ristgo.Prelude.Int.{ltb_ℤ}
use ristgo.Clock.{Timestamp, since}
use ristgo.Bonding.{NetPath, Group, tick_paths, tick, dies, is_live}

-- A path is marked dead unless it is live or was never seen.
abbrev pub is_overlooked : Group → Timestamp → NetPath → Bool
is_overlooked g now p = p.seen && not p.dead && not (is_live g now p)

dead-dies :
    (g : Group) (now : Timestamp) (p : NetPath) → dies g now (record p { dead = true }) ≡ false
unfolding dies
dead-dies g now p = ground arith

dies-is_overlooked :
    (g : Group) (now : Timestamp) (p : NetPath)
    → dies g now p ≡ false
    → is_overlooked g now p ≡ false
unfolding dies is_live
dies-is_overlooked g now p h = ground (arith, h)

tick_paths_again :
    (g : Group) (now : Timestamp) (ps : List NetPath)
    → tick_paths g now (tick_paths g now ps).0 ≡ ((tick_paths g now ps).0, [])
tick_paths_again g now [] = refl
tick_paths_again g now (p ∷ ps) = elim (Bool-cases (dies g now p)) [
  | inl goes ↦ rw (goes, dead-dies g now p, tick_paths_again g now ps)
  | inr stays ↦ rw (stays, stays, tick_paths_again g now ps)
]

tick_paths_told :
    (g : Group) (now : Timestamp) (ps : List NetPath)
    → All (λ p. is_overlooked g now p ≡ false) (tick_paths g now ps).0
tick_paths_told g now [] = tt
tick_paths_told g now (p ∷ ps) = elim (Bool-cases (dies g now p)) [
  | inl goes ↦ rw goes (ground arith, tick_paths_told g now ps)
  | inr stays ↦ rw stays (dies-is_overlooked g now p stays, tick_paths_told g now ps)
]

dies_same :
    (g : Group) (paths : List NetPath) (now : Timestamp) (p : NetPath)
    → dies (record g { paths = paths }) now p ≡ dies g now p
unfolding dies
dies_same g paths now p = refl

tick_paths_same :
    (g : Group) (paths : List NetPath) (now : Timestamp) (ps : List NetPath)
    → tick_paths (record g { paths = paths }) now ps ≡ tick_paths g now ps
tick_paths_same g paths now [] = refl
tick_paths_same g paths now (p ∷ ps) = rw (dies_same g paths now p, tick_paths_same g paths now ps)

-- A path that dies at `now`: it was seen, is not marked dead, and was silent for too long.
abbrev pub falls_silent : Group → Timestamp → NetPath → Bool
falls_silent g now p = p.seen && not p.dead && ltb_ℤ g.timeout (since now p.last_seen)

-- The indices of the paths that die, in the order of the paths, and the paths afterwards.
abbrev pub fallen : Group → Timestamp → List NetPath → List ℕ
fallen g now [] = []
fallen g now (p ∷ ps) = if falls_silent g now p then p.index ∷ fallen g now ps else fallen g now ps

abbrev pub aged_paths : Group → Timestamp → List NetPath → List NetPath
aged_paths g now [] = []
aged_paths g now (p ∷ ps) =
    (if falls_silent g now p then record p { dead = true } else p) ∷ aged_paths g now ps

dies-falls_silent :
    (g : Group) (now : Timestamp) (p : NetPath) → dies g now p ≡ falls_silent g now p
unfolding dies
dies-falls_silent g now p = refl

tick_paths_lem :
    (g : Group) (now : Timestamp) (ps : List NetPath)
    → tick_paths g now ps ≡ (aged_paths g now ps, fallen g now ps)
tick_paths_lem g now [] = refl
tick_paths_lem g now (p ∷ ps) =
    let same = dies-falls_silent g now p in
    elim (Bool-cases (falls_silent g now p)) [
      | inl goes ↦ rw (same, goes, tick_paths_lem g now ps) refl
      | inr stays ↦ rw (same, stays, tick_paths_lem g now ps) refl
    ]

-- A tick tells of exactly the paths that were seen, are not marked dead and have been silent for
-- longer than the timeout, in the order of the paths; it marks these dead and changes nothing else.
-- Every path that has been seen is then live or marked dead, and a second tick at the same instant
-- tells of no death and changes nothing: each death is told once.
pub tick_once :
    (now : Timestamp) (g : Group)
    → let (aged, died) = tick now g in
      (died ≡ fallen g now g.paths)
      × (aged ≡ record g { paths = aged_paths g now g.paths })
      × All (λ p. is_overlooked g now p ≡ false) aged.paths
      × (tick now aged ≡ (aged, []))
unfolding tick
tick_once now g =
    let paths = (tick_paths g now g.paths).0 in
    let again = tick_paths_same g paths now paths ∙ tick_paths_again g now g.paths in
    let told = tick_paths_lem g now g.paths in
    (
      ap (λ (o : List NetPath × List ℕ). o.1) told,
      ap (λ (o : List NetPath × List ℕ). record g { paths = o.0 }) told,
      tick_paths_told g now g.paths,
      ap (λ (o : List NetPath × List ℕ). (record g { paths = o.0 }, o.1)) again,
    )
