-- ===== src/Bonding/Tests.antt =====
-- Two links of weights 2 and 1, and the theorems at them.
use ristgo.Prelude.{ℕ, ◌≡◌, refl, arith, true, false, none, [], ◌∷◌, All}
use ristgo.Prelude.Int.{pos, wrap64, ◌-ℤ◌}
use ristgo.Bonding.{NetPath, Group, fresh_path, sendable, live_within, tick, select_nack_path}
use ristgo.Bonding.Rotation.{elections, times, weight_at, elections-weight_at}
use ristgo.Bonding.Nack.{Choice, select_nack_path-Choice}
use ristgo.Bonding.Ticks.{is_overlooked, fallen, aged_paths, tick_once}

abbrev quiet : Group
quiet = record {
  paths = [];
  timeout = pos 1000;
  dup_grace = pos 100;
  rtt_min = pos 5;
  rtt_max = pos 500;
}

abbrev heard_link : ℕ → ℕ → NetPath
heard_link index weight = record (fresh_path quiet index (pos weight) 0) { seen = true }

abbrev two_links : Group
two_links = record quiet { paths = heard_link 1 2 ∷ heard_link 2 1 ∷ [] }

elections-weight_at_example :
    times 1 (elections (pos 10 ∷ pos 20 ∷ pos 30 ∷ []) two_links) ≡ weight_at 1 two_links.paths
unfolding sendable live_within wrap64 ◌-ℤ◌
elections-weight_at_example =
    elections-weight_at (pos 10 ∷ pos 20 ∷ pos 30 ∷ []) two_links 1 (refl, (refl, tt))
      ((refl, (refl, tt)), ((refl, (refl, tt)), ((refl, (refl, tt)), tt))) refl (omega arith)

select_nack_path-Choice_example :
    Choice (pos 10) none two_links (select_nack_path (pos 10) none two_links)
select_nack_path-Choice_example = select_nack_path-Choice (pos 10) none two_links

-- Long after, both are dead.
tick_once_example :
    let (aged, died) = tick (pos 9000) two_links in
    (died ≡ fallen two_links (pos 9000) two_links.paths)
    × (aged ≡ record two_links { paths = aged_paths two_links (pos 9000) two_links.paths })
    × All (λ p. is_overlooked two_links (pos 9000) p ≡ false) aged.paths
    × (tick (pos 9000) aged ≡ (aged, []))
tick_once_example = tick_once (pos 9000) two_links
