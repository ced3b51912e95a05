-- ===== src/Bonding.antt =====
-- internal/bonding/bonding.go: the paths bonded onto one flow, their liveness, and the choice of
-- the path for a NACK and for the next datagram. A Go pointer to a path is its position.
pub mod Rotation
pub mod Nack
pub mod Ticks
mod Tests
use ristgo.Prelude.{ℕ, zero, suc, ◌+◌, ◌%◌, ◌^◌, Bool, true, false, not, ◌&&◌, ◌||◌}
use ristgo.Prelude.{Option, none, some, List, [], ◌∷◌, ◌++◌, map, ltb, ◌==◌, if◌then◌else◌}
use ristgo.Prelude.Int.{ℤ, pos, ltb_ℤ, leb_ℤ, add64, sub64}
use ristgo.Clock.{Timestamp, Microseconds, since, after}
use ristgo.Rtt.{Estimator, observe, clamped, last_clamped}
use ristgo.Rtt
use ristgo.Flow.Effects.{inc64, add_u64}

abbrev pub weight_duplicate : ℤ
weight_duplicate = pos 0

-- Go's int fields are signed; the counters are uint64.
pub record NetPath : Type 0 where
  pub index : ℕ
  pub weight : ℤ
  pub priority : ℕ
  pub w_count : ℤ
  pub rtt : Estimator
  pub last_seen : Timestamp
  pub seen : Bool
  pub dead : Bool
  pub recv_pkts : ℕ
  pub recv_bytes : ℕ
  pub sent_pkts : ℕ
  pub sent_bytes : ℕ
  pub retx_pkts : ℕ
  pub retx_bytes : ℕ

pub record PathStats : Type 0 where
  pub index : ℕ
  pub rtt : Microseconds
  pub alive : Bool
  pub weight : ℤ
  pub priority : ℕ
  pub recv_pkts : ℕ
  pub recv_bytes : ℕ
  pub sent_pkts : ℕ
  pub sent_bytes : ℕ
  pub retransmitted_pkts : ℕ
  pub retransmitted_bytes : ℕ

pub record Group : Type 0 where
  pub paths : List NetPath
  pub timeout : Microseconds
  pub dup_grace : Microseconds
  pub rtt_min : Microseconds
  pub rtt_max : Microseconds

-- The smoothed and the last round trip of a path, within the group's bounds.
unfoldable pub path_rtt : Group → NetPath → Microseconds
path_rtt g p = clamped p.rtt g.rtt_min g.rtt_max

unfoldable pub nack_rtt : Group → NetPath → Microseconds
nack_rtt g p = last_clamped p.rtt g.rtt_min g.rtt_max

unfoldable pub new_group : Microseconds → Microseconds → Microseconds → Microseconds → Group
new_group session_timeout dup_grace rtt_min rtt_max = record {
  paths = [];
  timeout = session_timeout;
  dup_grace = dup_grace;
  rtt_min = rtt_min;
  rtt_max = rtt_max;
}

-- `path`: the first path with the index.
abbrev pub find : ℕ → List NetPath → Option NetPath
find index [] = none
find index (p ∷ ps) = if p.index == index then some p else find index ps

abbrev pub has_path : ℕ → Group → Bool
has_path index g = elim (find index g.paths) [ some p ↦ true | none ↦ false ]

-- A write through the pointer that `path` returns.
abbrev pub modify : ℕ → (NetPath → NetPath) → List NetPath → List NetPath
modify index change [] = []
modify index change (p ∷ ps) =
    if p.index == index then change p ∷ ps else p ∷ modify index change ps

abbrev pub fresh_path : Group → ℕ → ℤ → ℕ → NetPath
fresh_path g index weight priority = record {
  index = index;
  weight = weight;
  priority = priority;
  w_count = weight;
  rtt = Rtt.new g.rtt_min;
  last_seen = pos 0;
  seen = false;
  dead = false;
  recv_pkts = 0;
  recv_bytes = 0;
  sent_pkts = 0;
  sent_bytes = 0;
  retx_pkts = 0;
  retx_bytes = 0;
}

unfoldable pub add_path : ℕ → ℤ → ℕ → Group → Group
add_path index weight priority g =
    if has_path index g
    then record g {
      paths =
          modify index (λ p. record p { weight = weight; priority = priority; w_count = weight })
            g.paths;
    }
    else record g { paths = g.paths ++ (fresh_path g index weight priority ∷ []) }

unfoldable pub remove_first : ℕ → List NetPath → List NetPath
remove_first index [] = []
remove_first index (p ∷ ps) = if p.index == index then ps else p ∷ remove_first index ps

-- The second part is what the code returns: whether a path was removed.
unfoldable pub remove_path : ℕ → Group → Group × Bool
unfolding remove_first
remove_path index g = (record g { paths = remove_first index g.paths }, has_path index g)

unfoldable pub observe_path : ℕ → Timestamp → Group → Group
observe_path index now g = record g {
  paths = modify index (λ p. record p { seen = true; last_seen = now; dead = false }) g.paths;
}

unfoldable pub observe_rtt : ℕ → Microseconds → Group → Group
observe_rtt index sample g = record g {
  paths = modify index (λ p. record p { rtt = observe p.rtt sample }) g.paths;
}

unfoldable pub count_recv : ℕ → ℕ → Group → Group
count_recv index bytes g = record g {
  paths =
      modify index
        (λ p. record p { recv_pkts = inc64 p.recv_pkts; recv_bytes = add_u64 p.recv_bytes bytes })
        g.paths;
}

unfoldable pub count_sent : ℕ → ℕ → Bool → Group → Group
count_sent index bytes retransmit g = record g {
  paths =
      modify index
        (λ p.
          if retransmit
          then record p { retx_pkts = inc64 p.retx_pkts; retx_bytes = add_u64 p.retx_bytes bytes }
          else record p { sent_pkts = inc64 p.sent_pkts; sent_bytes = add_u64 p.sent_bytes bytes })
        g.paths;
}

-- `p.seen && now.Sub(p.lastSeen) <= g.timeout`.
unfoldable pub is_live : Group → Timestamp → NetPath → Bool
is_live g now p = p.seen && leb_ℤ (since now p.last_seen) g.timeout

unfoldable pub snapshot : Group → Timestamp → NetPath → PathStats
unfolding is_live path_rtt
snapshot g now p = record {
  index = p.index;
  rtt = path_rtt g p;
  alive = is_live g now p;
  weight = p.weight;
  priority = p.priority;
  recv_pkts = p.recv_pkts;
  recv_bytes = p.recv_bytes;
  sent_pkts = p.sent_pkts;
  sent_bytes = p.sent_bytes;
  retransmitted_pkts = p.retx_pkts;
  retransmitted_bytes = p.retx_bytes;
}

unfoldable pub peer_snapshots : Timestamp → Group → List PathStats
unfolding snapshot
peer_snapshots now g = map (snapshot g now) g.paths

unfoldable pub alive : ℕ → Timestamp → Group → Bool
alive index now g = elim (find index g.paths) [ some p ↦ is_live g now p | none ↦ false ]

-- A path that has just died: seen, not marked dead yet, and silent for longer than the timeout.
unfoldable pub dies : Group → Timestamp → NetPath → Bool
dies g now p = p.seen && not p.dead && ltb_ℤ g.timeout (since now p.last_seen)

abbrev pub tick_paths : Group → Timestamp → List NetPath → List NetPath × List ℕ
tick_paths g now [] = ([], [])
tick_paths g now (p ∷ ps) =
    let (rest, died) = tick_paths g now ps in
    if dies g now p then (record p { dead = true } ∷ rest, p.index ∷ died) else (p ∷ rest, died)

unfoldable pub tick : Timestamp → Group → Group × List ℕ
tick now g = let (paths, died) = tick_paths g now g.paths in (record g { paths = paths }, died)

-- The predicate on return addresses; `none` is a nil predicate.
abbrev pub usable : Option (ℕ → Bool) → NetPath → Bool
usable none p = true
usable (some known) p = known p.index

unfoldable pub preferred : Group → NetPath → NetPath → Bool
unfolding nack_rtt
preferred g cand best =
    if not (cand.priority == best.priority)
    then ltb best.priority cand.priority
    else ltb_ℤ (nack_rtt g cand) (nack_rtt g best)

-- The scan of a loop `for _, p := range g.paths` that keeps the best path that passes a test.
abbrev pub better : (NetPath → NetPath → Bool) → NetPath → Option NetPath → NetPath
better beats p none = p
better beats p (some best) = if beats p best then p else best

abbrev pub scan :
    (NetPath → Bool) → (NetPath → NetPath → Bool) → List NetPath → Option NetPath → Option NetPath
scan test beats [] best = best
scan test beats (p ∷ ps) best =
    scan test beats ps (if test p then some (better beats p best) else best)

abbrev pub live_usable : Option (ℕ → Bool) → Timestamp → Group → NetPath → Bool
live_usable addr_known now g p = alive p.index now g && usable addr_known p

unfoldable pub select_nack_path : Timestamp → Option (ℕ → Bool) → Group → Option ℕ
select_nack_path now addr_known g =
    let live = scan (live_usable addr_known now g) (preferred g) g.paths none in
    let fallback =
      scan (λ p. p.seen && usable addr_known p) (λ p best. after p.last_seen best.last_seen) g.paths
        none in
    elim live [
      | some p ↦ some p.index
      | none ↦ elim fallback [ some p ↦ some p.index | none ↦ none ]
    ]

unfoldable pub live_within : NetPath → Timestamp → Microseconds → Bool
live_within p now window = not (p.seen && ltb_ℤ window (since now p.last_seen))

unfoldable pub sendable : Group → NetPath → Timestamp → Bool
unfolding live_within
sendable g p now = live_within p now g.timeout

unfoldable pub duplicable : Group → NetPath → Timestamp → Bool
unfolding live_within
duplicable g p now = live_within p now (add64 g.timeout g.dup_grace)

abbrev pub is_duplicate : NetPath → Bool
is_duplicate p = leb_ℤ p.weight (pos 0) && leb_ℤ (pos 0) p.weight

unfoldable pub should_duplicate : ℕ → Timestamp → Group → Bool
should_duplicate index now g = elim (find index g.paths) [
  | some p ↦ is_duplicate p && duplicable g p now
  | none ↦ false
]

abbrev pub is_weighted : NetPath → Bool
is_weighted p = ltb_ℤ (pos 0) p.weight

abbrev pub any_weighted : List NetPath → Bool
any_weighted [] = false
any_weighted (p ∷ ps) = if is_weighted p then true else any_weighted ps

unfoldable pub has_weighted : Group → Bool
has_weighted g = any_weighted g.paths

-- A path that takes part in the rotation.
abbrev pub in_rotation : Group → Timestamp → NetPath → Bool
in_rotation g now p = is_weighted p && sendable g p now

-- The scan of `bestWeighted`, with the position of each path.
abbrev pub richer : ℕ → NetPath → Option (ℕ × NetPath) → ℕ × NetPath
richer k p none = (k, p)
richer k p (some (m, best)) = if ltb_ℤ best.w_count p.w_count then (k, p) else (m, best)

unfoldable pub best_weighted :
    Group → Timestamp → List NetPath → ℕ → Option (ℕ × NetPath) → Option (ℕ × NetPath)
best_weighted g now [] k best = best
best_weighted g now (p ∷ ps) k best =
    best_weighted g now ps (suc k) (if in_rotation g now p then some (richer k p best) else best)

abbrev pub adjust : ℕ → (NetPath → NetPath) → List NetPath → List NetPath
adjust k change [] = []
adjust zero change (p ∷ ps) = change p ∷ ps
adjust (suc k) change (p ∷ ps) = p ∷ adjust k change ps

abbrev pub refill : Group → Timestamp → List NetPath → List NetPath
refill g now [] = []
refill g now (p ∷ ps) =
    (if in_rotation g now p then record p { w_count = p.weight } else p) ∷ refill g now ps

abbrev pub spend : NetPath → NetPath
spend p = record p { w_count = sub64 p.w_count (pos 1) }

-- The election from paths that were refilled where they had to be. After a refill there is a best
-- path, since a refill changes credits only; the code relies on it.
unfoldable pub elect : Group → List NetPath → Option (ℕ × NetPath) → Option ℕ × Group
elect g paths none = (none, record g { paths = paths })
elect g paths (some (k, p)) = (some p.index, record g { paths = adjust k spend paths })

unfoldable pub select_weighted : Timestamp → Group → Option ℕ × Group
unfolding best_weighted elect has_weighted
select_weighted now g =
    let refilled = refill g now g.paths in
    if not (has_weighted g) then (none, g) else elim (best_weighted g now g.paths 0 none) [
      | none ↦ (none, g)
      | some (k, p) ↦
          if leb_ℤ p.w_count (pos 0)
          then elect g refilled (best_weighted g now refilled 0 none)
          else elect g g.paths (some (k, p))
    ]

abbrev restarted : NetPath → NetPath
restarted p = record p { w_count = p.weight }

unfoldable pub set_weight : ℕ → ℤ → Group → Group
set_weight index weight g =
    if has_path index g
    then record g {
      paths = map restarted (modify index (λ p. record p { weight = weight }) g.paths);
    }
    else g

abbrev pub targets : Group → Timestamp → List NetPath → List ℕ
targets g now [] = []
targets g now (p ∷ ps) =
    if is_duplicate p && duplicable g p now then p.index ∷ targets g now ps else targets g now ps

unfoldable pub duplicate_targets : Timestamp → Group → List ℕ
duplicate_targets now g = targets g now g.paths
