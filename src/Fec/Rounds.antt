-- ===== src/Fec/Rounds.antt =====
-- recoverAll of fec.go goes on until nothing more can be recovered, and its fuel is enough for that.
use ristgo.Prelude.{
  ℕ, zero, suc, ◌+◌, ◌-◌, ◌≤◌, ◌<◌, ◌≡◌, refl, arith, ◌∙◌, ap, sym, Bool, true, false, ◌||◌,
  Bool-cases, inl, inr,
}
use ristgo.Prelude.{List, [], ◌∷◌, Option, none, some, length, ltb, if◌then◌else◌}
use ristgo.Prelude.Int.{pos, ltb_ℤ, sub_ℕ}
use mathlib.Core.Path.{subst}
use ristgo.Fec.Group.{seq_add, seq_diff}
use ristgo.Fec.Decoder.{
  StoredFec, Decoder, member, scan_missing, Sum, close, recover_missing, recover_scanned,
  try_recover, recover_round, recover_rounds, recover_all,
}

-- Groups that are not done.
unfoldable open_groups : List StoredFec → ℕ
open_groups [] = 0
open_groups (sf ∷ fecs) = (if sf.done then 0 else 1) + open_groups fecs

-- What a try comes to: nothing and the same later; a closed group; or a packet, of an open group that is closed by it.
data Outcome (d : Decoder) (sf : StoredFec) : Decoder × StoredFec × Bool → Type 0 where
  waits : try_recover d sf ≡ (d, sf, false) → Outcome d sf (d, sf, false)
  closes : Outcome d sf (d, close sf, false)
  recovers : (e : Decoder) → sf.done ≡ false → Outcome d sf (e, close sf, true)

try_recover-closed :
    (d : Decoder) (sf : StoredFec) → try_recover d (close sf) ≡ (d, close sf, false)
unfolding try_recover
try_recover-closed d sf = refl

Outcome-recover_missing :
    (d : Decoder) (sf : StoredFec) (s : ℕ) (a : Sum)
    → sf.done ≡ false
    → Outcome d sf (recover_missing d sf s a)
Outcome-recover_missing d sf s a e = elim (Bool-cases (ltb d.payload_size a.len)) [
  | inl long ↦ rw long closes
  | inr fits ↦ rw fits (recovers _ e)
]

Outcome-recover_scanned :
    (d : Decoder) (sf : StoredFec) (o : Option (Option ℕ))
    → sf.done ≡ false
    → (recover_scanned d sf o ≡ (d, sf, false) → try_recover d sf ≡ (d, sf, false))
    → Outcome d sf (recover_scanned d sf o)
Outcome-recover_scanned d sf none e w = waits (w refl)
Outcome-recover_scanned d sf (some none) e w = closes
Outcome-recover_scanned d sf (some (some s)) e w = Outcome-recover_missing d sf s _ e

try_recover-Outcome : (d : Decoder) (sf : StoredFec) → Outcome d sf (try_recover d sf)
unfolding try_recover
try_recover-Outcome d sf =
    let low = ltb_ℤ (seq_diff (seq_add d.last_seq (sub_ℕ 0 d.window)) sf.base) (pos 0) in
    let early = ltb_ℤ (pos 0) (seq_diff d.last_seq (member sf (sf.count - 1))) in
    let scanned = scan_missing sf.count 0 sf d.media none in
    elim (Bool-cases sf.done) [
      | inl done ↦
          let e : try_recover d sf ≡ (d, sf, false) = simp done refl in
          subst (Outcome d sf) (sym e) (waits e)
      | inr fresh ↦ elim (Bool-cases low) [
        | inl stale ↦
            let e : try_recover d sf ≡ (d, close sf, false) = simp (fresh, stale) refl in
            subst (Outcome d sf) (sym e) closes
        | inr recent ↦ elim (Bool-cases early) [
          | inl ahead ↦
              let e : try_recover d sf ≡ (d, sf, false) = simp (fresh, recent, ahead) refl in
              subst (Outcome d sf) (sym e) (waits e)
          | inr past ↦
              let e : try_recover d sf ≡ recover_scanned d sf scanned =
                simp (fresh, recent, past) refl in
              subst (Outcome d sf) (sym e) (Outcome-recover_scanned d sf scanned fresh (λ q. e ∙ q))
        ]
      ]
    ]

-- A round closes a group for every packet that it recovers.
abbrev one_if : Bool → ℕ
one_if true = 1
one_if false = 0

one_if-or : (a b : Bool) → one_if (a || b) ≤ one_if a + one_if b
one_if-or true b = omega arith
one_if-or false b = omega arith

abbrev one_open : StoredFec → ℕ
one_open sf = if sf.done then 0 else 1

Outcome-open :
    (d : Decoder) (sf : StoredFec) (t : Decoder × StoredFec × Bool)
    → Outcome d sf t
    → one_open t.1 + one_if t.2 ≤ one_open sf
Outcome-open d sf _ (waits w) = omega arith
Outcome-open d sf _ closes = omega arith
Outcome-open d sf _ (recovers e o) = rw o (omega arith)

recover_round-open :
    (d : Decoder) (fecs : List StoredFec)
    → open_groups (recover_round d fecs).1 + one_if (recover_round d fecs).2 ≤ open_groups fecs
unfolding recover_round open_groups
recover_round-open d [] = omega arith
recover_round-open d (sf ∷ fecs) =
    let t = try_recover d sf in
    let first = Outcome-open d sf t (try_recover-Outcome d sf) in
    let later = recover_round-open t.0 fecs in
    let either = one_if-or t.2 (recover_round t.0 fecs).2 in omega arith

Outcome-quiet :
    (d : Decoder) (sf : StoredFec) (t : Decoder × StoredFec × Bool)
    → Outcome d sf t
    → t.2 ≡ false
    → (t.0 ≡ d) × ((try_recover d t.1).2 ≡ false)
Outcome-quiet d sf _ (waits w) q = (refl, ap (λ r. r.2) w)
Outcome-quiet d sf _ closes q = (refl, ap (λ r. r.2) (try_recover-closed d sf))
Outcome-quiet d sf _ (recovers e o) q = absurd cc

or-quiet : (a b : Bool) → (a || b) ≡ false → (a ≡ false) × (b ≡ false)
or-quiet true b q = absurd cc
or-quiet false b q = (refl, q)

-- After a round without a packet another brings none either, and the media are as they were.
recover_round-quiet :
    (d : Decoder) (fecs : List StoredFec)
    → (recover_round d fecs).2 ≡ false
    → ((recover_round d fecs).0 ≡ d) × ((recover_round d (recover_round d fecs).1).2 ≡ false)
unfolding recover_round
recover_round-quiet d [] q = (refl, refl)
recover_round-quiet d (sf ∷ fecs) q =
    let t = try_recover d sf in
    let (one, more) = or-quiet t.2 (recover_round t.0 fecs).2 q in
    let (same, still) = Outcome-quiet d sf t (try_recover-Outcome d sf) one in
    let (left, again) = recover_round-quiet t.0 fecs more in
    let u = try_recover d t.1 in
    let (kept, idle) = Outcome-quiet d t.1 u (try_recover-Outcome d t.1) still in
    let next : (recover_round d (recover_round t.0 fecs).1).2 ≡ false =
      subst (λ (e : Decoder). (recover_round e (recover_round t.0 fecs).1).2 ≡ false) same again in
    let last : (recover_round u.0 (recover_round t.0 fecs).1).2 ≡ false =
      subst (λ (e : Decoder). (recover_round e (recover_round t.0 fecs).1).2 ≡ false) (sym kept)
        next in
    (left ∙ same, rw (still, last) refl)

-- The tries do not look at the decoder's own list of groups.
abbrev with_fecs : List StoredFec → Decoder → Decoder
with_fecs x d = record d { fecs = x }

recover_missing-moved :
    (d : Decoder) (x : List StoredFec) (sf : StoredFec) (s : ℕ) (a : Sum)
    → let t = recover_missing d sf s a in
      recover_missing (with_fecs x d) sf s a ≡ (with_fecs x t.0, t.1, t.2)
recover_missing-moved d x sf s a = elim (Bool-cases (ltb d.payload_size a.len)) [
  | inl long ↦ simp long refl
  | inr fits ↦ simp fits refl
]

recover_scanned-moved :
    (d : Decoder) (x : List StoredFec) (sf : StoredFec) (o : Option (Option ℕ))
    → let t = recover_scanned d sf o in
      recover_scanned (with_fecs x d) sf o ≡ (with_fecs x t.0, t.1, t.2)
recover_scanned-moved d x sf none = refl
recover_scanned-moved d x sf (some none) = refl
recover_scanned-moved d x sf (some (some s)) = recover_missing-moved d x sf s _

try_recover-moved :
    (d : Decoder) (x : List StoredFec) (sf : StoredFec)
    → let t = try_recover d sf in try_recover (with_fecs x d) sf ≡ (with_fecs x t.0, t.1, t.2)
unfolding try_recover
try_recover-moved d x sf =
    let low = ltb_ℤ (seq_diff (seq_add d.last_seq (sub_ℕ 0 d.window)) sf.base) (pos 0) in
    let early = ltb_ℤ (pos 0) (seq_diff d.last_seq (member sf (sf.count - 1))) in
    elim (Bool-cases sf.done) [
      | inl done ↦ simp done refl
      | inr fresh ↦ elim (Bool-cases low) [
        | inl stale ↦ simp (fresh, stale) refl
        | inr recent ↦ elim (Bool-cases early) [
          | inl ahead ↦ simp (fresh, recent, ahead) refl
          | inr past ↦
              simp (fresh, recent, past)
                (recover_scanned-moved d x sf (scan_missing sf.count 0 sf d.media none))
        ]
      ]
    ]

recover_round-moved :
    (d : Decoder) (x fecs : List StoredFec)
    → (recover_round (with_fecs x d) fecs).2 ≡ (recover_round d fecs).2
unfolding recover_round
recover_round-moved d x [] = refl
recover_round-moved d x (sf ∷ fecs) =
    let t = try_recover d sf in
    rw (try_recover-moved d x sf) (ap (λ b. t.2 || b) (recover_round-moved t.0 x fecs))

recover_rounds-settled :
    (fuel : ℕ) (d : Decoder)
    → open_groups d.fecs < fuel
    → let e = recover_rounds fuel d in (recover_round e e.fecs).2 ≡ false
unfolding recover_rounds
recover_rounds-settled zero d l = absurd (omega arith)
recover_rounds-settled (suc fuel) d l =
    let r = recover_round d d.fecs in
    let next = with_fecs r.1 r.0 in
    let fewer = recover_round-open d d.fecs in
    elim (Bool-cases r.2) [
      | inl again ↦
          let counted : one_if r.2 ≡ 1 = rw again refl in
          rw again (recover_rounds-settled fuel next (omega arith))
      | inr quiet ↦
          let (same, idle) = recover_round-quiet d d.fecs quiet in
          let still = subst (λ (e : Decoder). (recover_round e r.1).2 ≡ false) (sym same) idle in
          rw quiet (recover_round-moved r.0 r.1 r.1 ∙ still)
    ]

open_groups_le : (fecs : List StoredFec) → open_groups fecs ≤ length fecs
unfolding open_groups
open_groups_le [] = omega arith
open_groups_le (sf ∷ fecs) = let rest = open_groups_le fecs in ground arith

-- When recoverAll ends, one more round over the groups recovers no packet: its rounds are enough, whatever the decoder
-- holds.
pub recover_all-settled :
    (d : Decoder) → let e = recover_all d in (recover_round e e.fecs).2 ≡ false
unfolding recover_all
recover_all-settled d =
    recover_rounds-settled (suc (length d.fecs)) d (omega (arith, open_groups_le d.fecs))
