-- ===== src/Fec/Tests.antt =====
-- A row of three packets of which the second is lost, and the theorem at it.
use ristgo.Prelude.{ℕ, ◌≡◌, refl, arith, true, false, List, [], ◌∷◌, ◌++◌}
use ristgo.Fec.Group.{variant20221, new_group, clip, seq_add, seq_diff}
use ristgo.Fec.Decoder.{
  StoredMedia, StoredFec, Decoder, store, member, close, try_recover, recover_round, recover_all,
}
use ristgo.Fec.Rounds.{recover_all-settled}
use ristgo.Fec.Recovery.{clips, IsOneShort, IsEmitted, recovered_of, try_recover-lost}
use ristgo.Seq.{distance, add, half}

abbrev media_at : ℕ → List ℕ → StoredMedia
media_at ts payload = record { ts = ts; pt = 33; ssrc = 8; payload = payload }

abbrev lost : StoredMedia
lost = media_at 20 (9 ∷ 1 ∷ [])

abbrev front : List StoredMedia
front = media_at 10 (4 ∷ []) ∷ []

abbrev back : List StoredMedia
back = media_at 30 (6 ∷ 6 ∷ 6 ∷ []) ∷ []

abbrev row_fec : StoredFec
row_fec = record {
  base = 100;
  stride = 1;
  count = 3;
  length_rec = 0;
  pt_rec = 33;
  ts_rec = 0;
  payload = 11 ∷ 7 ∷ 6 ∷ 0 ∷ [];
  done = false;
}

abbrev pending : Decoder
pending = record {
  cfg = record { cols = 3; rows = 2; column_only = false; variant = variant20221 };
  payload_size = 4;
  window = 29;
  max_fecs = 36;
  media = (100, media_at 10 (4 ∷ [])) ∷ (102, media_at 30 (6 ∷ 6 ∷ 6 ∷ [])) ∷ [];
  fecs = [];
  last_seq = 102;
  have_seq = true;
  out = [];
}

pending-IsOneShort : IsOneShort pending row_fec front back lost
unfolding seq_add add
pending-IsOneShort = record {
  counted = refl;
  held_front = (refl, tt);
  lost_missing = refl;
  held_back = (refl, tt);
  some_held = omega arith;
  shared = (refl, (refl, tt));
  size_fits = omega arith;
  length_fits = omega arith;
  type_fits = omega arith;
}

pending-IsEmitted : IsEmitted pending row_fec (clips (new_group 100 4) (front ++ (lost ∷ back)))
unfolding clips clip new_group
pending-IsEmitted = record {
  length_carried = refl;
  type_carried = refl;
  time_carried = refl;
  payload_carried = refl;
}

try_recover-lost_example : try_recover pending row_fec ≡ (
  store
      (member row_fec 1)
      lost
      (record pending { out = recovered_of (member row_fec 1) lost ∷ [] }),
  close row_fec,
  true,
)
unfolding seq_add seq_diff add distance half
try_recover-lost_example =
    try_recover-lost pending row_fec front back lost 100 refl refl refl pending-IsOneShort
      pending-IsEmitted

abbrev burdened : Decoder
burdened = record pending { fecs = row_fec ∷ close row_fec ∷ [] }

recover_all-settled_example : let e = recover_all burdened in (recover_round e e.fecs).2 ≡ false
recover_all-settled_example = recover_all-settled burdened
