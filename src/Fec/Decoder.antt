-- ===== src/Fec/Decoder.antt =====
-- internal/fec/fec.go: the decoder. The map of media packets is an association list with one entry a key.
use ristgo.Prelude.{
  ℕ, zero, suc, ◌+◌, ◌-◌, ◌*◌, ◌/◌, ◌%◌, ◌^◌, bit_xor, Bool, true, false, not, ◌&&◌, ◌||◌,
}
use ristgo.Prelude.{
  List, [], ◌∷◌, ◌++◌, Option, none, some, length, take, drop, ltb, leb, ◌==◌, if◌then◌else◌,
}
use ristgo.Prelude.Bytes.{Bytes, replicate}
use ristgo.Prelude.Int.{ℤ, pos, sub_ℕ, leb_ℤ, ltb_ℤ, pos_part, neg_part}
use ristgo.Prelude.Results.{Result, ok, err}
use ristgo.Seq.{sub_word, w32}
use ristgo.Fec.Header.{FecError, Header, parse_header, base24, Header5, parse_header5, na10_max}
use ristgo.Fec.Group.{
  Variant, variant20221, variant20225, Config, matrix_size, Recovered, seq_add, seq_diff, xor_into,
}

pub record StoredMedia : Type 0 where
  pub ts : ℕ
  pub pt : ℕ
  pub ssrc : ℕ
  pub payload : Bytes

pub record StoredFec : Type 0 where
  pub base : ℕ
  pub stride : ℕ
  pub count : ℕ
  pub length_rec : ℕ
  pub pt_rec : ℕ
  pub ts_rec : ℕ
  pub payload : Bytes
  pub done : Bool

abbrev pub Media : Type 0
Media = List (ℕ × StoredMedia)

pub record Decoder : Type 0 where
  pub cfg : Config
  pub payload_size : ℕ
  pub window : ℕ
  pub max_fecs : ℕ
  pub media : Media
  pub fecs : List StoredFec
  pub last_seq : ℕ
  pub have_seq : Bool
  pub out : List Recovered

abbrev pub lookup : ℕ → Media → Option StoredMedia
lookup k [] = none
lookup k ((s, m) ∷ rest) = if s == k then some m else lookup k rest

abbrev pub is_some {ℓ} : {A : Type ℓ} → Option A → Bool
is_some none = false
is_some (some a) = true

unfoldable pub new_decoder : Config → (payload_size isn : ℕ) → Decoder
new_decoder cfg payload_size isn = record {
  cfg = cfg;
  payload_size = payload_size;
  window = matrix_size cfg * 3 + cfg.cols + 8;
  max_fecs = (cfg.cols + cfg.rows) * 4 + 16;
  media = [];
  fecs = [];
  last_seq = isn;
  have_seq = false;
  out = [];
}

unfoldable pub geometry_ok : Config → (stride count : ℕ) → Bool
geometry_ok cfg stride count =
    (stride == cfg.cols && count == cfg.rows)
    || (not cfg.column_only && stride == 1 && count == cfg.cols)

-- Only for a key that is not there.
abbrev pub store : ℕ → StoredMedia → Decoder → Decoder
store s m d = record d { media = (s, m) ∷ d.media }

unfoldable pub advance : ℕ → Decoder → Decoder
unfolding seq_diff
advance s d =
    if not d.have_seq || ltb_ℤ (pos 0) (seq_diff d.last_seq s)
    then record d { last_seq = s; have_seq = true }
    else d

abbrev magnitude : ℤ → ℕ
magnitude z = pos_part z + neg_part z

abbrev span_of : Variant → ℕ
span_of variant20225 = 2 ^ 16
span_of variant20221 = 2 ^ 24

abbrev nearer : (last best c : ℕ) → ℕ
nearer last best c =
    if ltb (magnitude (seq_diff last c)) (magnitude (seq_diff last best)) then c else best

unfoldable pub widen : Decoder → ℕ → ℕ
unfolding seq_diff
widen d base =
    let span = span_of d.cfg.variant in
    let cand = d.last_seq / span * span + base % span in
    nearer d.last_seq (nearer d.last_seq cand ((cand + span) % 2 ^ 32)) (sub_word w32 cand span)

abbrev pub member : StoredFec → ℕ → ℕ
member sf i = seq_add sf.base (pos (i * sf.stride))

-- The first loop of tryRecover from member `i`: `none` for more than one missing, else the missing one.
unfoldable pub scan_missing : (count i : ℕ) → StoredFec → Media → Option ℕ → Option (Option ℕ)
scan_missing zero i sf media found = some found
scan_missing (suc count) i sf media found =
    let s = member sf i in
    let present = is_some (lookup s media) in
    let rest = scan_missing count (i + 1) sf media (if present then found else some s) in
    if not present && is_some found then none else rest

-- What the second loop accumulates.
pub record Sum : Type 0 where
  pub len : ℕ
  pub pt : ℕ
  pub ts : ℕ
  pub ssrc : ℕ
  pub payload : Bytes

unfoldable pub add_media : Sum → StoredMedia → Sum
add_media a m = record {
  len = bit_xor a.len (length m.payload % 2 ^ 16);
  pt = bit_xor a.pt (m.pt % 2 ^ 7);
  ts = bit_xor a.ts m.ts;
  ssrc = m.ssrc;
  payload = xor_into a.payload m.payload;
}

abbrev pub add_present : Sum → Option StoredMedia → Sum
add_present a none = a
add_present a (some m) = add_media a m

unfoldable pub sum_members : (count i : ℕ) → StoredFec → Media → Sum → Sum
sum_members zero i sf media a = a
sum_members (suc count) i sf media a =
    sum_members count (i + 1) sf media (add_present a (lookup (member sf i) media))

abbrev pub first_sum : ℕ → StoredFec → Sum
first_sum payload_size sf = record {
  len = sf.length_rec;
  pt = sf.pt_rec;
  ts = sf.ts_rec;
  ssrc = 0;
  payload = take payload_size (sf.payload ++ replicate payload_size 0);
}

abbrev pub close : StoredFec → StoredFec
close sf = record sf { done = true }

-- The group's one missing packet out of the sum, unless its length cannot be.
abbrev pub recover_missing : Decoder → StoredFec → (missing : ℕ) → Sum → Decoder × StoredFec × Bool
recover_missing d sf missing a =
    let payload = take a.len a.payload in
    let r : Recovered = record {
      seq = missing;
      timestamp = a.ts;
      payload_type = a.pt;
      ssrc = a.ssrc;
      payload = payload;
    } in
    let m : StoredMedia = record { ts = a.ts; pt = a.pt; ssrc = a.ssrc; payload = payload } in
    if ltb d.payload_size a.len
    then (d, close sf, false)
    else (store missing m (record d { out = d.out ++ (r ∷ []) }), close sf, true)

abbrev pub recover_scanned : Decoder → StoredFec → Option (Option ℕ) → Decoder × StoredFec × Bool
recover_scanned d sf none = (d, sf, false)
recover_scanned d sf (some none) = (d, close sf, false)
recover_scanned d sf (some (some missing)) =
    recover_missing d sf missing (sum_members sf.count 0 sf d.media (first_sum d.payload_size sf))

-- The decoder and the group afterwards, and whether a packet was recovered.
unfoldable pub try_recover : Decoder → StoredFec → Decoder × StoredFec × Bool
unfolding seq_add seq_diff scan_missing sum_members add_media
try_recover d sf =
    if sf.done
    then (d, sf, false)
    else if ltb_ℤ (seq_diff (seq_add d.last_seq (sub_ℕ 0 d.window)) sf.base) (pos 0)
    then (d, close sf, false)
    else if ltb_ℤ (pos 0) (seq_diff d.last_seq (member sf (sf.count - 1)))
    then (d, sf, false)
    else recover_scanned d sf (scan_missing sf.count 0 sf d.media none)

-- One round over the groups.
unfoldable pub recover_round : Decoder → List StoredFec → Decoder × List StoredFec × Bool
unfolding try_recover
recover_round d [] = (d, [], false)
recover_round d (sf ∷ fecs) =
    let (d2, sf2, one) = try_recover d sf in
    let (d3, rest, more) = recover_round d2 fecs in (d3, sf2 ∷ rest, one || more)

-- Every round that goes on marks a group done, so the groups' number and one more is fuel enough.
unfoldable pub recover_rounds : ℕ → Decoder → Decoder
unfolding recover_round
recover_rounds zero d = d
recover_rounds (suc fuel) d =
    let (d2, fecs, recovered) = recover_round d d.fecs in
    let next = record d2 { fecs = fecs } in
    let rest = recover_rounds fuel next in if recovered then rest else next

unfoldable pub recover_all : Decoder → Decoder
unfolding recover_rounds
recover_all d = recover_rounds (suc (length d.fecs)) d

abbrev keep_media : ℕ → Media → Media
keep_media lo [] = []
keep_media lo ((s, m) ∷ rest) =
    if ltb_ℤ (seq_diff lo s) (pos 0) then keep_media lo rest else (s, m) ∷ keep_media lo rest

abbrev keep_fecs : ℕ → List StoredFec → List StoredFec
keep_fecs lo [] = []
keep_fecs lo (f ∷ fs) =
    if leb_ℤ (pos 0) (seq_diff lo f.base) then f ∷ keep_fecs lo fs else keep_fecs lo fs

unfoldable pub evict : Decoder → Decoder
unfolding seq_add seq_diff
evict d =
    let lo = seq_add d.last_seq (sub_ℕ 0 d.window) in
    record d { media = keep_media lo d.media; fecs = keep_fecs lo d.fecs }

-- The decoder, whose `out` is the next result's buffer, and the result.
unfoldable pub push_media : Decoder → (s ts pt ssrc : ℕ) → Bytes → Decoder × List Recovered
unfolding advance recover_all evict
push_media d s ts pt ssrc payload =
    let d1 = advance s (record d { out = [] }) in
    let m : StoredMedia = record { ts = ts; pt = pt; ssrc = ssrc; payload = payload } in
    let d2 = evict (recover_all (store s m d1)) in
    if is_some (lookup s d1.media) then (d1, []) else (d2, d2.out)

-- A parsed packet's group, its payload and the code's checks of its geometry.
abbrev read_header : Decoder → Bytes → Option StoredFec
read_header d fec = elim d.cfg.variant [
  | variant20225 ↦ of5 (parse_header5 fec)
  | variant20221 ↦ of1 (parse_header fec)
]
  where
    of5 : Result FecError (Header5 × ℕ) → Option StoredFec
    of5 (err e) = none
    of5 (ok (h, off)) = some (record {
      base = widen d h.sn_base;
      stride = h.offset;
      count = h.na;
      length_rec = h.length_recovery;
      pt_rec = h.pt_recovery % 2 ^ 7;
      ts_rec = h.ts_recovery;
      payload = drop off fec;
      done = false;
    })

    of1 : Result FecError (Header × ℕ) → Option StoredFec
    of1 (err e) = none
    of1 (ok (h, off)) = some (record {
      base = widen d (base24 h);
      stride = h.offset;
      count = h.na;
      length_rec = h.length_recovery;
      pt_rec = h.pt_recovery % 2 ^ 7;
      ts_rec = h.ts_recovery;
      payload = drop off fec;
      done = false;
    })

abbrev same_group : StoredFec → List StoredFec → Bool
same_group sf [] = false
same_group sf (f ∷ fs) =
    (f.base == sf.base && f.stride == sf.stride && f.count == sf.count) || same_group sf fs

-- At the limit the decoder evicts, and drops the oldest group if that makes no room.
unfoldable pub make_room : Decoder → Decoder
unfolding evict
make_room d =
    let e = evict d in
    if ltb (length d.fecs) d.max_fecs
    then d
    else if ltb (length e.fecs) e.max_fecs
    then e
    else record e { fecs = drop 1 e.fecs }

abbrev take_fec : Decoder → Option StoredFec → Decoder × List Recovered
take_fec d none = (d, [])
take_fec d (some sf) =
    let room = make_room d in
    let kept = evict (recover_all (record room { fecs = room.fecs ++ (sf ∷ []) })) in
    if sf.stride == 0 || leb sf.count 1 || ltb na10_max sf.count
    then (d, [])
    else if not (geometry_ok d.cfg sf.stride sf.count) || same_group sf d.fecs
    then (d, [])
    else (kept, kept.out)

unfoldable pub push_fec : Decoder → Bytes → Decoder × List Recovered
unfolding widen parse_header parse_header5 make_room recover_all evict geometry_ok
push_fec d fec = let cleared = record d { out = [] } in take_fec cleared (read_header cleared fec)
