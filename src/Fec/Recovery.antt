-- ===== src/Fec/Recovery.antt =====
-- What tryRecover of fec.go recovers from a group's FEC packet and all of the group but one.
use ristgo.Prelude.{
  ℕ, suc, ◌+◌, ◌-◌, ◌%◌, ◌^◌, ◌≤◌, ◌<◌, ◌≡◌, refl, sym, ap, ◌∙◌, arith, true, false,
}
use ristgo.Prelude.{List, [], ◌∷◌, ◌++◌, Option, none, some, length, take, ltb, take-front, All}
use ristgo.Prelude.Bytes.{replicate, length-replicate}
use ristgo.Prelude.Int.{pos, ltb_ℤ, sub_ℕ}
use ristgo.Prelude.Xor.{bit_xor-zero}
use ristgo.Fec.Group.{FecGroup, new_group, clip, seq_add, seq_diff, Recovered}
use ristgo.Fec.Decoder.{
  StoredMedia, StoredFec, Media, Decoder, lookup, store, member, scan_missing, Sum, add_media,
  add_present, sum_members, first_sum, close, try_recover,
}
use ristgo.Fec.Sums.{Sums, step, steps, steps-lost, length-xor_into, take-xor_into}

-- The encoder's group after the packets.
unfoldable pub clips : FecGroup → List StoredMedia → FecGroup
clips g [] = g
clips g (m ∷ ms) = clips (clip g (length m.payload % 2 ^ 16) m.pt m.ts m.payload) ms

sums_of_group : FecGroup → Sums
sums_of_group g = record {
  len = g.length_clip;
  pt = g.pt_clip;
  ts = g.ts_clip;
  bytes = g.payload_clip;
}

sums_of_group-clips :
    (g : FecGroup) (ms : List StoredMedia) → sums_of_group (clips g ms) ≡ steps (sums_of_group g) ms
unfolding clips steps sums_of_group clip
sums_of_group-clips g [] = refl
sums_of_group-clips g (m ∷ ms) =
    sums_of_group-clips (clip g (length m.payload % 2 ^ 16) m.pt m.ts m.payload) ms

length-clips :
    (g : FecGroup) (ms : List StoredMedia)
    → length (clips g ms).payload_clip ≡ length g.payload_clip
unfolding clips clip
length-clips g [] = refl
length-clips g (m ∷ ms) =
    length-clips (clip g (length m.payload % 2 ^ 16) m.pt m.ts m.payload) ms
    ∙ length-xor_into g.payload_clip m.payload

-- The decoder's sum over packets, in order.
adds : Sum → List StoredMedia → Sum
adds a [] = a
adds a (m ∷ ms) = adds (add_media a m) ms

sums_of : Sum → Sums
sums_of a = record { len = a.len; pt = a.pt; ts = a.ts; bytes = a.payload }

sums_of-adds : (a : Sum) (ms : List StoredMedia) → sums_of (adds a ms) ≡ steps (sums_of a) ms
unfolding adds steps sums_of add_media
sums_of-adds a [] = refl
sums_of-adds a (m ∷ ms) = sums_of-adds (add_media a m) ms

adds-append : (a : Sum) (ms ks : List StoredMedia) → adds a (ms ++ ks) ≡ adds (adds a ms) ks
unfolding adds
adds-append a [] ks = refl
adds-append a (m ∷ ms) ks = adds-append (add_media a m) ms ks

-- All packets of a group come from one sender.
abbrev pub SharesSsrc : ℕ → StoredMedia → Type 0
SharesSsrc k m = m.ssrc ≡ k

adds-ssrc_kept :
    (k : ℕ) (a : Sum) (ms : List StoredMedia)
    → a.ssrc ≡ k
    → All (SharesSsrc k) ms
    → (adds a ms).ssrc ≡ k
unfolding adds add_media
adds-ssrc_kept k a [] e shared = e
adds-ssrc_kept k a (m ∷ ms) e (one, others) = adds-ssrc_kept k (add_media a m) ms one others

adds-ssrc :
    (k : ℕ) (a : Sum) (ms : List StoredMedia)
    → 0 < length ms
    → All (SharesSsrc k) ms
    → (adds a ms).ssrc ≡ k
unfolding adds add_media
adds-ssrc k a [] l shared = absurd (omega arith)
adds-ssrc k a (m ∷ ms) l (one, others) = adds-ssrc_kept k (add_media a m) ms one others

-- The decoder has the packets as the members from `i`.
abbrev pub Holds : StoredFec → Media → ℕ → List StoredMedia → Type 0
Holds sf media i [] = Unit {0}
Holds sf media i (m ∷ ms) = (lookup (member sf i) media ≡ some m) × Holds sf media (i + 1) ms

module _ (sf : StoredFec) (media : Media) where
  scan_missing-held :
      (ms : List StoredMedia) (n i : ℕ) (found : Option ℕ)
      → Holds sf media i ms
      → scan_missing (length ms + n) i sf media found
        ≡ scan_missing n (i + length ms) sf media found
  unfolding scan_missing
  scan_missing-held [] n i found h =
      let none : 0 + n ≡ n = omega arith in
      let here : i + 0 ≡ i = omega arith in rw (none, here) refl
  scan_missing-held (m ∷ ms) n i found (here, later) =
      let count : suc (length ms) + n ≡ suc (length ms + n) = omega arith in
      let place : i + 1 + length ms ≡ i + suc (length ms) = omega arith in
      rw (count, here)
        (scan_missing-held ms n (i + 1) found later
          ∙ ap (λ k. scan_missing n k sf media found) place)

  sum_members-held :
      (ms : List StoredMedia) (n i : ℕ) (a : Sum)
      → Holds sf media i ms
      → sum_members (length ms + n) i sf media a
        ≡ sum_members n (i + length ms) sf media (adds a ms)
  unfolding sum_members adds
  sum_members-held [] n i a h =
      let none : 0 + n ≡ n = omega arith in
      let here : i + 0 ≡ i = omega arith in rw (none, here) refl
  sum_members-held (m ∷ ms) n i a (here, later) =
      let count : suc (length ms) + n ≡ suc (length ms + n) = omega arith in
      let place : i + 1 + length ms ≡ i + suc (length ms) = omega arith in
      rw count (
        ap (λ o. sum_members (length ms + n) (i + 1) sf media (add_present a o)) here
        ∙ (sum_members-held ms n (i + 1) (add_media a m) later
            ∙ ap (λ k. sum_members n k sf media (adds (add_media a m) ms)) place))

-- The group's media are those of one sender, and the decoder lacks exactly one, which fits the payload's size.
pub record IsOneShort (d : Decoder) (sf : StoredFec) (front back : List StoredMedia)
    (lost : StoredMedia) : Type 0 where
  pub counted : sf.count ≡ length front + suc (length back)
  pub held_front : Holds sf d.media 0 front
  pub lost_missing : lookup (member sf (length front)) d.media ≡ none
  pub held_back : Holds sf d.media (length front + 1) back
  pub some_held : 0 < length (front ++ back)
  pub shared : All (SharesSsrc lost.ssrc) (front ++ back)
  pub size_fits : length lost.payload ≤ d.payload_size
  pub length_fits : length lost.payload < 2 ^ 16
  pub type_fits : lost.pt < 2 ^ 7

-- The group as the encoder's packet carries it.
pub record IsEmitted (d : Decoder) (sf : StoredFec) (g : FecGroup) : Type 0 where
  pub length_carried : sf.length_rec ≡ g.length_clip
  pub type_carried : sf.pt_rec ≡ g.pt_clip
  pub time_carried : sf.ts_rec ≡ g.ts_clip
  pub payload_carried : sf.payload ≡ g.payload_clip

module _ (d : Decoder) (sf : StoredFec) (front back : List StoredMedia) (lost : StoredMedia)
    (w : IsOneShort d sf front back lost) where
  scan_missing-lost :
      scan_missing sf.count 0 sf d.media none ≡ some (some (member sf (length front)))
  unfolding scan_missing
  scan_missing-lost =
      let place : 0 + length front ≡ length front = omega arith in
      let last : length back + 0 ≡ length back = omega arith in
      let at_lost = scan_missing-held sf d.media front (suc (length back)) 0 none w.held_front in
      let after =
        scan_missing-held sf d.media back 0 (length front + 1) (some (member sf (length front)))
          w.held_back in
      ap (λ k. scan_missing k 0 sf d.media none) w.counted
      ∙ (at_lost ∙ rw (place, w.lost_missing) (rw last at after))

  sum_members-lost : (a : Sum) → sum_members sf.count 0 sf d.media a ≡ adds a (front ++ back)
  unfolding sum_members
  sum_members-lost a =
      let place : 0 + length front ≡ length front = omega arith in
      let last : suc (length back) ≡ suc (length back + 0) = omega arith in
      let at_lost = sum_members-held sf d.media front (suc (length back)) 0 a w.held_front in
      let here =
        ap
          (λ o.
            sum_members (length back + 0) (length front + 1) sf d.media
              (add_present (adds a front) o))
          w.lost_missing in
      let after =
        sum_members-held sf d.media back 0 (length front + 1) (adds a front) w.held_back in
      ap (λ k. sum_members k 0 sf d.media a) w.counted
      ∙ (at_lost ∙ rw (place, last) (here ∙ (after ∙ sym (adds-append a front back))))

  recovered_sum :
      (base : ℕ)
      → IsEmitted d sf (clips (new_group base d.payload_size) (front ++ (lost ∷ back)))
      → let a = adds (first_sum d.payload_size sf) (front ++ back) in
        (a.len ≡ length lost.payload)
        × (a.pt ≡ lost.pt)
        × (a.ts ≡ lost.ts)
        × (a.ssrc ≡ lost.ssrc)
        × (take (length lost.payload) a.payload ≡ lost.payload)
  unfolding sums_of sums_of_group new_group
  recovered_sum base e =
      let n = d.payload_size in
      let g0 = new_group base n in
      let all = front ++ (lost ∷ back) in
      let first = first_sum n sf in
      let whole : length sf.payload ≡ n =
        ap length e.payload_carried ∙ (length-clips g0 all ∙ length-replicate n 0) in
      let bytes : first.payload ≡ (clips g0 all).payload_clip =
        take-front n sf.payload (replicate n 0) whole ∙ e.payload_carried in
      let carried : sums_of first ≡ sums_of_group (clips g0 all) = λ i. record {
        len = e.length_carried i;
        pt = e.type_carried i;
        ts = e.time_carried i;
        bytes = bytes i;
      } in
      let left : sums_of (adds first (front ++ back)) ≡ step (sums_of_group g0) lost =
        sums_of-adds first (front ++ back)
        ∙ (ap (λ c. steps c (front ++ back)) (carried ∙ sums_of_group-clips g0 all)
            ∙ steps-lost (sums_of_group g0) front back lost) in
      (
        ap (λ c. c.len) left ∙ (bit_xor-zero _ ∙ omega (arith, w.length_fits)),
        ap (λ c. c.pt) left ∙ (bit_xor-zero _ ∙ omega (arith, w.type_fits)),
        ap (λ c. c.ts) left ∙ bit_xor-zero lost.ts,
        adds-ssrc lost.ssrc first (front ++ back) w.some_held w.shared,
        ap (λ c. take (length lost.payload) c.bytes) left
            ∙ take-xor_into n lost.payload w.size_fits,
      )

unfoldable pub recovered_of : ℕ → StoredMedia → Recovered
recovered_of s m = record {
  seq = s;
  timestamp = m.ts;
  payload_type = m.pt;
  ssrc = m.ssrc;
  payload = m.payload;
}

-- From a packet that the encoder's group made of all of the group and from the media of all but
-- one, the decoder recovers the one that it lacks exactly as it was: it returns the packet, keeps
-- it as media, and closes the group. The group is open, within the window and not ahead of the
-- newest media; its packets come from one sender, at least one of them is there, and the lost
-- one's payload fits the decoder's size and 16 bits, its type 7 bits.
pub try_recover-lost :
    (d : Decoder) (sf : StoredFec) (front back : List StoredMedia) (lost : StoredMedia) (base : ℕ)
    → sf.done ≡ false
    → ltb_ℤ (seq_diff (seq_add d.last_seq (sub_ℕ 0 d.window)) sf.base) (pos 0) ≡ false
    → ltb_ℤ (pos 0) (seq_diff d.last_seq (member sf (sf.count - 1))) ≡ false
    → IsOneShort d sf front back lost
    → IsEmitted d sf (clips (new_group base d.payload_size) (front ++ (lost ∷ back)))
    → let s = member sf (length front) in
      try_recover d sf
      ≡ (store s lost (record d { out = d.out ++ (recovered_of s lost ∷ []) }), close sf, true)
unfolding try_recover recovered_of
try_recover-lost d sf front back lost base alive recent past w e =
    let (len, kind, time, sender, payload) = recovered_sum d sf front back lost w base e in
    let fits : ltb d.payload_size (length lost.payload) ≡ false =
      let f = w.size_fits in ground arith in
    simp
      (
        alive,
        recent,
        past,
        scan_missing-lost d sf front back lost w,
        sum_members-lost d sf front back lost w (first_sum d.payload_size sf),
        len,
        kind,
        time,
        sender,
        payload,
        fits,
      )
      refl
