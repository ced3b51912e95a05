-- ===== src/Flow/Nacks.antt =====
-- NACK processing of internal/flow/receiver.go: processNacks and the return-bandwidth limiter.
pub mod Requests
pub mod Passes
use ristgo.Prelude.{ℕ, ◌+◌, ◌-◌, Bool, true, false, not, ◌&&◌, ◌||◌}
use ristgo.Prelude.{List, [], ◌∷◌, ◌++◌, length, ltb, ◌==◌, if◌then◌else◌}
use ristgo.Prelude.Int.{pos, ltb_ℤ, leb_ℤ}
use ristgo.Prelude.Floats.{Floats}
use ristgo.Clock.{Timestamp, add, since, before}
use ristgo.Rtt.{retry_interval}
use ristgo.Wire.{nack_request}
use ristgo.Flow.Fifo.{push}
use ristgo.Flow.Effects.{send_feedback, Stats, inc64}
use ristgo.Flow.Congestion.{rist_max_nacks}
use ristgo.Flow.State.{Flow, ReceiverState, MissingEntry, slot_at, is_filled}

-- The cases of the switch, in its order.
pub data Verdict : Type 0 where
  recovered stale abandoned due waiting : Verdict

unfoldable pub judge : Timestamp → Flow → MissingEntry → Verdict
judge now f e =
    let s = slot_at f.receiver e.seq in
    if is_filled s.state && s.seq == e.seq
    then recovered
    else if is_filled s.state
    then stale
    else if leb_ℤ f.cfg.max_retries (pos e.nack_count)
    then abandoned
    else if ltb_ℤ f.recovery_buffer110 (since now e.insertion_time)
    then abandoned
    else if not (before now e.next_nack)
    then due
    else waiting

-- `Recovered` and its bucket, for an entry that was NACKed.
unfoldable pub count_recovered : ℕ → Stats → Stats
count_recovered n st =
    let st' : Stats = record st { recovered = inc64 st.recovered } in
    if n == 0
    then st
    else if n == 1
    then record st' { recovered_one_retry = inc64 st.recovered_one_retry }
    else if n == 2
    then record st' { recovered_two_nacks = inc64 st.recovered_two_nacks }
    else if n == 3
    then record st' { recovered_three_nacks = inc64 st.recovered_three_nacks }
    else if n == 4
    then record st' { recovered_four_nacks = inc64 st.recovered_four_nacks }
    else record st' { recovered_more_nacks = inc64 st.recovered_more_nacks }

-- What one pass over the queue carries along: the entries kept and the sequences requested so far,
-- in order, with the counters and the tokens.
pub record Pass : Type 0 where
  pub kept : List MissingEntry
  pub batch : List ℕ
  pub count : ℕ
  pub tokens : ℕ
  pub stats : Stats

abbrev pub keep : MissingEntry → Pass → Pass
keep e p = record p { kept = p.kept ++ (e ∷ []) }

abbrev pub remove : Stats → Pass → Pass
remove st p = record p { count = p.count - 1; stats = st }

-- The pass before the first entry.
abbrev pub first_pass : Flow → Pass
first_pass f = record {
  kept = [];
  batch = [];
  count = f.receiver.missing_count;
  tokens = f.receiver.nack_tokens;
  stats = f.stats;
}

-- The float64 constants 1 and 1e6.
abbrev f1 : ℕ
f1 = 0x3FF0000000000000

abbrev f1e6 : ℕ
f1e6 = 0x412E848000000000

module _ (F : Floats) where
  -- `nackSeqsPerSec > 0`, and `== 0` for a float64: neither below nor above.
  unfoldable pub limited : ReceiverState → Bool
  limited r = F.lt 0 r.nack_seqs_per_sec

  unfoldable pub unlimited : ReceiverState → Bool
  unlimited r = F.le 0 r.nack_seqs_per_sec && F.le r.nack_seqs_per_sec 0

  unfoldable pub refill : Timestamp → ReceiverState → ReceiverState
  unfolding limited
  refill now r =
      let elapsed = since now r.nack_tokens_time in
      let grown = F.add r.nack_tokens (F.mul (F.div (F.of_int elapsed) f1e6) r.nack_seqs_per_sec) in
      let capped = if F.lt r.nack_token_burst grown then r.nack_token_burst else grown in
      if limited r
      then record r {
        nack_tokens = if ltb_ℤ (pos 0) elapsed then capped else r.nack_tokens;
        nack_tokens_time = now;
      }
      else r

  unfoldable pub has_room : ReceiverState → Pass → Bool
  unfolding unlimited
  has_room r p = ltb (length p.batch) rist_max_nacks && (unlimited r || F.le f1 p.tokens)

  -- A request: the entry's next time and count, and the pass with its sequence.
  abbrev pub asked_entry : Timestamp → Flow → MissingEntry → MissingEntry
  asked_entry now f e = record e {
    next_nack = add now (retry_interval F f.est f.cfg.rtt_min f.cfg.rtt_max);
    nack_count = e.nack_count + 1;
  }

  abbrev pub asked_pass : Flow → MissingEntry → Pass → Pass
  asked_pass f e p =
      let st = p.stats in
      record p {
        batch = p.batch ++ (e.seq ∷ []);
        tokens = if limited f.receiver then F.sub p.tokens f1 else p.tokens;
        stats = record st { nacks_sent = inc64 st.nacks_sent };
      }

  -- The entry is due: request it if there is room, and else leave it as it is.
  unfoldable pub request : Timestamp → Flow → MissingEntry → Pass → Pass
  request now f e p =
      if has_room f.receiver p then keep (asked_entry now f e) (asked_pass f e p) else keep e p

  unfoldable pub visit : Timestamp → Flow → MissingEntry → Pass → Pass
  visit now f e p =
      let st = p.stats in
      elim (judge now f e) [
        | recovered ↦ remove (count_recovered e.nack_count st) p
        | stale ↦ remove st p
        | abandoned ↦ remove (record st { abandoned = inc64 st.abandoned }) p
        | due ↦ request now f e p
        | waiting ↦ keep e p
      ]

  unfoldable pub walk : Timestamp → Flow → List MissingEntry → Pass → Pass
  walk now f [] p = p
  walk now f (e ∷ es) p = walk now f es (visit now f e p)

  unfoldable pub run_pass : Timestamp → Flow → Pass
  run_pass now f = walk now f f.receiver.missing (first_pass f)

  abbrev pub is_nil : List ℕ → Bool
  is_nil [] = true
  is_nil (n ∷ ns) = false

  unfoldable pub process_nacks : Timestamp → Flow → Flow
  process_nacks now f =
      let g : Flow = record f { receiver = refill now f.receiver } in
      let p = run_pass now g in
      let r = g.receiver in
      let done : Flow = record g {
        receiver = record r { missing = p.kept; missing_count = p.count; nack_tokens = p.tokens };
        stats = p.stats;
      } in
      if f.receiver.missing_count == 0 then f else if is_nil p.batch then done else record done {
        outputs = push f.outputs (send_feedback r.last_path (nack_request r.ssrc p.batch));
      }
