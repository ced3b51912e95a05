-- ===== src/Flow/Effects.antt =====
-- internal/flow/effects.go: timers, outputs, events and counters.
use ristgo.Prelude.{ℕ, ◌+◌, ◌%◌, ◌^◌, Bool, List}
use ristgo.Clock.{Timestamp}
use ristgo.Wire.{MediaPacket, Feedback, FragRole}

-- `unknown` is any other value of the uint32.
pub data TimerId : Type 0 where
  timer_playout timer_nack timer_rtt_echo : TimerId
  unknown : ℕ → TimerId

pub data Output : Type 0 where
  send_media : (path : ℕ) (pkt : MediaPacket) → Output
  send_feedback : (path : ℕ) (fb : Feedback) → Output
  set_timer : (id : TimerId) (deadline : Timestamp) → Output
  clear_timer : (id : TimerId) → Output

-- The one event, Deliver.
pub record Deliver : Type 0 where
  pub seq : ℕ
  pub source_time : ℕ
  pub payload : List ℕ
  pub discontinuity : Bool
  pub frag : FragRole
  pub virt_src_port : ℕ
  pub virt_dst_port : ℕ

-- `x++` and `x += n` on a uint64 counter.
abbrev pub inc64 : ℕ → ℕ
inc64 x = (x + 1) % 2 ^ 64

abbrev pub add_u64 : ℕ → ℕ → ℕ
add_u64 x n = (x + n) % 2 ^ 64

-- The counters of Stats that the core advances; the gauges are computed on reading.
pub record Stats : Type 0 where
  pub received : ℕ
  pub received_bytes : ℕ
  pub duplicates : ℕ
  pub reordered : ℕ
  pub retransmitted_received : ℕ
  pub overwritten : ℕ
  pub too_late : ℕ
  pub too_late_retransmit : ℕ
  pub missing : ℕ
  pub nacks_sent : ℕ
  pub recovered : ℕ
  pub recovered_one_retry : ℕ
  pub recovered_two_nacks : ℕ
  pub recovered_three_nacks : ℕ
  pub recovered_four_nacks : ℕ
  pub recovered_more_nacks : ℕ
  pub abandoned : ℕ
  pub delivered : ℕ
  pub lost : ℕ
  pub discontinuities : ℕ
  pub ignored_feedback : ℕ
  pub clock_resync : ℕ
  pub flow_resets : ℕ
  pub framing_resets : ℕ
  pub sent : ℕ
  pub sent_bytes : ℕ
  pub retransmitted : ℕ
  pub retransmitted_bytes : ℕ
  pub retransmit_skipped : ℕ
  pub retransmit_suppressed : ℕ
  pub retransmit_exhausted : ℕ
  pub bandwidth_skipped : ℕ

abbrev pub no_stats : Stats
no_stats = record {
  received = 0;
  received_bytes = 0;
  duplicates = 0;
  reordered = 0;
  retransmitted_received = 0;
  overwritten = 0;
  too_late = 0;
  too_late_retransmit = 0;
  missing = 0;
  nacks_sent = 0;
  recovered = 0;
  recovered_one_retry = 0;
  recovered_two_nacks = 0;
  recovered_three_nacks = 0;
  recovered_four_nacks = 0;
  recovered_more_nacks = 0;
  abandoned = 0;
  delivered = 0;
  lost = 0;
  discontinuities = 0;
  ignored_feedback = 0;
  clock_resync = 0;
  flow_resets = 0;
  framing_resets = 0;
  sent = 0;
  sent_bytes = 0;
  retransmitted = 0;
  retransmitted_bytes = 0;
  retransmit_skipped = 0;
  retransmit_suppressed = 0;
  retransmit_exhausted = 0;
  bandwidth_skipped = 0;
}
