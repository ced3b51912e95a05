-- ===== src/Flow/State.antt =====
-- The state of internal/flow: the receiver and sender rings, the missing queue, and the Flow.
use ristgo.Prelude.{◌%◌, ℕ, ◌-◌, ◌^◌, Bool, true, false, bit_and, ◌&&◌, Option, none, some}
use ristgo.Prelude.{List, [], ◌==◌, if◌then◌else◌}
use ristgo.Prelude.Int.{ℤ, pos, ltb_ℤ, leb_ℤ, pos_part}
use ristgo.Prelude.Floats.{Floats}
use ristgo.Clock.{Timestamp, Microseconds}
use ristgo.Rtt.{Estimator}
use ristgo.Rtt
use ristgo.Wire.{FragRole, frag_standalone}
use ristgo.Flow.Fifo
use ristgo.Flow.Fifo.{Fifo}
use ristgo.Flow.Effects.{Output, Deliver, Stats, no_stats}
use ristgo.Flow.Config.{Config, Role, role_sender, role_receiver, recovery_buffer_of, mul110}
use ristgo.Flow.Config.{derive_ring_size, next_pow2}
use ristgo.Flow.Congestion.{
  BitrateEwma, no_bitrate, derive_missing_counter_max, derive_max_nacks_per_loop, rist_max_nacks,
}

pub data SlotState : Type 0 where
  slot_empty slot_filled : SlotState

abbrev pub is_filled : SlotState → Bool
is_filled slot_empty = false
is_filled slot_filled = true

-- `slot`: one entry of the receiver ring.
pub record Slot : Type 0 where
  pub payload : List ℕ
  pub source_time : ℕ
  pub arrival : Timestamp
  pub packet_time : Timestamp
  pub output_time : Timestamp
  pub path_seen : ℕ
  pub seq : ℕ
  pub frag : FragRole
  pub virt_src_port : ℕ
  pub virt_dst_port : ℕ
  pub state : SlotState

abbrev pub empty_slot : Slot
empty_slot = record {
  payload = [];
  source_time = 0;
  arrival = pos 0;
  packet_time = pos 0;
  output_time = pos 0;
  path_seen = 0;
  seq = 0;
  frag = frag_standalone;
  virt_src_port = 0;
  virt_dst_port = 0;
  state = slot_empty;
}

-- `missingEntry`. The queue, linked by `next` from head to tail, is the list of its entries.
pub record MissingEntry : Type 0 where
  pub seq : ℕ
  pub path : ℕ
  pub nack_count : ℕ
  pub insertion_time : Timestamp
  pub next_nack : Timestamp

-- `receiverState`. A ring is a function on indices with the number of its slots; the token bucket's
-- float64 values are bit patterns.
pub record ReceiverState : Type 0 where
  pub ring : ℕ → Slot
  pub ring_len : ℕ
  pub mask : ℕ
  pub started : Bool
  pub offset : Microseconds
  pub ssrc : ℕ
  pub short_seq : Bool
  pub last_found : ℕ
  pub max_source_time : ℕ
  pub last_packet_time : Timestamp
  pub last_resync : Timestamp
  pub highest : ℕ
  pub deliver_next : ℕ
  pub pending_discontinuity : Bool
  pub last_path : ℕ
  pub missing : List MissingEntry
  pub missing_count : ℕ
  pub playout_armed : Bool
  pub playout_deadline : Timestamp
  pub nack_armed : Bool
  pub nack_seqs_per_sec : ℕ
  pub nack_token_burst : ℕ
  pub nack_tokens : ℕ
  pub nack_tokens_time : Timestamp
  pub sender_max_buffer : Microseconds
  pub loss_snap : ℕ
  pub recovered_snap : ℕ
  pub ips_last_arrival : Timestamp
  pub ips_min_us : ℤ
  pub ips_cur_us : ℤ
  pub ips_max_us : ℤ
  pub buffer_time_sum : ℤ
  pub buffer_time_samples : ℕ

-- `senderSlot`: one entry of the retransmit history.
pub record SenderSlot : Type 0 where
  pub payload : List ℕ
  pub source_time : ℕ
  pub seq : ℕ
  pub transmit_count : ℕ
  pub last_retry : Timestamp
  pub retried : Bool
  pub frag : FragRole
  pub state : SlotState

abbrev pub empty_sender_slot : SenderSlot
empty_sender_slot = record {
  payload = [];
  source_time = 0;
  seq = 0;
  transmit_count = 0;
  last_retry = pos 0;
  retried = false;
  frag = frag_standalone;
  state = slot_empty;
}

pub record SenderState : Type 0 where
  pub ring : ℕ → SenderSlot
  pub ring_len : ℕ
  pub mask : ℕ
  pub started : Bool
  pub ssrc : ℕ
  pub next_seq : ℕ
  pub tx_path : ℕ
  pub data_bw : BitrateEwma
  pub retry_bw : BitrateEwma

pub record Flow : Type 0 where
  pub role : Role
  pub cfg : Config
  pub recovery_buffer : Microseconds
  pub recovery_buffer110 : Microseconds
  pub missing_counter_max : ℕ
  pub max_nacks_per_loop : ℤ
  pub est : Estimator
  pub outputs : Fifo Output
  pub events : Fifo Deliver
  pub stats : Stats
  pub receiver : ReceiverState
  pub sender : SenderState

-- `r.ring[n&r.mask]`, read and written.
abbrev pub slot_at : ReceiverState → ℕ → Slot
slot_at r n = r.ring (bit_and n r.mask)

abbrev pub put_slot : ReceiverState → ℕ → Slot → ReceiverState
put_slot r n s = record r { ring = λ i. if i == bit_and n r.mask then s else r.ring i }

abbrev pub sender_slot_at : SenderState → ℕ → SenderSlot
sender_slot_at s n = s.ring (bit_and n s.mask)

abbrev pub put_sender_slot : SenderState → ℕ → SenderSlot → SenderState
put_sender_slot s n sl = record s { ring = λ i. if i == bit_and n s.mask then sl else s.ring i }

-- A slot that holds the sequence `n`.
abbrev pub holds : Slot → ℕ → Bool
holds s n = is_filled s.state && s.seq == n

abbrev pub no_receiver : ReceiverState
no_receiver = record {
  ring = λ i. empty_slot;
  ring_len = 0;
  mask = 0;
  started = false;
  offset = pos 0;
  ssrc = 0;
  short_seq = false;
  last_found = 0;
  max_source_time = 0;
  last_packet_time = pos 0;
  last_resync = pos 0;
  highest = 0;
  deliver_next = 0;
  pending_discontinuity = false;
  last_path = 0;
  missing = [];
  missing_count = 0;
  playout_armed = false;
  playout_deadline = pos 0;
  nack_armed = false;
  nack_seqs_per_sec = 0;
  nack_token_burst = 0;
  nack_tokens = 0;
  nack_tokens_time = pos 0;
  sender_max_buffer = pos 0;
  loss_snap = 0;
  recovered_snap = 0;
  ips_last_arrival = pos 0;
  ips_min_us = pos 0;
  ips_cur_us = pos 0;
  ips_max_us = pos 0;
  buffer_time_sum = pos 0;
  buffer_time_samples = 0;
}

abbrev pub no_sender : SenderState
no_sender = record {
  ring = λ i. empty_sender_slot;
  ring_len = 0;
  mask = 0;
  started = false;
  ssrc = 0;
  next_seq = 0;
  tx_path = 0;
  data_bw = no_bitrate;
  retry_bw = no_bitrate;
}

-- The float64 constants 1000, 8 and `ristNackBytesPerSeq` of the limiter.
abbrev f1000 : ℕ
f1000 = 0x408F400000000000

abbrev f8 : ℕ
f8 = 0x4020000000000000

abbrev f4 : ℕ
f4 = 0x4010000000000000

infixl 5 ◌>>=◌
abbrev pub ◌>>=◌ {ℓ κ} : {A : Type ℓ} {B : Type κ} → Option A → (A → Option B) → Option B
none >>= f = none
some a >>= f = f a

module _ (F : Floats) where
  -- The receiver half that `New` makes, for a ring of `size` slots.
  unfoldable pub new_receiver : Config → ℕ → ReceiverState
  new_receiver cfg size =
      let bounded = ltb_ℤ (pos 0) cfg.return_max_bitrate in
      let rate = F.div (F.div (F.mul (F.of_int cfg.return_max_bitrate) f1000) f8) f4 in
      let burst = F.of_int (pos rist_max_nacks) in
      record no_receiver {
        ring_len = size;
        mask = (size - 1) % 2 ^ 32;
        ips_min_us = pos (2 ^ 63 - 1);
        nack_seqs_per_sec = if bounded then rate else 0;
        nack_token_burst = if bounded then burst else 0;
        nack_tokens = if bounded then burst else 0;
      }

  unfoldable pub new_sender : Config → ℕ → SenderState
  new_sender cfg size = record no_sender {
    ring_len = size;
    mask = (size - 1) % 2 ^ 32;
    ssrc = cfg.ssrc;
    next_seq = cfg.start_seq;
  }

  -- `New`. `none`: the size has no power of two above it that an int can hold.
  unfoldable pub new : Role → Config → Option Flow
  unfolding new_receiver new_sender
  new role cfg = do
    let wanted = if leb_ℤ cfg.ring_size (pos 0) then derive_ring_size cfg else cfg.ring_size
    let buffer = recovery_buffer_of cfg
    size ← next_pow2 (pos_part wanted)
    some (record {
      role = role;
      cfg = cfg;
      recovery_buffer = buffer;
      recovery_buffer110 = mul110 F buffer;
      missing_counter_max = derive_missing_counter_max cfg;
      max_nacks_per_loop = derive_max_nacks_per_loop cfg;
      est = Rtt.new cfg.rtt_min;
      outputs = Fifo.empty;
      events = Fifo.empty;
      stats = no_stats;
      receiver = elim role [ role_receiver ↦ new_receiver cfg size | role_sender ↦ no_receiver ];
      sender = elim role [ role_receiver ↦ no_sender | role_sender ↦ new_sender cfg size ];
    })
