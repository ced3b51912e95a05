-- ===== src/Wire.antt =====
-- internal/wire/wire.go: what crosses between the codecs and the flow core.
use ristgo.Prelude.{ℕ, Bool, List}

pub data FragRole : Type 0 where
  frag_standalone frag_first frag_middle frag_last : FragRole

-- Sequence numbers and SSRCs are uint32, the source time is NTP-64, a payload is its bytes.
pub record MediaPacket : Type 0 where
  pub seq : ℕ
  pub source_time : ℕ
  pub ssrc : ℕ
  pub payload : List ℕ
  pub retransmit : Bool
  pub path_id : ℕ
  pub frag : FragRole
  pub virt_src_port : ℕ
  pub virt_dst_port : ℕ
  pub short_seq : Bool

-- The implementations of the interface Feedback.
pub data Feedback : Type 0 where
  nack_request : (ssrc : ℕ) (missing : List ℕ) → Feedback
  rtt_echo_request : (ssrc timestamp : ℕ) → Feedback
  rtt_echo_response : (ssrc timestamp processing_delay : ℕ) → Feedback
  sender_report : (ntp rtp_time : ℕ) → Feedback
  keepalive : Feedback
  ext_seq : (seq_high : ℕ) → Feedback
  link_quality : (lqm : List ℕ) → Feedback
  flow_attribute : (json : List ℕ) → Feedback
  peer_identity : (cname : List ℕ) → Feedback
  unsupported_control : (ci : ℕ) (head : List ℕ) → Feedback
