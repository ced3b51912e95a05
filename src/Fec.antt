-- ===== src/Fec.antt =====
-- internal/fec: forward error correction by exclusive or over a matrix of packets. The parts: the two packet headers,
-- the group that both ends accumulate, the encoder and the decoder; Recovery shows what the decoder recovers.
pub mod Header
pub mod Group
pub mod Encoder
pub mod Decoder
pub mod Sums
pub mod Recovery
pub mod Rounds
mod Tests
