-- ===== src/Flow.antt =====
-- internal/flow: the deterministic core of one RIST flow, without I/O.
pub mod Fifo
pub mod Effects
pub mod Config
pub mod Congestion
pub mod State
pub mod Receiver
pub mod Missing
pub mod Nacks
pub mod Playout
pub mod Sender
pub mod Api
pub mod Invariant
pub mod Reach
pub mod Tests
