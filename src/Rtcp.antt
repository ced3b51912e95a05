-- ===== src/Rtcp.antt =====
-- internal/rtcp: the RTCP packets of the Simple profile, their compounds, and negative acknowledgements.
pub mod Nack
pub mod Packets
pub mod Compound
pub mod Framing
pub mod Kept
