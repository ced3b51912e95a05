-- ===== src/Lib.antt =====
-- A model of ristgo, an implementation of the RIST protocol in Go, with its correctness theorems.
--
-- A RIST session receives datagrams on one or more paths, turns them into typed values
-- (internal/wire/wire.go) and gives these, with the current time, to a deterministic core
-- (internal/flow) that does no I/O. The core buffers packets in a ring, asks for the missing ones,
-- and hands packets on in order at their playout time; on the sending side it numbers and
-- remembers packets and answers such requests. It leaves its outputs and events in two queues that
-- the session polls. The development models this core whole, with what it rests on.
--
-- Which file models what:
--   Seq: internal/seq/seq.go, circular sequence numbers of 16 and 32 bits, as one model over the
--     width.
--   Clock: internal/clock/timestamp.go and internal/clock/ntp.go.
--   Rtt: internal/rtt/rtt.go, the moving average of round trips.
--   Replay: internal/dtls/replay.go, the window of 64 record numbers.
--   Split: internal/split/split.go, SplitPoint, SplitPayload and the Merger.
--   Wire: internal/wire/wire.go, MediaPacket and the implementations of Feedback.
--   Rtcp.Nack: internal/rtcp/nack.go, both forms of NACK between their records and sequences.
--   Rtcp.Packets: the packets of internal/rtcp between values and bytes, with those of nack.go.
--   Rtcp.Compound: internal/rtcp/compound.go.
--   Bonding: internal/bonding/bonding.go, the group of paths of a bonded flow.
--   Gre, Gre.Keepalive: internal/gre/gre.go and internal/gre/keepalive.go.
--   Npd: internal/npd/npd.go, null packet deletion.
--   Rtp: internal/rtp/rtp.go and internal/rtp/ssrc.go.
--   Fec.Header, Fec.Group, Fec.Encoder, Fec.Decoder: internal/fec, forward error correction by
--     exclusive or.
--   Adapt: internal/adapt/control.go and internal/adapt/lqm.go, the loss-driven bit rate.
--   Reassembly: internal/session/reassembler.go.
--   Peer: internal/peer/peer.go.
--   Flow.Effects, Flow.Config, Flow.Congestion: internal/flow/effects.go, the configuration in
--     internal/flow/flow.go, and internal/flow/congestion.go.
--   Flow.Fifo: fifo in internal/flow/flow.go.
--   Flow.State: receiverState, senderState and Flow, and New.
--   Flow.Receiver: feed in internal/flow/receiver.go, as the functions for its parts in their
--     order, with start, resetReceiver and SetSenderMaxBuffer.
--   Flow.Missing: markMissing, addMissing and scheduleNack.
--   Flow.Nacks: processNacks and the return-bandwidth limiter.
--   Flow.Playout: deliverDue, emitDeliver, skipTo, armPlayout and disarmPlayout.
--   Flow.Sender: internal/flow/sender.go.
--   Flow.Api: the public methods of Flow, HandleTimer and autoScaleBuffer.
--   Flow.Invariant, Flow.Reach: the receiver's invariant and the sequences of calls of a flow.
-- The modules below each of these hold its proofs and, in Tests, its runs at concrete inputs.
--
-- How the code is modelled. A method that changes its receiver is a function from state to state,
-- with the arguments of the method before it. A ring is a function on indices with its size and
-- mask. The linked list of missing entries is a list. Unsigned integers are natural numbers with
-- the wrap-around written out; an int64 is an integer and wraps by add64, sub64 and mul64.
-- Sequence numbers, SSRCs and ports are given within their widths. A float64 is its bit pattern,
-- and the operations on it are a parameter, Floats, of which nothing is assumed; the constants are
-- written as their patterns, in Adapt as quotients of whole numbers. Payload bytes are shared and
-- never changed by the core, so payloads are values.
--
-- Bounds and fuel. The loop of deliverDue runs on fuel of (ring size + 1) * 2^32: a delivery empties
-- one of the slots of the ring, and a skip shortens the distance to the newest sequence, which is
-- at most 2^31; the theorem on deliver_due shows that the fuel is enough. The loop of markMissing
-- runs for as many rounds as the gap. The loop of nextPow2 runs 63 rounds, as many as an int has
-- bits for powers of two; New is none where they do not suffice, where the code would loop. It
-- keeps the mask in 32 bits, as the code does, so what is stated of the flows that it leads to is
-- for rings of at most 2^32 slots.
--
-- The FEC decoder's rounds run on fuel of one more than its groups, since every round that goes on
-- closes one; the loop over a compound on fuel of more than its bytes, since every packet takes
-- some; the loop of bitsSet on 8 rounds for at most 7 bits.
--
-- Byte slices are lists of numbers, read with Prelude.Bytes. A method that appends to a slice
-- returns the slice, or an error with the slice as it was. Bits that the code sets one by one with
-- `|=` are added, where they are distinct. The FEC decoder's map of media is an association list.
-- Addresses of the package netip are a parameter of Peer.
--
-- Not modelled: sessions, sockets and the public API (goroutines and I/O around the parts above),
-- the Advanced profile's framing, LPC compression, EAP and all else that rests on cryptography. The
-- gauges that Stats computes on reading are left out of the counters.
pub mod Prelude
pub mod Seq
pub mod Clock
pub mod Rtt
pub mod Replay
pub mod Split
pub mod Wire
pub mod Rtcp
pub mod Flow
pub mod Bonding
pub mod Gre
pub mod Npd
pub mod Rtp
pub mod Fec
pub mod Adapt
pub mod Reassembly
pub mod Peer
