-- ===== src/Reassembler.antt =====
-- collector/reassembler.c: rebuilding IP datagrams from fragments and SIP messages from TCP segments.
pub mod Fragment
pub mod IpStreams
pub mod Seq
pub mod Sip
pub mod Segment
pub mod NextMessage
pub mod TcpStreams
