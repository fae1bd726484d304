-- ===== src/Disco.antt =====
-- The disco package: peers discover by encrypted pings which of their addresses reach one another.
pub mod Packet
pub mod Pktmgr
pub mod Ticker
pub mod Endpoint
pub mod Peer
pub mod Hub
pub mod Watch
