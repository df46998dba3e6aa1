-- ===== src/Network.antt =====
-- The data that server and clients exchange, `Network/`.
pub mod Data
pub mod Packet
pub mod Queue
pub mod Segments
