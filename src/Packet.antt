-- ===== src/Packet.antt =====
-- packet.rs: packets are cut out of the bytes that a socket yields, and written to it, by two state
-- machines that never block.
pub mod Socket
pub mod Reader
pub mod Writer
pub mod Parse
