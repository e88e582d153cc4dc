-- ===== src/Ip.antt =====
-- What the packets.py of the IPv4 cases 06, 09 and 12 have in common.
pub mod Recalculate
pub mod Renewed
pub mod Forward
pub mod Transport
pub mod Sealed
pub mod Segments
pub mod Built
pub mod Changes
