-- ===== src/L2.antt =====
-- What the packets.py of the four L2 cases (01 to 04) have in common, word for word: UDP datagrams
-- over IPv4 and IPv6, marked frames, the kinds of content, and the loops that collect probes.
pub mod Datagram
pub mod Frame
pub mod Content
pub mod Collect
pub mod Build
pub mod Hosts
