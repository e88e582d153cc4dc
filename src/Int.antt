-- ===== src/Int.antt =====
-- 06_int/packets.py: IPv4 packets with in-band telemetry in their options.
pub mod Options
pub mod RoundTrip
pub mod Parse
pub mod Frames
pub mod Forwarded
pub mod Probes
pub mod Words
pub mod Parsed
pub mod Rebuilt
pub mod Routed
