-- ===== src/Wire.antt =====
-- What every case uses of Python's `bytes`, `struct` and `ipaddress`, and the Internet checksum.
pub mod Bytes
pub mod Pack
pub mod Checksum
pub mod Crc
