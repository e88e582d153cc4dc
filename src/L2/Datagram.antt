-- ===== src/L2/Datagram.antt =====
-- `ipv4_udp` and `ipv6_udp`. The four files differ in `host_ip`, which is a parameter here.
-- `identification.to_bytes(4, "big") + bytes(range(29))`
pub mod Ipv4
pub mod Ipv6
use Prim.Native.Nat.{ℕ, ◌%◌, ◌*◌, ◌+◌}
use mathlib.Core.List.{List, [], ◌++◌, ◌∷◌}
use p4_cases.Prelude.Lists.{drop, length, take}
use p4_cases.Prelude.Result.{Result, ok, ◌>>=◌}
use p4_cases.Wire.Bytes.{byte_range}
use p4_cases.Wire.Checksum.{checksum}
use p4_cases.Wire.Checksum.Validity.{nonzero}
use p4_cases.Wire.Pack.{
  Dotted, dotted_packed, ipv4_packed, ipv6_packed, pack, pad, raw, to_bytes4, u16, u32, u8,
}

unfoldable pub labelled_payload : ℕ → Result (List ℕ)
unfolding to_bytes4 byte_range
labelled_payload identification = do label ← to_bytes4 identification; ok (label ++ byte_range 29 0)

-- `struct.pack("!HHHH", 1111, 2222, 8 + len(payload), 0) + payload`
unfoldable pub udp_segment : List ℕ → Result (List ℕ)
unfolding pack
udp_segment payload = do
  header ← pack (u16 1111 ∷ u16 2222 ∷ u16 (8 + length payload) ∷ u16 0 ∷ [])
  ok (header ++ payload)

-- the UDP segment with its checksum over the pseudo header and itself
unfoldable pub udp_checksummed : List ℕ → List ℕ → Result (List ℕ)
unfolding pack
udp_checksummed pseudo udp = do
  value ← pack (u16 (nonzero (checksum (pseudo ++ udp))) ∷ [])
  ok (take 6 udp ++ (value ++ drop 8 udp))

unfoldable pub ipv4_udp : (ℕ → Result Dotted) → ℕ → ℕ → ℕ → ℕ → Result (List ℕ)
unfolding ipv4_packed dotted_packed pack labelled_payload udp_segment udp_checksummed
ipv4_udp host_ip sender receiver identification ttl = do
  source ← ipv4_packed 198 18 0 sender
  address ← host_ip receiver
  destination ← dotted_packed address
  payload ← labelled_payload identification
  udp0 ← udp_segment payload
  pseudo_tail ← pack (u8 0 ∷ u8 17 ∷ u16 (length udp0) ∷ [])
  udp ← udp_checksummed (source ++ (destination ++ pseudo_tail)) udp0
  header ← pack (
      u8 0x45
      ∷ u8 0x2a
      ∷ u16 (20 + length udp)
      ∷ u16 (identification % 65536)
      ∷ u16 0x4000
      ∷ u8 ttl
      ∷ u8 17
      ∷ u16 0
      ∷ raw 4 source
      ∷ raw 4 destination
      ∷ [])
  value ← pack (u16 (checksum header) ∷ [])
  ok ((take 10 header ++ (value ++ drop 12 header)) ++ udp)

-- `(6 << 28) | (0x2A << 20) | (identification & 0xFFFFF)` has disjoint bits, so it is a sum
unfoldable pub ipv6_udp : ℕ → ℕ → ℕ → ℕ → Result (List ℕ)
unfolding ipv6_packed pack labelled_payload udp_segment udp_checksummed
ipv6_udp sender receiver identification hop_limit = do
  source ← ipv6_packed 0x2001 0x0db8 0xff00 sender
  destination ← ipv6_packed 0x2001 0x0db8 0 receiver
  payload ← labelled_payload identification
  udp0 ← udp_segment payload
  pseudo_tail ← pack (u32 (length udp0) ∷ pad 3 ∷ u8 17 ∷ [])
  udp ← udp_checksummed (source ++ (destination ++ pseudo_tail)) udp0
  header ← pack (
      u32 (6 * 268435456 + 0x2a * 1048576 + identification % 1048576)
      ∷ u16 (length udp)
      ∷ u8 17
      ∷ u8 hop_limit
      ∷ raw 16 source
      ∷ raw 16 destination
      ∷ [])
  ok (header ++ udp)
