-- ===== src/Ip/Transport.antt =====
-- The transport segments and the IPv4 packets that `make_frame` of cases 09 and 12 builds.
use Prim.Native.Nat.{ℕ, ◌*◌, ◌+◌, ◌/◌}
use mathlib.Core.Bool.{Bool, ◌&&◌, ◌||◌}
use mathlib.Core.List.{List, [], ◌++◌, ◌∷◌}
use p4_cases.Ip.Recalculate.{recalculate_checksum}
use p4_cases.Prelude.Lists.{drop, length, take}
use p4_cases.Prelude.Result.{Result, ok, ◌>>=◌}
use p4_cases.Prelude.Tests.{if◌then◌else◌, ◌==◌}
use p4_cases.Wire.Bytes.{byte_range, ljust}
use p4_cases.Wire.Checksum.{checksum}
use p4_cases.Wire.Pack.{pack, raw, u16, u32, u8}

-- `bytes(range(256)) * 6`
unfoldable pub filler : List ℕ
unfolding byte_range
filler = let row = byte_range 256 0 in row ++ (row ++ (row ++ (row ++ (row ++ row))))

-- the header and the payload, with a zero checksum
unfoldable pub segment : ℕ → ℕ → ℕ → ℕ → List ℕ → List ℕ → Result (List ℕ)
unfolding pack
segment protocol sport dport identification tcp_options payload =
    if protocol == 17
    then (do
      header ← pack (u16 sport ∷ u16 dport ∷ u16 (8 + length payload) ∷ u16 0 ∷ [])
      ok (header ++ payload))
    else if protocol == 6
    then (do
      header ← pack (
          u16 sport
          ∷ u16 dport
          ∷ u32 identification
          ∷ u32 0
          ∷ u8 ((5 + length tcp_options / 4) * 16)
          ∷ u8 0x18
          ∷ u16 4096
          ∷ u16 0
          ∷ u16 0
          ∷ [])
      ok (header ++ (tcp_options ++ payload)))
    else ok payload

-- `0xFFFF if protocol == 17 and value == 0`
abbrev pub checksum_value : ℕ → ℕ → ℕ
checksum_value protocol value = if protocol == 17 && value == 0 then 65535 else value

-- `offset`, where the checksum stands
abbrev pub checksum_offset : ℕ → ℕ
checksum_offset protocol = if protocol == 6 then 16 else 6

-- the segment with its checksum over the pseudo header and itself
unfoldable pub with_checksum : ℕ → List ℕ → List ℕ → List ℕ → Result (List ℕ)
unfolding pack
with_checksum protocol source target transport = do
  tail ← pack (u8 0 ∷ u8 protocol ∷ u16 (length transport) ∷ [])
  value ←
      pack
        (u16 (checksum_value protocol (checksum ((source ++ (target ++ tail)) ++ transport))) ∷ [])
  let offset = checksum_offset protocol
  ok (take offset transport ++ (value ++ drop (offset + 2) transport))

-- the transport that is built where none is given
unfoldable pub build_transport :
    ℕ → List ℕ → List ℕ → ℕ → ℕ → ℕ → List ℕ → List ℕ → Bool → Result (List ℕ)
unfolding segment with_checksum
build_transport protocol source target sport dport identification tcp_options payload udp_checksum =
    do
      transport ← segment protocol sport dport identification tcp_options payload
      (if protocol == 6 || (protocol == 17 && udp_checksum)
          then with_checksum protocol source target transport
          else ok transport)

-- `struct.pack("!BBHHHBBH4s4s", 0x45 + len(options) // 4, 0x2A, ...) + options`
unfoldable pub ipv4_header : List ℕ → ℕ → ℕ → ℕ → ℕ → ℕ → List ℕ → List ℕ → Result (List ℕ)
unfolding pack
ipv4_header options size identification flags ttl protocol source target = do
  header ← pack (
      u8 (0x45 + length options / 4)
      ∷ u8 0x2a
      ∷ u16 (20 + length options + size)
      ∷ u16 identification
      ∷ u16 flags
      ∷ u8 ttl
      ∷ u8 protocol
      ∷ u16 0
      ∷ raw 4 source
      ∷ raw 4 target
      ∷ [])
  ok (header ++ options)

-- the Ethernet header, the IPv4 header with its checksum, the transport, and padding to 60 bytes
unfoldable pub seal : List ℕ → List ℕ → List ℕ → ℕ → ℕ → ℕ → ℕ → List ℕ → List ℕ → Result (List ℕ)
unfolding ipv4_header recalculate_checksum ljust
seal ethernet options transport identification flags ttl protocol source target = do
  header ← ipv4_header options (length transport) identification flags ttl protocol source target
  frame ← recalculate_checksum (ethernet ++ (header ++ transport))
  ok (ljust 60 0 frame)
