-- ===== src/Int/Frames.antt =====
-- The hosts and paths of 06_int/packets.py, and `make_frame`.
use Prim.Native.Nat.{suc, zero, ℕ, ◌%◌, ◌+◌, ◌/◌}
use mathlib.Core.Bool.{Bool, not, ◌&&◌, ◌||◌}
use mathlib.Core.List.{List, [], ◌++◌, ◌∷◌}
use p4_cases.L2.Datagram.Ipv4.{payload}
use p4_cases.Prelude.Lists.{drop, length, take}
use p4_cases.Prelude.Result.{Result, err, key_error, ok, raise_if, value_error, ◌>>=◌, ◌>>◌}
use p4_cases.Prelude.Tests.{if◌then◌else◌, ltb, ◌==◌}
use p4_cases.Wire.Bytes.{byte_range, from_bytes}
use p4_cases.Wire.Checksum.{checksum}
use p4_cases.Wire.Checksum.Validity.{nonzero}
use p4_cases.Wire.Pack.{pack, raw, u16, u8}

-- `HOST_IPS`, packed
abbrev pub host_ip : ℕ → Result (List ℕ)
host_ip number =
    if number == 1
    then ok (10 ∷ 0 ∷ 1 ∷ 1 ∷ [])
    else if number == 2
    then ok (10 ∷ 0 ∷ 2 ∷ 2 ∷ [])
    else if number == 3
    then ok (10 ∷ 0 ∷ 3 ∷ 3 ∷ [])
    else if number == 4
    then ok (10 ∷ 0 ∷ 3 ∷ 4 ∷ [])
    else err key_error

-- `HOST_MACS`: `00000a` and the last three bytes of the address
abbrev pub host_mac : ℕ → Result (List ℕ)
host_mac number = host_ip number >>= λ ip. ok (0 ∷ 0 ∷ 10 ∷ drop 1 ip)

-- `NEXT_HOPS[switch, port]`
abbrev pub next_hops : List ((ℕ × ℕ) × List ℕ)
next_hops =
    ((1, 1), 0 ∷ 0 ∷ 10 ∷ 0 ∷ 1 ∷ 1 ∷ [])
    ∷ ((1, 2), 0 ∷ 1 ∷ 10 ∷ 0 ∷ 2 ∷ 2 ∷ [])
    ∷ ((1, 3), 0 ∷ 0 ∷ 0 ∷ 3 ∷ 1 ∷ 0 ∷ [])
    ∷ ((2, 1), 0 ∷ 0 ∷ 10 ∷ 0 ∷ 2 ∷ 2 ∷ [])
    ∷ ((2, 2), 0 ∷ 0 ∷ 0 ∷ 1 ∷ 2 ∷ 0 ∷ [])
    ∷ ((3, 1), 0 ∷ 0 ∷ 10 ∷ 0 ∷ 3 ∷ 3 ∷ [])
    ∷ ((3, 2), 0 ∷ 0 ∷ 10 ∷ 0 ∷ 3 ∷ 4 ∷ [])
    ∷ ((3, 3), 0 ∷ 0 ∷ 0 ∷ 1 ∷ 3 ∷ 0 ∷ [])
    ∷ []

-- a dictionary whose keys are pairs
unfoldable pub lookup : {A : Type 0} → List ((ℕ × ℕ) × A) → ℕ × ℕ → Result A
lookup [] (a, b) = err key_error
lookup (((x, y), value) ∷ rest) (a, b) =
    let later = lookup rest (a, b) in if x == a && y == b then ok value else later

-- `PATHS[sender, receiver]`
abbrev pub paths : List ((ℕ × ℕ) × List (ℕ × ℕ))
paths =
    ((1, 2), (1, 2) ∷ (2, 1) ∷ [])
    ∷ ((1, 3), (1, 3) ∷ (3, 1) ∷ [])
    ∷ ((1, 4), (1, 3) ∷ (3, 2) ∷ [])
    ∷ ((2, 1), (2, 2) ∷ (1, 1) ∷ [])
    ∷ ((2, 3), (2, 2) ∷ (1, 3) ∷ (3, 1) ∷ [])
    ∷ ((2, 4), (2, 2) ∷ (1, 3) ∷ (3, 2) ∷ [])
    ∷ ((3, 1), (3, 3) ∷ (1, 1) ∷ [])
    ∷ ((3, 2), (3, 3) ∷ (1, 2) ∷ (2, 1) ∷ [])
    ∷ ((3, 4), (3, 2) ∷ [])
    ∷ ((4, 1), (3, 3) ∷ (1, 1) ∷ [])
    ∷ ((4, 2), (3, 3) ∷ (1, 2) ∷ (2, 1) ∷ [])
    ∷ ((4, 3), (3, 1) ∷ [])
    ∷ []

-- the arguments of `make_frame`
pub record Request : Type 0 where
  pub source : List ℕ
  pub sender : ℕ
  pub receiver : ℕ
  pub options : List ℕ
  pub ttl : ℕ
  pub flags : ℕ
  pub payload_size : ℕ

-- the default arguments
abbrev pub request : List ℕ → ℕ → ℕ → List ℕ → Request
request source sender receiver options = record {
  source = source;
  sender = sender;
  receiver = receiver;
  options = options;
  ttl = 64;
  flags = 0;
  payload_size = 48;
}

abbrev pub bad_request : Request → Bool
bad_request r =
    not (length r.source == 4)
    || (not (length r.options % 4 == 0) || (ltb 40 (length r.options) || ltb r.payload_size 16))

-- `bytes(range(256)) * n`
unfoldable pub rows : ℕ → List ℕ
unfolding byte_range
rows zero = []
rows (suc n) = byte_range 256 0 ++ rows n

-- `b"p4-int:" + source + bytes(range(256)) * ((payload_size + 255) // 256)`, cut
unfoldable pub payload_of : List ℕ → ℕ → List ℕ
unfolding rows
payload_of source payload_size =
    take payload_size (
      0x70
      ∷ 0x34
      ∷ 0x2d
      ∷ 0x69
      ∷ 0x6e
      ∷ 0x74
      ∷ 0x3a
      ∷ (source ++ rows ((payload_size + 255) / 256)))

unfoldable pub udp_datagram : List ℕ → List ℕ → List ℕ → Result (List ℕ)
unfolding pack nonzero
udp_datagram source destination payload = do
  header ← pack (u16 4321 ∷ u16 1234 ∷ u16 (8 + length payload) ∷ u16 0 ∷ [])
  let udp = header ++ payload
  tail ← pack (u8 0 ∷ u8 17 ∷ u16 (length udp) ∷ [])
  value ← pack (u16 (nonzero (checksum ((source ++ (destination ++ tail)) ++ udp))) ∷ [])
  ok (take 6 udp ++ (value ++ drop 8 udp))

-- `source[-2:]` of four bytes is what follows the first two
unfoldable pub ipv4_header : Request → List ℕ → ℕ → Result (List ℕ)
unfolding pack from_bytes
ipv4_header r destination size = do
  front ← pack (
      u8 (0x45 + length r.options / 4)
      ∷ u8 0x2a
      ∷ u16 (20 + length r.options + size)
      ∷ u16 (from_bytes (drop 2 r.source) 0)
      ∷ u16 r.flags
      ∷ u8 r.ttl
      ∷ u8 17
      ∷ u16 0
      ∷ raw 4 r.source
      ∷ raw 4 destination
      ∷ [])
  let header = front ++ r.options
  value ← pack (u16 (checksum header) ∷ [])
  ok (take 10 header ++ (value ++ drop 12 header))

unfoldable pub make_frame : Request → Result (List ℕ)
unfolding payload_of udp_datagram ipv4_header
make_frame r = do
  raise_if (bad_request r) value_error
  destination ← host_ip r.receiver
  udp ← udp_datagram r.source destination (payload_of r.source r.payload_size)
  header ← ipv4_header r destination (length udp)
  target ← host_mac r.receiver
  own ← host_mac r.sender
  ok (target ++ (own ++ (0x08 ∷ 0x00 ∷ (header ++ udp))))
