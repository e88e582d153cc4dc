-- ===== src/Ecmp.antt =====
-- 09_ecmp_hash/packets.py: the hash of a flow and the routed frame. A host `h{n}` is modelled by its
-- number n.
pub mod Routed
pub mod Affinity
pub mod Frames
pub mod Built
pub mod Probes
pub mod Run
use Prim.Native.Nat.{ℕ, ◌%◌, ◌+◌}
use mathlib.Core.Bool.{Bool, not, ◌&&◌, ◌||◌}
use mathlib.Core.List.{List, [], ◌++◌, ◌∷◌}
use mathlib.Core.Option.{Option, none, some}
use p4_cases.Ip.Forward.{next_hop}
use p4_cases.Ip.Recalculate.{ihl_bytes, recalculate_checksum}
use p4_cases.L2.Hosts.{mac}
use p4_cases.Prelude.Lists.{length, replicate, take}
use p4_cases.Prelude.Result.{
  Result, err, key_error, ok, raise_if, runtime_error, value_error, ◌>>=◌, ◌>>◌,
}
use p4_cases.Prelude.Tests.{if◌then◌else◌, leb, ltb, ◌==◌}
use p4_cases.Wire.Bytes.{byte_at, bytes_eq, from_bytes, slice}
use p4_cases.Wire.Crc.{crc16}

-- `int.from_bytes(frame[20:22], "big") & 0x3FFF == 0`
abbrev pub unfragmented : List ℕ → Bool
unfragmented frame = from_bytes (slice 20 22 frame) 0 % 16384 == 0

-- the protocols with ports
abbrev pub has_ports : ℕ → Bool
has_ports protocol = protocol == 6 || protocol == 17

-- the four bytes after the IPv4 header
unfoldable pub read_ports : List ℕ → Result (List ℕ)
read_ports frame = do
  b ← byte_at frame 14
  let start = 14 + ihl_bytes b
  ok (slice start (start + 4) frame)

-- the variable `ports`
unfoldable pub ports_of : List ℕ → Result (List ℕ)
unfolding read_ports from_bytes
ports_of frame =
    if unfragmented frame
    then (do
      protocol ← byte_at frame 23
      if has_ports protocol then read_ports frame else ok (replicate 4 0))
    else ok (replicate 4 0)

unfoldable pub hash_input : List ℕ → Result (List ℕ)
unfolding ports_of
hash_input frame = do ports ← ports_of frame; ok (slice 26 34 frame ++ (slice 23 24 frame ++ ports))

-- the loop over `HOST_MACS`: the host that has the address `10.0.0.{number}`
unfoldable pub direct_host : List ℕ → List ℕ → Option ℕ
unfolding bytes_eq
direct_host destination [] = none
direct_host destination (number ∷ numbers) =
    let later = direct_host destination numbers in
    if bytes_eq destination (10 ∷ 0 ∷ 0 ∷ number ∷ []) then some number else later

-- the case of an address without a host of its own
unfoldable pub hashed_host : List ℕ → List ℕ → Result ℕ
unfolding hash_input crc16 bytes_eq
hashed_host frame destination =
    if bytes_eq (take 3 destination) (10 ∷ 0 ∷ 0 ∷ [])
    then (do input ← hash_input frame; ok (2 + crc16 input % 2))
    else err runtime_error

-- the loop has returned, or the code after it runs
abbrev pub direct_or : Option ℕ → Result ℕ → Result ℕ
direct_or (some number) otherwise = ok number
direct_or none otherwise = otherwise

-- `IPv4Address` of other than four bytes raises an `AddressValueError`, which is a `ValueError`
unfoldable pub expected_host : List ℕ → Result ℕ
unfolding direct_host hashed_host
expected_host frame = do
  let destination = slice 30 34 frame
  raise_if (not (length destination == 4)) value_error
  direct_or (direct_host destination (1 ∷ 2 ∷ 3 ∷ [])) (hashed_host frame destination)

-- `HOST_MACS[number]`
unfoldable pub host_macs : ℕ → Result (List ℕ)
host_macs number = if leb 1 number && leb number 3 then ok (mac number) else err key_error

-- `expected_host(sent) if host is None else host`
abbrev pub host_or_expected : Option ℕ → List ℕ → Result ℕ
host_or_expected none sent = expected_host sent
host_or_expected (some host) sent = ok host

unfoldable pub expected_frame : List ℕ → Option ℕ → Result (List ℕ)
unfolding expected_host host_macs next_hop recalculate_checksum
expected_frame sent host = do
  number ← host_or_expected host sent
  target ← host_macs number
  moved ← next_hop target 22 sent
  recalculate_checksum moved

unfoldable pub check_forwarded : List ℕ → List ℕ → ℕ → Result (Unit {0})
unfolding expected_frame bytes_eq
check_forwarded sent received host = do
  expected ← expected_frame sent (some host)
  raise_if (not (bytes_eq received expected)) runtime_error

-- `isinstance(frame, bytes)` holds by typing
unfoldable pub identity : List ℕ → Result (List ℕ)
identity frame = do
  raise_if (ltb (length frame) 30) runtime_error
  ok (slice 18 22 frame ++ slice 26 30 frame)
