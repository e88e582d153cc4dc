-- ===== src/Lpm.antt =====
-- 14_ipv6_lpm/packets.py: the IPv6 routes of the case and the forwarded frame. The text of an address
-- is modelled by its sixteen bytes, and a host `h{n}` by its number n.
pub mod Longest
pub mod Hop
pub mod Frames
pub mod Built
pub mod Packets
pub mod Probes
pub mod Run
use Prim.Native.Nat.{ℕ}
use mathlib.Core.Bool.{Bool, not, ◌&&◌, ◌||◌}
use mathlib.Core.List.{List, [], ◌++◌, ◌∷◌}
use mathlib.Core.Option.{Option, none, some}
use p4_cases.Ip.Forward.{next_hop}
use p4_cases.L2.Hosts.{mac}
use p4_cases.Prelude.Lists.{length, replicate, take}
use p4_cases.Prelude.Result.{Result, raise_if, value_error, ◌>>=◌, ◌>>◌}
use p4_cases.Prelude.Tests.{if◌then◌else◌, leb, ltb}
use p4_cases.Wire.Bytes.{byte_at, bytes_eq}

-- the first eight bytes of the network `2001:db8:{number}::/64`
abbrev pub network : ℕ → List ℕ
network number = 0x20 ∷ 0x01 ∷ 0x0d ∷ 0xb8 ∷ 0 ∷ number ∷ 0 ∷ 0 ∷ []

-- `2001:db8:3::42`
abbrev pub host_route : List ℕ
host_route = network 3 ++ (replicate 7 0 ++ (0x42 ∷ []))

-- `(number, subnet)` of `SUBNETS.items()`
abbrev pub subnets : List (ℕ × List ℕ)
subnets = (1, network 1) ∷ (2, network 2) ∷ (3, network 3) ∷ []

-- the first entry whose subnet has the address
unfoldable pub first_subnet : List ℕ → List (ℕ × List ℕ) → Option ℕ
unfolding bytes_eq
first_subnet address [] = none
first_subnet address ((number, subnet) ∷ rest) =
    let later = first_subnet address rest in
    if bytes_eq (take 8 address) subnet then some number else later

unfoldable pub expected_host : List ℕ → Option ℕ
unfolding first_subnet bytes_eq
expected_host address = if bytes_eq address host_route then some 2 else first_subnet address subnets

-- the guard of `expected_frame`, for a frame of at least 54 bytes
abbrev pub is_host : ℕ → Bool
is_host receiver = leb 1 receiver && leb receiver 3

unfoldable pub expected_frame : List ℕ → ℕ → Result (List ℕ)
unfolding next_hop
expected_frame frame receiver = do
  raise_if (not (is_host receiver) || ltb (length frame) 54) value_error
  hops ← byte_at frame 21
  raise_if (leb hops 1) value_error
  next_hop (mac receiver) 21 frame
