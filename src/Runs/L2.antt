-- ===== src/Runs/L2.antt =====
-- The datagrams of one pair of hosts.
use Prim.Native.Nat.{ℕ}
use mathlib.Core.List.{List}
use mathlib.Core.Option.{some}
use mathlib.Core.Path.{refl, ◌≡◌}
use native.Mathlib.Omega.{arith}
use p4_cases.L2.Datagram.{ipv4_udp, ipv6_udp}
use p4_cases.L2.Datagram.Ipv4.{IsIpv4Udp, ipv4_udp-IsIpv4Udp}
use p4_cases.L2.Datagram.Ipv6.{IsIpv6Udp, ipv6_udp-IsIpv6Udp}
use p4_cases.Prelude.Lists.{get_elem?, length}
use p4_cases.Prelude.Result.{Result, ok}
use p4_cases.Wire.Pack.{Dotted, ipv4_packed_ok}

abbrev address_of : ℕ → Result Dotted
address_of n = ok (record { a = 10; b = 0; c = 0; d = n })

ipv4_udp-IsIpv4Udp_example :
    (p : List ℕ) × (ipv4_udp address_of 1 2 7 64 ≡ ok p)
    × IsIpv4Udp p
    × (length p ≡ 61)
    × (get_elem? p 8 ≡ some 64)
ipv4_udp-IsIpv4Udp_example =
    ipv4_udp-IsIpv4Udp address_of 1 2 7 64 10 0 0 2 refl
      (ipv4_packed_ok 10 0 0 2 (omega arith) (omega arith) (omega arith) (omega arith))
      (omega arith) (omega arith) (omega arith)

ipv6_udp-IsIpv6Udp_example :
    (p : List ℕ) × (ipv6_udp 1 2 7 64 ≡ ok p)
    × IsIpv6Udp p
    × (length p ≡ 81)
    × (get_elem? p 7 ≡ some 64)
ipv6_udp-IsIpv6Udp_example =
    ipv6_udp-IsIpv6Udp 1 2 7 64 (omega arith) (omega arith) (omega arith) (omega arith)
