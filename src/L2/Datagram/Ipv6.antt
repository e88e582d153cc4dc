-- ===== src/L2/Datagram/Ipv6.antt =====
-- An IPv6 datagram of `ipv6_udp` validates: its UDP checksum and its lengths.
-- What a receiver checks of an IPv6 packet `p` that carries UDP and no extension headers.
use Prim.Native.Nat.{ℕ, ◌%◌, ◌+◌, ◌<◌}
use mathlib.Core.List.{List, [], ◌++◌, ◌∷◌}
use mathlib.Core.Logic.{◌≢◌}
use mathlib.Core.Option.{some}
use mathlib.Core.Path.{refl, ◌≡◌}
use native.Mathlib.Omega.{arith}
use p4_cases.L2.Datagram.{ipv6_udp}
use p4_cases.L2.Datagram.Ipv4.{payload, udp_start}
use p4_cases.Prelude.Lists.{drop, get_elem?, length, replicate}
use p4_cases.Prelude.Result.{ok}
use p4_cases.Prelude.Tests.{label_fits, lt→ltb}
use p4_cases.Wire.Bytes.{be16, be32, from_bytes, slice}
use p4_cases.Wire.Checksum.{checksum}
use p4_cases.Wire.Checksum.Validity.{checksum-nonzero, nonzero, nonzero_fits}

pub record IsIpv6Udp (p : List ℕ) : Type 0 where
  pub payload_length : from_bytes (slice 4 6 p) 0 ≡ length (drop 40 p)
  pub udp_length : from_bytes (slice 44 46 p) 0 ≡ length (drop 40 p)
  pub sent : slice 46 48 p ≢ be16 0
  pub udp_valid :
      checksum (slice 8 40 p ++ (0 ∷ 0 ∷ (slice 4 6 p ++ (0 ∷ 0 ∷ 0 ∷ 17 ∷ drop 40 p)))) ≡ 0

nonzero_sent : (v : ℕ) → be16 (nonzero v) ≢ be16 0
unfolding nonzero
nonzero_sent v e = ground arith

module _ (sender receiver identification hop_limit : ℕ) where
  abbrev source : List ℕ
  source = be16 0x2001 ++ (be16 0x0db8 ++ (be16 0xff00 ++ (replicate 8 0 ++ be16 sender)))

  abbrev destination : List ℕ
  destination = be16 0x2001 ++ (be16 0x0db8 ++ (be16 0 ++ (replicate 8 0 ++ be16 receiver)))

  abbrev pseudo : List ℕ
  pseudo = source ++ (destination ++ (be32 41 ++ (0 ∷ 0 ∷ 0 ∷ 17 ∷ [])))

  abbrev udp_value : ℕ
  udp_value = nonzero (checksum ((pseudo ++ udp_start) ++ (be16 0 ++ payload identification)))

  pub datagram : List ℕ
  datagram =
      (be32 (1654652928 + identification % 1048576)
        ++ (be16 41 ++ (17 ∷ hop_limit ∷ (source ++ destination))))
      ++ (udp_start ++ (be16 udp_value ++ payload identification))

  datagram-IsIpv6Udp : IsIpv6Udp datagram
  unfolding datagram payload from_bytes
  datagram-IsIpv6Udp = record {
    payload_length = refl;
    udp_length = refl;
    sent = nonzero_sent (checksum ((pseudo ++ udp_start) ++ (be16 0 ++ payload identification)));
    udp_valid = checksum-nonzero (pseudo ++ udp_start) (payload identification) refl;
  }

  pub ipv6_udp_run :
      sender < 65536
      → receiver < 65536
      → identification < 4294967296
      → hop_limit < 256
      → ipv6_udp sender receiver identification hop_limit ≡ ok datagram
  unfolding ipv6_udp datagram payload
  ipv6_udp_run hs hr hi ht =
      rw (lt→ltb _ _ hs, lt→ltb _ _ hr, lt→ltb _ _ hi, nonzero_fits, label_fits, lt→ltb _ _ ht)

-- `ipv6_udp` returns a packet of 81 bytes whose lengths and whose UDP checksum, which is not sent as
-- zero, a receiver accepts, with the given hop limit, for host numbers below 2 ^ 16, an identification below 2 ^ 32 and a hop
-- limit below 256.
pub ipv6_udp-IsIpv6Udp :
    (sender receiver identification hop_limit : ℕ)
    → sender < 65536
    → receiver < 65536
    → identification < 4294967296
    → hop_limit < 256
    → (p : List ℕ) × (ipv6_udp sender receiver identification hop_limit ≡ ok p)
      × IsIpv6Udp p
      × (length p ≡ 81)
      × (get_elem? p 7 ≡ some hop_limit)
ipv6_udp-IsIpv6Udp sender receiver identification hop_limit hs hr hi ht = (
  datagram sender receiver identification hop_limit,
  ipv6_udp_run sender receiver identification hop_limit hs hr hi ht,
  datagram-IsIpv6Udp sender receiver identification hop_limit,
  unfold datagram payload in refl,
  unfold datagram payload in refl,
)
