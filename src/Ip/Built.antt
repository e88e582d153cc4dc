-- ===== src/Ip/Built.antt =====
-- The transport of either protocol, and the addresses of cases 09 and 12.
use Prim.Native.Nat.{ℕ, ◌<◌, ◌≤◌}
use mathlib.Core.Bool.{Bool, true}
use mathlib.Core.List.{List, [], ◌∷◌}
use mathlib.Core.Logic.{inl, inr, ◌⊎◌}
use mathlib.Core.Path.{refl, ◌≡◌}
use native.Mathlib.Omega.{arith}
use p4_cases.Ip.Segments.{IsTcp, IsUdp, build_transport-IsTcp, build_transport-IsUdp}
use p4_cases.Ip.Transport.{build_transport, filler}
use p4_cases.Prelude.Lists.{length}
use p4_cases.Prelude.Result.{ok}
use p4_cases.Wire.Bytes.{byte_range}
use p4_cases.Wire.Pack.{Dotted, dotted_packed, ipv4_packed_ok}

-- The transport is a segment of the protocol with the payload.
pub data IsSegment (protocol : ℕ) (source target tcp_options payload : List ℕ)
    (sport dport number : ℕ) (t : List ℕ) : Type 0 where
  udp :
      protocol ≡ 17
      → IsUdp source target payload sport dport t
      → IsSegment protocol source target tcp_options payload sport dport number t
  tcp :
      protocol ≡ 6
      → IsTcp source target tcp_options payload sport dport number t
      → IsSegment protocol source target tcp_options payload sport dport number t

-- A TCP segment, or a UDP datagram with a checksum, is built.
pub build_transport-IsSegment :
    (protocol : ℕ) (source target tcp_options payload : List ℕ) (sport dport number : ℕ)
    (udp_checksum : Bool)
    → (protocol ≡ 6) ⊎ ((protocol ≡ 17) × (udp_checksum ≡ true))
    → length source ≡ 4
    → length target ≡ 4
    → (sport < 65536) × (dport < 65536) × (number < 4294967296)
    → length tcp_options ≤ 40
    → length payload ≤ 1472
    → (t : List ℕ) × (build_transport protocol source target sport dport number tcp_options payload
          udp_checksum
        ≡ ok t)
      × IsSegment protocol source target tcp_options payload sport dport number t
      × (length t ≤ 1532)
build_transport-IsSegment protocol source target tcp_options payload sport dport number udp_checksum
      kind hs ht (hsp, hdp, hn) ho h =
    elim kind [
      | inl p ↦
          let (t, run, g) =
            build_transport-IsTcp source target payload tcp_options sport dport number hs ht hsp hdp
              udp_checksum hn ho (omega arith) in
          (t, rw p run, tcp p g, omega (arith, g.size))
      | inr (p, c) ↦
          let (t, run, g) =
            build_transport-IsUdp source target payload tcp_options sport dport number hs ht hsp hdp
              (omega arith) tcp_options in
          (t, rw (p, c) run, udp p g, omega (arith, g.size))
    ]

pub length-filler : length filler ≡ 1536
unfolding filler byte_range
length-filler = refl

-- The four bytes of an address.
abbrev pub address_bytes : Dotted → List ℕ
address_bytes ip = ip.a ∷ ip.b ∷ ip.c ∷ ip.d ∷ []

-- The address fits its bytes.
abbrev pub IsAddress : Dotted → Type 0
IsAddress ip = (ip.a < 256) × (ip.b < 256) × (ip.c < 256) × (ip.d < 256)

pub dotted_packed-IsAddress :
    (ip : Dotted) → IsAddress ip → dotted_packed ip ≡ ok (address_bytes ip)
unfolding dotted_packed
dotted_packed-IsAddress ip (a, b, c, d) = ipv4_packed_ok _ _ _ _ a b c d
