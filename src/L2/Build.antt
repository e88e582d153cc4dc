-- ===== src/L2/Build.antt =====
-- What `add` of the L2 cases does once it has the IPv4 packet: content, then the marked frame.
use Prim.Native.Nat.{ℕ, ◌<◌, ◌≤◌}
use mathlib.Core.List.{List}
use mathlib.Core.Path.{◌≡◌}
use native.Mathlib.Omega.{arith}
use p4_cases.L2.Content.{Builds, Kind, content, content_total, ipv4_udp-Builds, ipv6_udp-Builds}
use p4_cases.L2.Datagram.{ipv4_udp, ipv6_udp}
use p4_cases.L2.Frame.{
  IsMarker, IsWire, make_frame, make_frame_run, marked, marked-IsWire, take-ljust-marked,
}
use p4_cases.Prelude.Lists.{length, take}
use p4_cases.Prelude.Result.{Result, ok, ◌>>=◌}
use p4_cases.Wire.Bytes.{ljust}
use p4_cases.Wire.Pack.{Dotted}

module _ (limit : ℕ) (host_ip : ℕ → Result Dotted) (prefix : List ℕ) (sender receiver : ℕ) where
  unfoldable pub kind_frame : ℕ → List ℕ → List ℕ → Kind → Result (List ℕ) → Result (List ℕ)
  kind_frame identification packet destination kind arp_body = do
    (ether_type, body) ←
        content kind identification packet
          (λ ttl. ipv4_udp host_ip sender receiver identification ttl)
          (λ hop. ipv6_udp sender receiver identification hop) arp_body
    make_frame limit prefix identification destination ether_type body

  module _ (host : host_ip receiver ≡ ok (record { a = 10; b = 0; c = 0; d = receiver }))
      (s_hi : sender < 256) (r_hi : receiver < 256) (m : IsMarker prefix)
      (small : limit ≤ 4294967296) where
    pub v4-Builds :
        (identification ttl : ℕ)
        → identification < 4294967296
        → ttl < 256
        → Builds (ipv4_udp host_ip sender receiver identification ttl)
    v4-Builds identification ttl hi t =
        ipv4_udp-Builds host_ip sender receiver identification ttl host r_hi s_hi hi t

    pub v6-Builds :
        (identification hop : ℕ)
        → identification < 4294967296
        → hop < 256
        → Builds (ipv6_udp sender receiver identification hop)
    v6-Builds identification hop hi t =
        ipv6_udp-Builds sender receiver identification hop s_hi r_hi hi t

    -- The frame is built, whatever the kind, and a receiver can capture it.
    pub kind_frame-IsWire :
        (identification : ℕ) (packet destination : List ℕ) (kind : Kind)
        (arp_body : Result (List ℕ))
        → 0 < identification
        → identification < limit
        → length packet ≤ 1492
        → 11 ≤ length packet
        → length destination ≡ 6
        → Builds arp_body
        → (f : List ℕ) × (kind_frame identification packet destination kind arp_body ≡ ok f)
          × IsWire prefix f
          × (take 6 f ≡ destination)
    unfolding kind_frame
    kind_frame-IsWire id packet destination kind arp_body lo hi p_hi p_lo d a =
        let big : id < 4294967296 = omega arith in
        let (r, er, ht, hb) =
          content_total id packet (λ ttl. ipv4_udp host_ip sender receiver id ttl)
            (λ hop. ipv6_udp sender receiver id hop) arp_body big p_hi p_lo kind
            (v4-Builds id 0 big (omega arith)) (v4-Builds id 1 big (omega arith))
            (v6-Builds id 0 big (omega arith)) (v6-Builds id 64 big (omega arith)) a in
        (
          ljust 60 0xa5 (marked prefix id destination r.0 r.1),
          rw er (make_frame_run limit prefix id destination r.0 r.1 m d lo hi ht),
          marked-IsWire prefix id destination r.0 r.1 m d hb,
          take-ljust-marked prefix id destination r.0 r.1 d,
        )
