-- ===== src/L2/Content.antt =====
-- The kinds of content that `add` puts behind the Ethernet header, with their EtherType.
use p4_cases.L2.Datagram
use Prim.Native.Nat.{bit_xor, ℕ, ◌+◌, ◌-◌, ◌<◌, ◌≤◌}
use mathlib.Core.List.{List, [], ◌++◌, ◌∷◌}
use mathlib.Core.Path.{refl, ◌≡◌}
use native.Mathlib.Omega.{arith}
use p4_cases.L2.Datagram.{ipv4_udp, ipv6_udp, labelled_payload}
use p4_cases.L2.Datagram.Ipv4.{ipv4_udp-IsIpv4Udp, labelled_payload_run, length-payload, payload}
use p4_cases.L2.Datagram.Ipv6.{ipv6_udp-IsIpv6Udp}
use p4_cases.Prelude.Lists.{
  drop, get_elem?_total, length, length-append, length-drop, length-replicate, length-take,
  replicate, take,
}
use p4_cases.Prelude.Result.{Result, ok, ◌>>=◌}
use p4_cases.Prelude.Tests.{lt→ltb}
use p4_cases.Wire.Bytes.{be32, byte_at, byte_range}
use p4_cases.Wire.Pack.{
  Dotted, Field, ipv4_packed_ok, layout, pack, raw, to_bytes4, to_bytes4_ok, u16, u8,
}

pub data Kind : Type 0 where
  opaque ipv4 ttl_zero ttl_one bad_ipv4_checksum ipv6 hop_zero arp vlan qinq empty mtu : Kind

-- `(bytes(range(256)) * 6)[:1496]`
pub mtu_filler : List ℕ
unfolding byte_range
mtu_filler =
    let row = byte_range 256 0 in take 1496 (row ++ (row ++ (row ++ (row ++ (row ++ row)))))

-- `ipv4[:10] + bytes((ipv4[10] ^ 1,)) + ipv4[11:]`
pub flip_checksum : List ℕ → Result (List ℕ)
flip_checksum packet = do
  b ← byte_at packet 10
  ok (take 10 packet ++ (bit_xor b 1 ∷ drop 11 packet))

-- the ARP packet of `add`, `struct.pack("!HHBBH6s4s6s4s", 1, 0x0800, 6, 4, operation, ...)`
unfoldable pub arp_packet : ℕ → List ℕ → List ℕ → List ℕ → List ℕ → Result (List ℕ)
unfolding pack
arp_packet operation source from target to = pack (
    u16 1
    ∷ u16 0x0800
    ∷ u8 6
    ∷ u8 4
    ∷ u16 operation
    ∷ raw 6 source
    ∷ raw 4 from
    ∷ raw 6 target
    ∷ raw 4 to
    ∷ [])

-- The if-chain of `add`. `ipv4` is the packet that `add` has built, `with_ttl` builds it anew,
-- `with_hop` builds the IPv6 packet, and `arp_body` is the case's ARP packet.
unfoldable pub content :
    Kind
    → ℕ
    → List ℕ
    → (ℕ → Result (List ℕ))
    → (ℕ → Result (List ℕ))
    → Result (List ℕ)
    → Result (ℕ × List ℕ)
unfolding to_bytes4 mtu_filler flip_checksum pack
content opaque identification packet with_ttl with_hop arp_body = do
  body ← labelled_payload identification
  ok (0x88b5, body)
content ipv4 identification packet with_ttl with_hop arp_body = ok (0x0800, packet)
content ttl_zero identification packet with_ttl with_hop arp_body = do
  body ← with_ttl 0
  ok (0x0800, body)
content ttl_one identification packet with_ttl with_hop arp_body = do
  body ← with_ttl 1
  ok (0x0800, body)
content bad_ipv4_checksum identification packet with_ttl with_hop arp_body = do
  body ← flip_checksum packet
  ok (0x0800, body)
content ipv6 identification packet with_ttl with_hop arp_body = do
  body ← with_hop 64
  ok (0x86dd, body)
content hop_zero identification packet with_ttl with_hop arp_body = do
  body ← with_hop 0
  ok (0x86dd, body)
content arp identification packet with_ttl with_hop arp_body = do body ← arp_body; ok (0x0806, body)
content vlan identification packet with_ttl with_hop arp_body = do
  tag ← pack (u16 0xa007 ∷ u16 0x0800 ∷ [])
  ok (0x8100, tag ++ packet)
content qinq identification packet with_ttl with_hop arp_body = do
  tags ← pack (u16 42 ∷ u16 0x8100 ∷ u16 7 ∷ u16 0x86dd ∷ [])
  inner ← with_hop 64
  ok (0x88a8, tags ++ inner)
content empty identification packet with_ttl with_hop arp_body = ok (0x88b5, [])
content mtu identification packet with_ttl with_hop arp_body = do
  label ← to_bytes4 identification
  ok (0x88b5, label ++ mtu_filler)

-- A packet builder that returns at most 1492 bytes.
abbrev pub Builds : Result (List ℕ) → Type 0
Builds r = (p : List ℕ) × (r ≡ ok p) × (length p ≤ 1492) × (11 ≤ length p)

length-mtu_filler : length mtu_filler ≡ 1496
unfolding mtu_filler
length-mtu_filler = refl

flip_checksum-Builds :
    (packet : List ℕ)
    → length packet ≤ 1492
    → 11 ≤ length packet
    → (p : List ℕ) × (flip_checksum packet ≡ ok p) × (length p ≤ 1492) × (11 ≤ length p)
unfolding flip_checksum
flip_checksum-Builds packet hi lo =
    let (b, e) = get_elem?_total packet 10 lo in
    let p : List ℕ = take 10 packet ++ bit_xor b 1 ∷ drop 11 packet in
    let n : length p ≡ length packet = omega (
      arith,
      length-append (take 10 packet) (bit_xor b 1 ∷ drop 11 packet),
      length-take 10 packet,
      length-drop 11 packet,
    ) in
    (p, rw e, omega arith, omega arith)

module _ (identification : ℕ) (packet : List ℕ) (with_ttl with_hop : ℕ → Result (List ℕ))
    (arp_body : Result (List ℕ)) (small : identification < 4294967296) (hi : length packet ≤ 1492)
    (lo : 11 ≤ length packet) where
  -- Whatever the kind, the content has a two-byte EtherType and at most 1500 bytes.
  pub content_total :
      (kind : Kind)
      → Builds (with_ttl 0)
      → Builds (with_ttl 1)
      → Builds (with_hop 0)
      → Builds (with_hop 64)
      → Builds arp_body
      → (r : ℕ × List ℕ) × (content kind identification packet with_ttl with_hop arp_body ≡ ok r)
        × (r.0 < 65536)
        × (length r.1 ≤ 1500)
  unfolding content
  content_total opaque t0 t1 h0 h64 a = (
    (0x88b5, payload identification),
    rw (labelled_payload_run identification small),
    omega arith,
    omega (arith, length-payload identification),
  )
  content_total ipv4 t0 t1 h0 h64 a = ((0x0800, packet), refl, omega arith, omega arith)
  content_total ttl_zero (p, e, n, m) t1 h0 h64 a = ((0x0800, p), rw e, omega arith, omega arith)
  content_total ttl_one t0 (p, e, n, m) h0 h64 a = ((0x0800, p), rw e, omega arith, omega arith)
  content_total bad_ipv4_checksum t0 t1 h0 h64 a =
      let (p, e, n, m) = flip_checksum-Builds packet hi lo in
      ((0x0800, p), rw e, omega arith, omega arith)
  content_total ipv6 t0 t1 h0 (p, e, n, m) a = ((0x86dd, p), rw e, omega arith, omega arith)
  content_total hop_zero t0 t1 (p, e, n, m) h64 a = ((0x86dd, p), rw e, omega arith, omega arith)
  content_total arp t0 t1 h0 h64 (p, e, n, m) = ((0x0806, p), rw e, omega arith, omega arith)
  content_total vlan t0 t1 h0 h64 a =
      ((0x8100, 0xa0 ∷ 0x07 ∷ 0x08 ∷ 0x00 ∷ packet), refl, omega arith, omega arith)
  content_total qinq t0 t1 h0 (p, e, n, m) a =
      ((0x88a8, 0 ∷ 42 ∷ 0x81 ∷ 0 ∷ 0 ∷ 7 ∷ 0x86 ∷ 0xdd ∷ p), rw e, omega arith, omega arith)
  content_total empty t0 t1 h0 h64 a = ((0x88b5, []), refl, omega arith, omega arith)
  content_total mtu t0 t1 h0 h64 a = (
    (0x88b5, be32 identification ++ mtu_filler),
    rw (to_bytes4_ok identification small),
    omega arith,
    omega (arith, length-mtu_filler),
  )

-- The datagrams are such builders.
pub ipv4_udp-Builds :
    (host_ip : ℕ → Result Dotted) (sender receiver identification ttl : ℕ)
    → host_ip receiver ≡ ok (record { a = 10; b = 0; c = 0; d = receiver })
    → receiver < 256
    → sender < 256
    → identification < 4294967296
    → ttl < 256
    → Builds (Datagram.ipv4_udp host_ip sender receiver identification ttl)
ipv4_udp-Builds host_ip sender receiver identification ttl host hr hs hi ht =
    let (p, e, v, n, t) =
      ipv4_udp-IsIpv4Udp host_ip sender receiver identification ttl 10 0 0 receiver host
        (ipv4_packed_ok 10 0 0 receiver (omega arith) (omega arith) (omega arith) hr) hs hi ht in
    (p, e, omega arith, omega arith)

pub ipv6_udp-Builds :
    (sender receiver identification hop_limit : ℕ)
    → sender < 256
    → receiver < 256
    → identification < 4294967296
    → hop_limit < 256
    → Builds (Datagram.ipv6_udp sender receiver identification hop_limit)
ipv6_udp-Builds sender receiver identification hop_limit hs hr hi ht =
    let (p, e, v, n, t) =
      ipv6_udp-IsIpv6Udp sender receiver identification hop_limit (omega arith) (omega arith) hi
        ht in
    (p, e, omega arith, omega arith)

-- An item of a fixed width has that width, whatever the bytes.
layout-raw :
    (n : ℕ) (bs : List ℕ) (fs : List Field)
    → length (layout (raw n bs ∷ fs)) ≡ n + length (layout fs)
layout-raw n bs fs = omega (
  arith,
  length-append (take n bs) (replicate (n - length bs) 0 ++ layout fs),
  length-append (replicate (n - length bs) 0) (layout fs),
  length-take n bs,
  length-replicate {A = ℕ} (n - length bs) 0,
)

pub arp_packet-Builds :
    (operation : ℕ) (source from target to : List ℕ)
    → operation < 65536
    → Builds (arp_packet operation source from target to)
unfolding arp_packet
arp_packet-Builds operation source from target to h =
    let body : List Field = raw 6 source ∷ raw 4 from ∷ raw 6 target ∷ raw 4 to ∷ [] in
    let n : length (layout body) ≡ 20 = omega (
      arith,
      layout-raw 6 source (raw 4 from ∷ raw 6 target ∷ raw 4 to ∷ []),
      layout-raw 4 from (raw 6 target ∷ raw 4 to ∷ []),
      layout-raw 6 target (raw 4 to ∷ []),
      layout-raw 4 to [],
    ) in
    (
      layout (u16 1 ∷ u16 0x0800 ∷ u8 6 ∷ u8 4 ∷ u16 operation ∷ body),
      rw (lt→ltb _ _ h),
      omega arith,
      omega arith,
    )
