-- ===== src/L2/Datagram/Ipv4.antt =====
-- An IPv4 datagram of `ipv4_udp` validates: its header checksum, its UDP checksum, its lengths.
-- What a receiver checks of an IPv4 packet `p` that carries UDP and no options.
use Prim.Native.Nat.{ℕ, ◌%◌, ◌<◌}
use mathlib.Core.List.{List, [], ◌++◌, ◌∷◌}
use mathlib.Core.Option.{some}
use mathlib.Core.Path.{refl, ◌≡◌}
use p4_cases.L2.Datagram.{ipv4_udp, labelled_payload}
use p4_cases.Prelude.Lists.{drop, get_elem?, length, take}
use p4_cases.Prelude.Result.{Result, ok}
use p4_cases.Prelude.Tests.{low16_fits, lt→ltb}
use p4_cases.Wire.Bytes.{be16, be32, byte_range, from_bytes, slice}
use p4_cases.Wire.Checksum.{checksum}
use p4_cases.Wire.Checksum.Validity.{
  checksum-checksum, checksum-nonzero, checksum_fits, nonzero, nonzero_fits,
}
use p4_cases.Wire.Pack.{Dotted, ipv4_packed}

pub record IsIpv4Udp (p : List ℕ) : Type 0 where
  pub total : from_bytes (slice 2 4 p) 0 ≡ length p
  pub header_valid : checksum (take 20 p) ≡ 0
  pub udp_length : from_bytes (slice 24 26 p) 0 ≡ length (drop 20 p)
  pub udp_valid : checksum (slice 12 20 p ++ (0 ∷ 17 ∷ (slice 24 26 p ++ drop 20 p))) ≡ 0

-- The parts of the datagram: what precedes and follows each checksum field.
abbrev pub udp_start : List ℕ
udp_start = be16 1111 ++ (be16 2222 ++ be16 41)

unfoldable pub payload : ℕ → List ℕ
unfolding byte_range
payload identification = be32 identification ++ byte_range 29 0

pub labelled_payload_run :
    (identification : ℕ)
    → identification < 4294967296
    → labelled_payload identification ≡ ok (payload identification)
unfolding labelled_payload payload
labelled_payload_run identification h = rw (lt→ltb _ _ h)

pub length-payload : (identification : ℕ) → length (payload identification) ≡ 33
unfolding payload
length-payload identification = refl

module _ (sender identification ttl a b c d : ℕ) where
  abbrev addresses : List ℕ
  addresses = 198 ∷ 18 ∷ 0 ∷ sender ∷ a ∷ b ∷ c ∷ d ∷ []

  abbrev pseudo : List ℕ
  pseudo = addresses ++ (0 ∷ 17 ∷ be16 41)

  abbrev header_start : List ℕ
  header_start =
      0x45 ∷ 0x2a ∷ (be16 61 ++ (be16 (identification % 65536) ++ (0x40 ∷ 0 ∷ ttl ∷ 17 ∷ [])))

  abbrev udp_value : ℕ
  udp_value = nonzero (checksum ((pseudo ++ udp_start) ++ (be16 0 ++ payload identification)))

  abbrev header_value : ℕ
  header_value = checksum (header_start ++ (be16 0 ++ addresses))

  pub datagram : List ℕ
  datagram =
      (header_start ++ (be16 header_value ++ addresses))
      ++ (udp_start ++ (be16 udp_value ++ payload identification))

  pub datagram-IsIpv4Udp : IsIpv4Udp datagram
  unfolding datagram payload from_bytes
  datagram-IsIpv4Udp = record {
    total = refl;
    header_valid = checksum-checksum header_start addresses refl;
    udp_length = refl;
    udp_valid = checksum-nonzero (pseudo ++ udp_start) (payload identification) refl;
  }

  pub ipv4_udp_run :
      (host_ip : ℕ → Result Dotted) (receiver : ℕ)
      → host_ip receiver ≡ ok (record { a = a; b = b; c = c; d = d })
      → ipv4_packed a b c d ≡ ok (a ∷ b ∷ c ∷ d ∷ [])
      → sender < 256
      → identification < 4294967296
      → ttl < 256
      → ipv4_udp host_ip sender receiver identification ttl ≡ ok datagram
  unfolding ipv4_udp datagram payload
  ipv4_udp_run host_ip receiver host hd hs hi ht = rw (
    lt→ltb _ _ hs,
    host,
    hd,
    lt→ltb _ _ hi,
    nonzero_fits,
    low16_fits,
    lt→ltb _ _ ht,
    checksum_fits,
  )

-- `ipv4_udp` returns a packet of 61 bytes whose lengths and whose IPv4 and UDP checksums a receiver
-- accepts, with the given TTL, for a sender below 256, an identification below 2 ^ 32, a TTL below
-- 256 and a receiver that `host_ip` maps to an address.
pub ipv4_udp-IsIpv4Udp :
    (host_ip : ℕ → Result Dotted) (sender receiver identification ttl a b c d : ℕ)
    → host_ip receiver ≡ ok (record { a = a; b = b; c = c; d = d })
    → ipv4_packed a b c d ≡ ok (a ∷ b ∷ c ∷ d ∷ [])
    → sender < 256
    → identification < 4294967296
    → ttl < 256
    → (p : List ℕ) × (ipv4_udp host_ip sender receiver identification ttl ≡ ok p)
      × IsIpv4Udp p
      × (length p ≡ 61)
      × (get_elem? p 8 ≡ some ttl)
ipv4_udp-IsIpv4Udp host_ip sender receiver identification ttl a b c d host hd hs hi ht = (
  datagram sender identification ttl a b c d,
  ipv4_udp_run sender identification ttl a b c d host_ip receiver host hd hs hi ht,
  datagram-IsIpv4Udp sender identification ttl a b c d,
  unfold datagram payload in refl,
  unfold datagram payload in refl,
)
