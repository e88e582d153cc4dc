-- ===== src/Firewall/Built.antt =====
-- What `make_frame` of the access-list case returns for IPv4 without a fault.
use Prim.Native.Nat.{ℕ, ◌%◌, ◌+◌, ◌<◌, ◌≤◌}
use mathlib.Core.Bool.{true}
use mathlib.Core.List.{List, [], ◌++◌, ◌∷◌}
use mathlib.Core.Logic.{◌≢◌}
use mathlib.Core.Path.{ap, refl, sym, ◌∙◌, ◌≡◌}
use native.Mathlib.Omega.{arith}
use p4_cases.Firewall.{
  Protocol, arp, icmp, number_of, position_of, pseudo_header, segment, tcp, udp, with_checksum,
}
use p4_cases.Ip.Segments.{checksum_value-nonzero}
use p4_cases.Ip.Transport.{checksum_value}
use p4_cases.L2.Datagram.Ipv4.{payload}
use p4_cases.Prelude.Lists.{
  drop, drop-append, drop-append_append, length, length-append, take, take-append,
}
use p4_cases.Prelude.Result.{ok}
use p4_cases.Prelude.Tests.{ltb, lt→ltb}
use p4_cases.Wire.Bytes.{be16, be32, slice}
use p4_cases.Wire.Checksum.{checksum}
use p4_cases.Wire.Checksum.Sums.{checksum-le}
use p4_cases.Wire.Checksum.Validity.{checksum-filled}

-- What a segment starts with: the ports, or the ICMP type and code.
abbrev pub start_of : Protocol → ℕ → ℕ → List ℕ
start_of tcp sequence dport = be16 (4000 + sequence % 1000) ++ be16 dport
start_of udp sequence dport = be16 (4000 + sequence % 1000) ++ be16 dport
start_of icmp sequence dport = 8 ∷ 0 ∷ []
start_of arp sequence dport = []

-- The length of the header of the segment: 20 bytes for TCP, 8 for UDP and ICMP.
abbrev pub header_length : Protocol → ℕ
header_length tcp = 20
header_length udp = 8
header_length icmp = 8
header_length arp = 8

-- The number of the protocol in the IPv4 header (RFC 790).
abbrev pub protocol_number : Protocol → ℕ
protocol_number tcp = 6
protocol_number udp = 17
protocol_number icmp = 1
protocol_number arp = 0

-- What the checksum of a segment of `size` bytes covers before the segment: for TCP and UDP both
-- addresses, a zero byte, the number of the protocol and the size, and nothing for ICMP.
abbrev pub pseudo_of : Protocol → List ℕ → List ℕ → ℕ → List ℕ
pseudo_of tcp src dst size = src ++ (dst ++ (0 ∷ 6 ∷ be16 size))
pseudo_of udp src dst size = src ++ (dst ++ (0 ∷ 17 ∷ be16 size))
pseudo_of icmp src dst size = []
pseudo_of arp src dst size = src ++ (dst ++ (0 ∷ 0 ∷ be16 size))

-- A header and a payload.
pub record IsSegment (protocol : Protocol) (sequence dport : ℕ) (payload transport : List ℕ)
    : Type 0 where
  pub start :
      take (length (start_of protocol sequence dport)) transport ≡ start_of protocol sequence dport
  pub content : drop (header_length protocol) transport ≡ payload
  pub size : length transport ≡ header_length protocol + length payload

-- The segment around its checksum field.
pub record HasField (protocol : Protocol) (sequence dport : ℕ) (payload : List ℕ) : Type 0 where
  pub xs : List ℕ
  pub ys : List ℕ
  pub run : segment protocol sequence dport payload ≡ ok (xs ++ (be16 0 ++ ys))
  pub position : length xs ≡ position_of protocol
  pub parts : (v : ℕ) → IsSegment protocol sequence dport payload (xs ++ (be16 v ++ ys))

pub segment-HasField :
    (protocol : Protocol) (sequence dport : ℕ) (payload : List ℕ)
    → protocol ≢ arp
    → sequence < 65536
    → dport < 65536
    → length payload ≤ 65000
    → HasField protocol sequence dport payload
unfolding segment
segment-HasField tcp sequence dport payload h hs hd hp = record {
  xs =
      be16 (4000 + sequence % 1000)
      ++ (be16 dport ++ (be32 sequence ++ (be32 0 ++ (0x50 ∷ 2 ∷ be16 8192))));
  ys = be16 0 ++ payload;
  run =
      (let a : ltb (4000 + sequence % 1000) 65536 ≡ true = ground arith in
        let b : ltb sequence 4294967296 ≡ true = ground arith in rw (a, b, lt→ltb _ _ hd) refl);
  position = refl;
  parts = λ v. record { start = refl; content = refl; size = omega arith };
}
segment-HasField udp sequence dport payload h hs hd hp = record {
  xs = be16 (4000 + sequence % 1000) ++ (be16 dport ++ be16 (8 + length payload));
  ys = payload;
  run =
      (let a : ltb (4000 + sequence % 1000) 65536 ≡ true = ground arith in
        let b : ltb (8 + length payload) 65536 ≡ true = ground arith in
        rw (a, b, lt→ltb _ _ hd) refl);
  position = refl;
  parts = λ v. record { start = refl; content = refl; size = omega arith };
}
segment-HasField icmp sequence dport payload h hs hd hp = record {
  xs = 8 ∷ 0 ∷ [];
  ys = be16 1 ++ (be16 sequence ++ payload);
  run = rw (lt→ltb _ _ hs) refl;
  position = refl;
  parts = λ v. record { start = refl; content = refl; size = omega arith };
}
segment-HasField arp sequence dport payload h hs hd hp = absurd (h refl)

pub pseudo_header_run :
    (protocol : Protocol) (src dst : List ℕ) (size : ℕ)
    → size < 65536
    → pseudo_header protocol src dst size ≡ ok (pseudo_of protocol src dst size)
unfolding pseudo_header
pseudo_header_run icmp src dst size h = refl
pseudo_header_run tcp src dst size h = rw (lt→ltb _ _ h) refl
pseudo_header_run udp src dst size h = rw (lt→ltb _ _ h) refl
pseudo_header_run arp src dst size h = rw (lt→ltb _ _ h) refl

fields_even :
    (src dst last : List ℕ)
    → length src ≡ 4
    → length dst ≡ 4
    → length last ≡ 4
    → length (src ++ (dst ++ last)) % 2 ≡ 0
fields_even src dst last hs hd hl =
    omega (arith, length-append src (dst ++ last), length-append dst last)

pub pseudo_of-even :
    (protocol : Protocol) (src dst : List ℕ) (size : ℕ)
    → length src ≡ 4
    → length dst ≡ 4
    → length (pseudo_of protocol src dst size) % 2 ≡ 0
pseudo_of-even icmp src dst size hs hd = refl
pseudo_of-even tcp src dst size hs hd = fields_even src dst _ hs hd refl
pseudo_of-even udp src dst size hs hd = fields_even src dst _ hs hd refl
pseudo_of-even arp src dst size hs hd = fields_even src dst _ hs hd refl

udp_value-sent : (v : ℕ) → be16 (checksum_value 17 v) ≢ be16 0
udp_value-sent v e = ground arith

position_even : (protocol : Protocol) → position_of protocol % 2 ≡ 0
position_even tcp = refl
position_even udp = refl
position_even icmp = refl
position_even arp = refl

module _ (protocol : Protocol) (pseudo xs ys : List ℕ) where
  abbrev zeroed : ℕ
  zeroed = checksum (pseudo ++ (xs ++ (be16 0 ++ ys)))

  abbrev pub value : ℕ
  value = checksum_value (number_of protocol) zeroed

  value_fits : ltb value 65536 ≡ true
  value_fits = let low = checksum-le (pseudo ++ (xs ++ (be16 0 ++ ys))) in ground arith

  pub with_checksum_run :
      length xs ≡ position_of protocol
      → with_checksum protocol pseudo (xs ++ (be16 0 ++ ys)) ≡ ok (xs ++ (be16 value ++ ys))
  unfolding with_checksum
  with_checksum_run h =
      rw
        (
          value_fits,
          take-append (position_of protocol) xs (be16 0 ++ ys) h,
          drop-append_append (position_of protocol) 2 xs (be16 0) ys h refl,
        )
        refl

  -- UDP does not send a checksum of zero, which would mean none.
  pub field-sent :
      protocol ≡ udp
      → length xs ≡ position_of protocol
      → slice 6 8 (xs ++ (be16 value ++ ys)) ≢ be16 0
  field-sent is_udp h e =
      let six : length xs ≡ 6 = h ∙ ap position_of is_udp in
      let at_field : slice 6 8 (xs ++ (be16 value ++ ys)) ≡ be16 value =
        ap (take 2) (drop-append 6 xs (be16 value ++ ys) six) in
      let same : checksum_value 17 zeroed ≡ value =
        ap (λ p. checksum_value (number_of p) zeroed) (sym is_udp) in
      udp_value-sent zeroed (ap be16 same ∙ sym at_field ∙ e)

  pub field-valid :
      length xs ≡ position_of protocol
      → length pseudo % 2 ≡ 0
      → checksum (pseudo ++ (xs ++ (be16 value ++ ys))) ≡ 0
  field-valid h even =
      checksum-filled pseudo xs ys value
        (omega (arith, length-append pseudo xs, position_even protocol))
        (checksum_value-nonzero (number_of protocol) zeroed)
