-- ===== src/Firewall/Packets.antt =====
-- The IPv4 packets of the access-list case.
use Prim.Native.Nat.{bit_or, ℕ, ◌%◌, ◌*◌, ◌+◌, ◌/◌, ◌<◌, ◌≤◌}
use mathlib.Core.Bool.{false, true}
use mathlib.Core.List.{List, [], ◌++◌, ◌∷◌}
use mathlib.Core.Logic.{◌≢◌}
use mathlib.Core.Path.{refl, subst, sym, ◌∙◌, ◌≡◌}
use native.Mathlib.Omega.{arith}
use p4_cases.Firewall.{
  Protocol, Request, arp, bad_options, icmp, ip_frame, ipv4_header, make_frame, no_fault, number_of,
  pseudo_header, segment, tcp, udp, with_checksum,
}
use p4_cases.Firewall.Built.{
  IsSegment, field-sent, field-valid, header_length, protocol_number, pseudo_header_run, pseudo_of,
  pseudo_of-even, segment-HasField, value, with_checksum_run,
}
use p4_cases.Firewall.Filling.{
  as_ip, length-payload_of, number_fits, number_same, pad_payload-filling, payload_of,
}
use p4_cases.Ip.Built.{IsAddress, address_bytes, dotted_packed-IsAddress}
use p4_cases.Ip.Segments.{pseudo}
use p4_cases.Prelude.Lists.{drop, length, take}
use p4_cases.Prelude.Result.{ok}
use p4_cases.Prelude.Tests.{ltb, lt→ltb}
use p4_cases.Wire.Bytes.{be16, ljust, slice}
use p4_cases.Wire.Checksum.{checksum, words}
use p4_cases.Wire.Checksum.Validity.{checksum-put_checksum, checksum_fits, put_checksum}
use p4_cases.Wire.Pack.{pack}

-- The arguments fit their fields.
pub record IsRequest (r : Request) : Type 0 where
  pub ip : r.protocol ≢ arp
  pub unspoiled : r.fault ≡ no_fault
  pub sound_options : (length r.options ≤ 40) × (length r.options % 4 ≡ 0)
  pub from : IsAddress r.src_ip
  pub to : IsAddress r.dst_ip
  pub low_sequence : r.sequence < 65536
  pub low_port : r.dport < 65536
  pub fragment : bit_or (r.flags * 8192) r.offset < 65536

-- An IPv4 header and a segment, each with a checksum that validates.
pub record IsAclFrame (r : Request) (header transport : List ℕ) : Type 0 where
  pub header_valid : checksum header ≡ 0
  pub addresses : drop 12 header ≡ address_bytes r.src_ip ++ (address_bytes r.dst_ip ++ r.options)
  pub front :
      take 10 header
      ≡ (64 + (5 + length r.options / 4))
        ∷ 0
        ∷ (be16 (20 + length r.options + length transport)
            ++ (be16 r.sequence
                ++ (be16 (bit_or (r.flags * 8192) r.offset)
                    ++ (64 ∷ protocol_number r.protocol ∷ []))))
  pub segmented : IsSegment r.protocol r.sequence r.dport (payload_of r) transport
  pub sent : r.protocol ≡ udp → slice 6 8 transport ≢ be16 0
  pub valid :
      checksum (
        pseudo_of r.protocol (address_bytes r.src_ip) (address_bytes r.dst_ip) (length transport)
        ++ transport)
      ≡ 0

module _ (r : Request) (h : IsRequest r) where
  accepted : bad_options r.options ≡ false
  accepted = let (few, words) = h.sound_options in ground arith

  abbrev front_bytes : ℕ → List ℕ
  front_bytes size =
      (64 + (5 + length r.options / 4))
      ∷ 0
      ∷ (be16 (20 + length r.options + size)
          ++ (be16 r.sequence
              ++ (be16 (bit_or (r.flags * 8192) r.offset) ++ (64 ∷ number_of r.protocol ∷ []))))

  abbrev back_bytes : List ℕ
  back_bytes = address_bytes r.src_ip ++ (address_bytes r.dst_ip ++ r.options)

  abbrev unsealed : ℕ → List ℕ
  unsealed size = front_bytes size ++ (be16 0 ++ back_bytes)

  header_run :
      (size : ℕ)
      → size ≤ 65000
      → ipv4_header r (address_bytes r.src_ip) (address_bytes r.dst_ip) size
        ≡ ok (put_checksum 10 (unsealed size))
  unfolding ipv4_header put_checksum
  header_run size small =
      let (o40, o4) = h.sound_options in
      let a : ltb (4 * 16 + (5 + length r.options / 4)) 256 ≡ true = ground arith in
      let b : ltb (20 + length r.options + size) 65536 ≡ true = ground arith in
      let seq = h.low_sequence in
      rw
        (
          h.unspoiled,
          a,
          b,
          lt→ltb _ _ seq,
          lt→ltb _ _ h.fragment,
          number_fits r.protocol,
          checksum_fits (unsealed size),
        )
        refl

  header_even : (size : ℕ) → checksum (put_checksum 10 (unsealed size)) ≡ 0
  header_even size = checksum-put_checksum 10 (front_bytes size) back_bytes refl refl

  front_number :
      (size : ℕ)
      → take 10 (put_checksum 10 (unsealed size))
        ≡ (64 + (5 + length r.options / 4))
          ∷ 0
          ∷ (be16 (20 + length r.options + size)
              ++ (be16 r.sequence
                  ++ (be16 (bit_or (r.flags * 8192) r.offset)
                      ++ (64 ∷ protocol_number r.protocol ∷ []))))
  unfolding put_checksum
  front_number size = rw (← number_same r.protocol) refl

  abbrev framed : List ℕ → List ℕ → List ℕ
  framed header transport =
      ljust 60 0 ((r.dst_mac ++ r.src_mac) ++ (0x08 ∷ 0x00 ∷ (header ++ transport)))

  frame_run :
      (unchecked pseudo transport header : List ℕ)
      → segment r.protocol r.sequence r.dport (payload_of r) ≡ ok unchecked
      → pseudo_header r.protocol
          (address_bytes r.src_ip)
          (address_bytes r.dst_ip)
          (length unchecked)
        ≡ ok pseudo
      → with_checksum r.protocol pseudo unchecked ≡ ok transport
      → ipv4_header r (address_bytes r.src_ip) (address_bytes r.dst_ip) (length transport)
        ≡ ok header
      → make_frame r ≡ ok (framed header transport)
  unfolding make_frame ip_frame pack
  frame_run unchecked pseudo transport header e1 e2 e3 e4 =
      let s = h.low_sequence in
      let seq : ltb r.sequence 4294967296 ≡ true = ground arith in
      rw
        (
          accepted,
          dotted_packed-IsAddress r.src_ip h.from,
          dotted_packed-IsAddress r.dst_ip h.to,
          seq,
          pad_payload-filling r.protocol r.flags r.sequence,
          as_ip r.protocol h.ip _ _,
          e1,
          e2,
          e3,
          e4,
          h.unspoiled,
        )
        refl

-- A request for TCP, UDP or ICMP without a fault and with fitting arguments returns a frame that
-- holds an IPv4 header with the number of the protocol, the addresses and the options, and a segment
-- with the sequence number as payload, filled up to eight-byte units in a first fragment. The checksum
-- of the header validates, and that of the segment does after its pseudo header, which ICMP does not
-- have, and is not sent as zero for UDP.
pub make_frame-IsAclFrame :
    (r : Request)
    → IsRequest r
    → (header : List ℕ) × (transport : List ℕ) × (make_frame r
        ≡ ok (ljust 60 0 ((r.dst_mac ++ r.src_mac) ++ (0x08 ∷ 0x00 ∷ (header ++ transport)))))
      × IsAclFrame r header transport
unfolding put_checksum
make_frame-IsAclFrame r h =
    let small : length (payload_of r) ≤ 16 = length-payload_of r in
    let f =
      segment-HasField r.protocol r.sequence r.dport (payload_of r) h.ip h.low_sequence h.low_port
        (omega arith) in
    let g0 = f.parts 0 in
    let unchecked = f.xs ++ (be16 0 ++ f.ys) in
    let bound : header_length r.protocol ≤ 20 = header_length-le r.protocol in
    let src = address_bytes r.src_ip in
    let dst = address_bytes r.dst_ip in
    let pseudo = pseudo_of r.protocol src dst (length unchecked) in
    let run = pseudo_header_run r.protocol src dst (length unchecked) (omega (arith, g0.size)) in
    let even = pseudo_of-even r.protocol src dst (length unchecked) refl refl in
    let v = value r.protocol pseudo f.xs f.ys in
    let transport = f.xs ++ (be16 v ++ f.ys) in
    let g = f.parts v in
    let same : length unchecked ≡ length transport = g0.size ∙ sym g.size in
    (
      put_checksum 10 (unsealed r h (length transport)),
      transport,
      frame_run r h unchecked pseudo transport _ f.run run
          (with_checksum_run r.protocol pseudo f.xs f.ys f.position)
          (header_run r h (length transport) (omega (arith, g.size))),
      record {
        header_valid = header_even r h (length transport);
        addresses = refl;
        front = front_number r h (length transport);
        segmented = g;
        sent = λ e. field-sent r.protocol pseudo f.xs f.ys e f.position;
        valid =
            subst (λ n. checksum (pseudo_of r.protocol src dst n ++ transport) ≡ 0) same
              (field-valid r.protocol pseudo f.xs f.ys f.position even);
      },
    )
  where
    header_length-le : (protocol : Protocol) → header_length protocol ≤ 20
    header_length-le tcp = omega arith
    header_length-le udp = omega arith
    header_length-le icmp = omega arith
    header_length-le arp = omega arith
