-- ===== src/Ecmp/Built.antt =====
-- What `make_frame` of the ECMP case returns.
use Prim.Native.Nat.{ℕ, ◌%◌, ◌<◌, ◌≤◌}
use mathlib.Core.Bool.{false, true, ◌&&◌}
use mathlib.Core.List.{List, [], ◌++◌, ◌∷◌}
use mathlib.Core.Logic.{◌⊎◌}
use mathlib.Core.Option.{none}
use mathlib.Core.Path.{refl, ◌≡◌}
use native.Mathlib.Omega.{arith}
use p4_cases.Ecmp.{host_macs}
use p4_cases.Ecmp.Frames.{Request, bad_request, given_or, label, make_frame, payload_of}
use p4_cases.Ip.Built.{
  IsAddress, IsSegment, address_bytes, build_transport-IsSegment, dotted_packed-IsAddress,
  length-filler,
}
use p4_cases.Ip.Sealed.{IsSealed, seal-IsSealed}
use p4_cases.Ip.Transport.{build_transport}
use p4_cases.L2.Hosts.{mac}
use p4_cases.Prelude.Lists.{length, length-take, take}
use p4_cases.Prelude.Result.{Result, ok}
use p4_cases.Prelude.Tests.{leb, ltb, lt→ltb}
use p4_cases.Wire.Bytes.{be16}

-- The arguments fit their fields.
pub record IsRequest (r : Request) : Type 0 where
  pub good : bad_request r ≡ false
  pub address : IsAddress r.destination
  pub number : r.identification < 65536
  pub short : r.payload_size ≤ 1472
  pub ports : (r.sport < 65536) × (r.dport < 65536)
  pub fields : (r.flags < 65536) × (r.ttl < 256) × (r.protocol < 256)

abbrev pub payload : Request → List ℕ
payload r = take r.payload_size (label (be16 r.identification))

module _ (r : Request) (h : IsRequest r) where
  payload_run : payload_of r ≡ ok (payload r)
  unfolding payload_of
  payload_run =
      let n = h.number in
      let s = h.short in
      let size : length (payload r) ≡ r.payload_size =
        omega (arith, length-take r.payload_size (label (be16 r.identification)), length-filler) in
      let enough : ltb (length (payload r)) r.payload_size ≡ false = ground (arith, size) in
      rw (lt→ltb _ _ n, enough) refl

  -- What the guard of `make_frame` establishes.
  bounds :
      (length r.source ≡ 4)
      × (1 ≤ r.sender)
      × (r.sender ≤ 3)
      × (length r.options % 4 ≡ 0)
      × (length r.options ≤ 40)
      × (length r.tcp_options ≤ 40)
  bounds =
      let g = h.good in
      (ground arith, ground arith, ground arith, ground arith, ground arith, ground arith)

  abbrev ethernet : List ℕ
  ethernet = mac r.sender ++ (mac r.sender ++ (0x08 ∷ 0x00 ∷ []))

  abbrev built : Result (List ℕ)
  built =
      build_transport r.protocol r.source (address_bytes r.destination) r.sport r.dport
        r.identification r.tcp_options (payload r) r.udp_checksum

  -- The transport that is given or built, when it fits, is carried.
  frame_run :
      (t : List ℕ)
      → given_or r.transport built ≡ ok t
      → length t ≤ 1532
      → (frame : List ℕ) × (make_frame r ≡ ok frame)
        × IsSealed ethernet r.options t r.source
            (address_bytes r.destination)
            r.identification
            r.flags
            r.ttl
            r.protocol
            frame
  unfolding make_frame host_macs
  frame_run t run size =
      let (four, lo, hi, o4, o40, t40) = bounds in
      let (flags_fit, ttl_fits, protocol_fits) = h.fields in
      let known : (leb 1 r.sender && leb r.sender 3) ≡ true = ground arith in
      let (frame, e, s) =
        seal-IsSealed ethernet r.options t r.source (address_bytes r.destination) r.identification
          r.flags r.ttl r.protocol refl o40 o4 four refl (omega arith) h.number flags_fit ttl_fits
          protocol_fits in
      (
        frame,
        rw (h.good, dotted_packed-IsAddress r.destination h.address, payload_run, run, known) e,
        s,
      )

  length_payload : length (payload r) ≤ 1472
  length_payload =
      let s = h.short in omega (arith, length-take r.payload_size (label (be16 r.identification)))

  built_run :
      r.transport ≡ none
      → (r.protocol ≡ 6) ⊎ ((r.protocol ≡ 17) × (r.udp_checksum ≡ true))
      → (t : List ℕ) × (given_or r.transport built ≡ ok t)
        × IsSegment r.protocol r.source
            (address_bytes r.destination)
            r.tcp_options
            (payload r)
            r.sport
            r.dport
            r.identification
            t
        × (length t ≤ 1532)
  built_run e kind =
      let (four, lo, hi, o4, o40, t40) = bounds in
      let (sport_fits, dport_fits) = h.ports in
      let n = h.number in
      let (t, run, g, size) =
        build_transport-IsSegment r.protocol r.source (address_bytes r.destination) r.tcp_options
          (payload r) r.sport r.dport r.identification r.udp_checksum kind four refl
          (sport_fits, dport_fits, omega arith) t40 length_payload in
      (t, rw e run, g, size)

-- A request for a TCP packet, or for a UDP packet with a checksum, with fitting arguments and no
-- transport of its own, returns a frame from the sender to itself that holds the options and a
-- segment: the payload behind a valid UDP or TCP header, in a valid IPv4 packet, padded to 60 bytes.
pub make_frame-IsSealed :
    (r : Request)
    → IsRequest r
    → r.transport ≡ none
    → (r.protocol ≡ 6) ⊎ ((r.protocol ≡ 17) × (r.udp_checksum ≡ true))
    → (t : List ℕ) × (frame : List ℕ) × (make_frame r ≡ ok frame)
      × IsSegment r.protocol r.source
          (address_bytes r.destination)
          r.tcp_options
          (payload r)
          r.sport
          r.dport
          r.identification
          t
      × IsSealed
          (mac r.sender ++ (mac r.sender ++ (0x08 ∷ 0x00 ∷ [])))
          r.options
          t
          r.source
          (address_bytes r.destination)
          r.identification
          r.flags
          r.ttl
          r.protocol
          frame
make_frame-IsSealed r h e kind =
    let (t, run, g, size) = built_run r h e kind in
    let (frame, made, s) = frame_run r h t run size in (t, frame, made, g, s)
