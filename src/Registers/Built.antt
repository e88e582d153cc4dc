-- ===== src/Registers/Built.antt =====
-- What `make_frame` of the register case returns.
use Prim.Native.Nat.{ℕ, ◌%◌, ◌-◌, ◌<◌, ◌≤◌}
use mathlib.Core.Bool.{false, true}
use mathlib.Core.List.{List, [], ◌++◌, ◌∷◌}
use mathlib.Core.Logic.{◌⊎◌}
use mathlib.Core.Option.{none}
use mathlib.Core.Path.{refl, ◌≡◌}
use native.Mathlib.Omega.{arith}
use p4_cases.Ip.Built.{
  IsAddress, IsSegment, address_bytes, build_transport-IsSegment, dotted_packed-IsAddress,
}
use p4_cases.Ip.Sealed.{IsSealed, seal-IsSealed}
use p4_cases.Ip.Transport.{build_transport}
use p4_cases.L2.Hosts.{mac}
use p4_cases.Prelude.Lists.{length, length-append, length-take, take}
use p4_cases.Prelude.Result.{Result, ok}
use p4_cases.Prelude.Tests.{lt→ltb}
use p4_cases.Registers.Frames.{
  Request, bad_request, given_or, host_ip, label, make_frame, or_default,
}
use p4_cases.Wire.Bytes.{be16}
use p4_cases.Wire.Pack.{Dotted, pack}

abbrev pub source_of : Request → Dotted
source_of r = or_default r.source (host_ip r.sender)

abbrev pub target_of : Request → Dotted
target_of r = or_default r.destination (host_ip (3 - r.sender))

abbrev pub id_of : Request → ℕ
id_of r = or_default r.datagram_id r.identification

abbrev pub payload : Request → List ℕ
payload r = take r.payload_size (label (be16 r.identification))

-- The addresses: from the sender, marked by the prefix and the identification, to the other host.
abbrev pub ethernet : Request → List ℕ
ethernet r = mac (3 - r.sender) ++ (r.prefix ++ (be16 r.identification ++ (0x08 ∷ 0x00 ∷ [])))

-- The arguments fit their fields.
pub record IsRequest (r : Request) : Type 0 where
  pub good : bad_request r ≡ false
  pub source_fits : IsAddress (source_of r)
  pub target_fits : IsAddress (target_of r)
  pub number : r.identification < 65536
  pub datagram : id_of r < 65536
  pub ports : (r.sport < 65536) × (r.dport < 65536)
  pub fields : (r.flags < 65536) × (r.ttl < 256) × (r.protocol < 256)

module _ (r : Request) (h : IsRequest r) where
  -- What the guard of `make_frame` establishes.
  bounds :
      (length r.prefix ≡ 4)
      × (length r.options % 4 ≡ 0)
      × (length r.options ≤ 40)
      × (r.payload_size ≤ 1472)
  bounds = let g = h.good in (ground arith, ground arith, ground arith, ground arith)

  abbrev built : Result (List ℕ)
  built =
      build_transport r.protocol (address_bytes (source_of r)) (address_bytes (target_of r)) r.sport
        r.dport r.identification [] (payload r) r.udp_checksum

  length-ethernet : length (ethernet r) ≡ 14
  length-ethernet =
      let (four, o4, o40, short) = bounds in
      omega (arith, length-append r.prefix (be16 r.identification ++ (0x08 ∷ 0x00 ∷ [])))

  frame_run :
      (t : List ℕ)
      → given_or r.transport built ≡ ok t
      → length t ≤ 1532
      → (frame : List ℕ) × (make_frame r ≡ ok frame)
        × IsSealed
            (ethernet r)
            r.options
            t
            (address_bytes (source_of r))
            (address_bytes (target_of r))
            (id_of r)
            r.flags
            r.ttl
            r.protocol
            frame
  unfolding make_frame pack
  frame_run t run size =
      let (four, o4, o40, short) = bounds in
      let (flags_fit, ttl_fits, protocol_fits) = h.fields in
      let (frame, e, s) =
        seal-IsSealed (ethernet r) r.options t (address_bytes (source_of r))
          (address_bytes (target_of r)) (id_of r) r.flags r.ttl r.protocol length-ethernet o40 o4
          refl refl (omega arith) h.datagram flags_fit ttl_fits protocol_fits in
      (
        frame,
        rw
            (
              h.good,
              dotted_packed-IsAddress (source_of r) h.source_fits,
              dotted_packed-IsAddress (target_of r) h.target_fits,
              lt→ltb _ _ h.number,
              run,
            )
            e,
        s,
      )

-- A request for a TCP packet, or for a UDP packet with a checksum, with fitting arguments and no
-- transport of its own, returns a frame to the other host, marked by the prefix, that holds the
-- options and a segment: the payload behind a valid UDP or TCP header, in a valid IPv4 packet, padded
-- to 60 bytes.
pub make_frame-IsSealed_marked :
    (r : Request)
    → IsRequest r
    → r.transport ≡ none
    → (r.protocol ≡ 6) ⊎ ((r.protocol ≡ 17) × (r.udp_checksum ≡ true))
    → (t : List ℕ) × (frame : List ℕ) × (make_frame r ≡ ok frame)
      × IsSegment r.protocol
          (address_bytes (source_of r))
          (address_bytes (target_of r))
          []
          (payload r)
          r.sport
          r.dport
          r.identification
          t
      × IsSealed
          (ethernet r)
          r.options
          t
          (address_bytes (source_of r))
          (address_bytes (target_of r))
          (id_of r)
          r.flags
          r.ttl
          r.protocol
          frame
make_frame-IsSealed_marked r h e kind =
    let (four, o4, o40, short) = bounds r h in
    let (sport_fits, dport_fits) = h.ports in
    let n = h.number in
    let size : length (payload r) ≤ 1472 =
      omega (arith, length-take r.payload_size (label (be16 r.identification))) in
    let (t, run, g, small) =
      build_transport-IsSegment r.protocol (address_bytes (source_of r))
        (address_bytes (target_of r)) [] (payload r) r.sport r.dport r.identification r.udp_checksum
        kind refl refl (sport_fits, dport_fits, omega arith) (omega arith) size in
    let (frame, made, s) = frame_run r h t (rw e run) small in (t, frame, made, g, s)
