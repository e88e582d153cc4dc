-- ===== src/Lpm/Packets.antt =====
-- The packets that `make_frame` of the IPv6 case returns.
use Prim.Native.Nat.{ℕ, ◌+◌, ◌-◌, ◌<◌, ◌≤◌}
use mathlib.Core.Bool.{false, true}
use mathlib.Core.List.{List, [], append-nil, append_assoc, ◌++◌, ◌∷◌}
use mathlib.Core.Logic.{inl, inr, ◌⊎◌}
use mathlib.Core.Option.{none}
use mathlib.Core.Path.{ap, refl, sym, ◌∙◌, ◌≡◌}
use native.Mathlib.Omega.{arith}
use p4_cases.L2.Frame.{IsMarker}
use p4_cases.Lpm.Built.{IsSegment, header_size, transport_segment-IsSegment}
use p4_cases.Lpm.Frames.{
  Request, bad_request, given_or, host_address, label, make_frame, transport_segment,
}
use p4_cases.Prelude.Lists.{
  drop, drop-append, length, length-append, length-replicate, length-take, replicate, take,
  take-append, take_all,
}
use p4_cases.Prelude.Result.{ok}
use p4_cases.Prelude.Slices.{drop-drop}
use p4_cases.Prelude.Tests.{ltb, lt→ltb}
use p4_cases.Wire.Bytes.{be16, be32, ljust, slice}

-- The frame holds the body in an IPv6 packet from the sender's address, to the gateway that the
-- prefix marks.
pub record IsPacket (r : Request) (body frame : List ℕ) : Type 0 where
  pub minimum : 60 ≤ length frame
  pub gateway : take 6 frame ≡ r.prefix ++ (0x0a ∷ 0x01 ∷ [])
  pub source : slice 6 12 frame ≡ r.prefix ++ be16 r.identification
  pub ether_type : slice 12 14 frame ≡ 0x86 ∷ 0xdd ∷ []
  pub header :
      slice 14 54 frame
      ≡ be32 (1654652928 + r.identification)
        ++ (be16 (length body)
            ++ (r.protocol
                ∷ r.hop_limit
                ∷ ((host_address r.sender).packed ++ r.destination.packed)))
  pub carried : take (length body) (drop 54 frame) ≡ body

-- A list of four elements, so that what it stands in computes.
with_four :
    (P : List ℕ → Type 0)
    → ((a b c d : ℕ) → P (a ∷ b ∷ c ∷ d ∷ []))
    → (xs : List ℕ) → length xs ≡ 4
    → P xs
with_four P f [] h = absurd (omega arith)
with_four P f (a ∷ []) h = absurd (omega arith)
with_four P f (a ∷ b ∷ []) h = absurd (omega arith)
with_four P f (a ∷ b ∷ c ∷ []) h = absurd (omega arith)
with_four P f (a ∷ b ∷ c ∷ d ∷ []) h = f a b c d
with_four P f (a ∷ b ∷ c ∷ d ∷ e ∷ xs) h = absurd (omega arith)

-- A frame through the gateway.
abbrev framed : List ℕ → ℕ → List ℕ → List ℕ
framed prefix number rest =
    prefix ++ (0x0a ∷ 0x01 ∷ (prefix ++ (be16 number ++ (0x86 ∷ 0xdd ∷ rest))))

-- Its parts, behind a rest.
record HasParts (number : ℕ) (rest xs prefix : List ℕ) : Type 0 where
  joined : framed prefix number rest ++ xs ≡ framed prefix number (rest ++ xs)
  behind : drop 14 (framed prefix number (rest ++ xs)) ≡ rest ++ xs
  gateway : take 6 (framed prefix number (rest ++ xs)) ≡ prefix ++ (0x0a ∷ 0x01 ∷ [])
  source : slice 6 12 (framed prefix number (rest ++ xs)) ≡ prefix ++ be16 number
  ether_type : slice 12 14 (framed prefix number (rest ++ xs)) ≡ 0x86 ∷ 0xdd ∷ []

framed-HasParts :
    (number : ℕ) (rest xs prefix : List ℕ) → length prefix ≡ 4 → HasParts number rest xs prefix
framed-HasParts number rest xs = with_four (HasParts number rest xs) λ a b c d. record {
  joined = refl;
  behind = refl;
  gateway = refl;
  source = refl;
  ether_type = refl;
}

module _ (r : Request) (body : List ℕ) (m : IsMarker r.prefix)
    (ht : length r.destination.packed ≡ 16) where
  abbrev from : List ℕ
  from = (host_address r.sender).packed

  abbrev fields : List ℕ
  fields =
      be32 (1654652928 + r.identification)
      ++ (be16 (length body) ++ (r.protocol ∷ r.hop_limit ∷ (from ++ r.destination.packed)))

  sixteen : length from ≡ 16
  unfolding host_address
  sixteen = refl

  length_fields : length fields ≡ 40
  length_fields = omega (arith, length-append from r.destination.packed, sixteen)

  abbrev plain : List ℕ
  plain = framed r.prefix r.identification (fields ++ body)

  filled-IsPacket : IsPacket r body (ljust 60 0xa5 plain)
  unfolding ljust
  filled-IsPacket =
      let padding : List ℕ = replicate (60 - length plain) 0xa5 in
      let parts = framed-HasParts r.identification (fields ++ body) padding r.prefix m.four in
      let regroup : (fields ++ body) ++ padding ≡ fields ++ (body ++ padding) =
        append_assoc fields body padding in
      let inside : drop 14 (plain ++ padding) ≡ fields ++ (body ++ padding) =
        ap (drop 14) parts.joined ∙ parts.behind ∙ regroup in
      record {
        minimum =
            omega (
              arith,
              length-append plain padding,
              length-replicate {A = ℕ} (60 - length plain) 0xa5,
            );
        gateway = ap (take 6) parts.joined ∙ parts.gateway;
        source = ap (slice 6 12) parts.joined ∙ parts.source;
        ether_type = ap (slice 12 14) parts.joined ∙ parts.ether_type;
        header = ap (take 40) inside ∙ take-append 40 fields (body ++ padding) length_fields;
        carried =
            ap (take (length body)) (
              sym (drop-drop 14 40 54 (plain ++ padding) refl)
              ∙ ap (drop 40) inside
              ∙ drop-append 40 fields (body ++ padding) length_fields)
            ∙ take-append (length body) body padding refl;
      }

  packet_run :
      given_or r.body (
          transport_segment
            (host_address r.sender)
            r.destination
            r.protocol
            r.identification
            r.payload_size)
        ≡ ok body
      → bad_request r ≡ false
      → r.flow_label ≡ none
      → r.protocol < 256
      → r.hop_limit < 256
      → length body ≤ 1460
      → make_frame r ≡ ok (ljust 60 0xa5 plain)
  unfolding make_frame host_address ljust
  packet_run run good flow hp hh size =
      let number : r.identification < 65536 = ground arith in
      let a : ltb 1460 (length body) ≡ false = ground arith in
      let b : ltb r.identification 1048576 ≡ true = ground arith in
      let c : ltb (1654652928 + r.identification) 4294967296 ≡ true = ground arith in
      let d : ltb (length body) 65536 ≡ true = ground arith in
      let t : 16 - length r.destination.packed ≡ 0 = omega arith in
      rw
        (
          good,
          run,
          a,
          flow,
          b,
          c,
          d,
          lt→ltb _ _ hp,
          lt→ltb _ _ hh,
          lt→ltb _ _ number,
          t,
          take_all 16 r.destination.packed (omega arith),
          append-nil r.destination.packed,
        )
        refl

-- A good request for a UDP, TCP or ICMPv6 packet that fits 1,460 bytes, with a marker prefix and an
-- address of 16 bytes and without a body or a flow label of its own, returns a frame to the gateway
-- with an IPv6 packet: the header with its identification as flow label, and a segment with the
-- payload whose checksum validates in the pseudo header.
pub make_frame-IsPacket :
    (r : Request)
    → IsMarker r.prefix
    → length r.destination.packed ≡ 16
    → bad_request r ≡ false
    → r.body ≡ none
    → r.flow_label ≡ none
    → r.hop_limit < 256
    → (r.protocol ≡ 17) ⊎ ((r.protocol ≡ 6) ⊎ (r.protocol ≡ 58))
    → header_size r.protocol + r.payload_size ≤ 1460
    → (t : List ℕ) × (frame : List ℕ) × (make_frame r ≡ ok frame)
      × IsSegment
          (host_address r.sender).packed
          r.destination.packed
          (take r.payload_size (label (be16 r.identification)))
          r.protocol
          t
      × IsPacket r t frame
unfolding host_address
make_frame-IsPacket r m ht good nobody flow hh kind size =
    let number : r.identification < 65536 = ground arith in
    let short : r.payload_size ≤ 1452 = ground arith in
    let (t, run, g) =
      transport_segment-IsSegment (host_address r.sender) r.destination r.protocol r.identification
        r.payload_size refl ht number short kind in
    let fits : length t ≤ 1460 =
      omega (arith, g.size, length-take r.payload_size (label (be16 r.identification))) in
    let byte : r.protocol < 256 = elim kind [
      | inl e ↦ omega arith
      | inr (inl e) ↦ omega arith
      | inr (inr e) ↦ omega arith
    ] in
    (
      t,
      ljust 60 0xa5 (plain r t m ht),
      packet_run r t m ht (rw nobody run) good flow byte hh fits,
      g,
      filled-IsPacket r t m ht,
    )
