-- ===== src/Lpm/Frames.antt =====
-- `transport_segment` and `make_frame` of the IPv6 case.
use Prim.Native.Nat.{ℕ, ◌+◌}
use Prim.Native.String.{String}
use mathlib.Core.Bool.{Bool, not, ◌&&◌, ◌||◌}
use mathlib.Core.List.{List, [], ◌++◌, ◌∷◌}
use mathlib.Core.Option.{Option, none, some}
use p4_cases.Ip.Transport.{checksum_value, filler}
use p4_cases.L2.Datagram.Ipv4.{payload}
use p4_cases.L2.Frame.{is_group}
use p4_cases.Lpm.{network}
use p4_cases.Prelude.Lists.{drop, length, replicate, take}
use p4_cases.Prelude.Result.{Result, ok, raise_if, value_error, ◌>>=◌, ◌>>◌}
use p4_cases.Prelude.Tests.{if◌then◌else◌, leb, ltb, ◌==◌}
use p4_cases.Prelude.Text.{decimal, ◌<>◌}
use p4_cases.Wire.Bytes.{ljust}
use p4_cases.Wire.Checksum.{checksum}
use p4_cases.Wire.Pack.{pack, pad, raw, u16, u32, u8}

-- the text of an address, with its packed form
pub record Address : Type 0 where
  pub text : String
  pub packed : List ℕ

-- `HOST_ADDRESSES[number]`
unfoldable pub host_address : ℕ → Address
unfolding decimal
host_address number = record {
  text = "2001:db8:" <> (decimal number <> "::1");
  packed = network number ++ (replicate 7 0 ++ (1 ∷ []));
}

-- `b"ipv6-lpm:" + struct.pack("!H", identification) + bytes(range(256)) * 6`
abbrev pub label : List ℕ → List ℕ
label number = 0x69 ∷ 0x70 ∷ 0x76 ∷ 0x36 ∷ 0x2d ∷ 0x6c ∷ 0x70 ∷ 0x6d ∷ 0x3a ∷ (number ++ filler)

-- the segment with a zero checksum, and `offset`; `none` where the protocol has no checksum
unfoldable pub segment : ℕ → ℕ → ℕ → List ℕ → Result (Option (List ℕ × ℕ))
unfolding pack
segment protocol identification size payload =
    if protocol == 17
    then (do
      header ← pack (u16 1111 ∷ u16 2222 ∷ u16 (8 + size) ∷ u16 0 ∷ [])
      ok (some (header ++ payload, 6)))
    else if protocol == 6
    then (do
      header ← pack (
          u16 1111
          ∷ u16 2222
          ∷ u32 identification
          ∷ u32 0
          ∷ u8 0x50
          ∷ u8 0x18
          ∷ u16 4096
          ∷ u16 0
          ∷ u16 0
          ∷ [])
      ok (some (header ++ payload, 16)))
    else if protocol == 58
    then (do
      header ← pack (u8 128 ∷ u8 0 ∷ u16 0 ∷ u16 1234 ∷ u16 identification ∷ [])
      ok (some (header ++ payload, 2)))
    else ok none

unfoldable pub with_checksum : ℕ → List ℕ → List ℕ → List ℕ → ℕ → Result (List ℕ)
unfolding pack
with_checksum protocol source target transport offset = do
  tail ← pack (u32 (length transport) ∷ pad 3 ∷ u8 protocol ∷ [])
  value ←
      pack
        (u16 (checksum_value protocol (checksum ((source ++ (target ++ tail)) ++ transport))) ∷ [])
  ok (take offset transport ++ (value ++ drop (offset + 2) transport))

abbrev pub checksummed : ℕ → List ℕ → List ℕ → List ℕ → Option (List ℕ × ℕ) → Result (List ℕ)
checksummed protocol source target payload none = ok payload
checksummed protocol source target payload (some (transport, offset)) =
    with_checksum protocol source target transport offset

unfoldable pub transport_segment : Address → Address → ℕ → ℕ → ℕ → Result (List ℕ)
unfolding segment with_checksum
transport_segment source destination protocol identification size = do
  number ← pack (u16 identification ∷ [])
  let payload = take size (label number)
  unchecked ← segment protocol identification size payload
  checksummed protocol source.packed destination.packed payload unchecked

-- the arguments of `make_frame`; numbers are natural
pub record Request : Type 0 where
  pub prefix : List ℕ
  pub identification : ℕ
  pub sender : ℕ
  pub destination : Address
  pub protocol : ℕ
  pub payload_size : ℕ
  pub hop_limit : ℕ
  pub body : Option (List ℕ)
  pub flow_label : Option ℕ

-- the default arguments
abbrev pub request : List ℕ → ℕ → ℕ → Address → Request
request prefix identification sender destination = record {
  prefix = prefix;
  identification = identification;
  sender = sender;
  destination = destination;
  protocol = 17;
  payload_size = 24;
  hop_limit = 64;
  body = none;
  flow_label = none;
}

abbrev pub bad_request : Request → Bool
bad_request r =
    not (length r.prefix == 4)
    || (is_group r.prefix
        || (not (leb 1 r.identification && leb r.identification 65535)
            || (not (leb 1 r.sender && leb r.sender 3) || ltb 1452 r.payload_size)))

abbrev pub label_of : Option ℕ → ℕ → ℕ
label_of none identification = identification
label_of (some flow_label) identification = flow_label

-- the body that is given, or a transport segment
abbrev pub given_or : Option (List ℕ) → Result (List ℕ) → Result (List ℕ)
given_or none build = build
given_or (some body) build = ok body

unfoldable pub make_frame : Request → Result (List ℕ)
unfolding transport_segment host_address ljust
make_frame r = do
  raise_if (bad_request r) value_error
  let source = host_address r.sender
  body ←
      given_or r.body
        (transport_segment source r.destination r.protocol r.identification r.payload_size)
  raise_if (ltb 1460 (length body)) value_error
  let flow = label_of r.flow_label r.identification
  raise_if (not (ltb flow 1048576)) value_error
  header ← pack (
      u32 (1654652928 + flow)
      ∷ u16 (length body)
      ∷ u8 r.protocol
      ∷ u8 r.hop_limit
      ∷ raw 16 source.packed
      ∷ raw 16 r.destination.packed
      ∷ [])
  number ← pack (u16 r.identification ∷ [])
  ok (
      ljust 60 0xa5
        (r.prefix ++ (0x0a ∷ 0x01 ∷ (r.prefix ++ (number ++ (0x86 ∷ 0xdd ∷ (header ++ body)))))))
