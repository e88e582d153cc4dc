-- ===== src/Ecmp/Frames.antt =====
-- `make_frame` of the ECMP case. A keyword argument is a field of `Request`; sizes and numbers are
-- natural, so that the guard against a negative payload size always passes.
use Prim.Native.Nat.{ℕ, ◌%◌}
use mathlib.Core.Bool.{Bool, not, true, ◌&&◌, ◌||◌}
use mathlib.Core.List.{List, [], ◌++◌, ◌∷◌}
use mathlib.Core.Option.{Option, none, some}
use p4_cases.Ecmp.{host_macs}
use p4_cases.Ip.Transport.{build_transport, filler, seal}
use p4_cases.L2.Datagram.Ipv4.{payload}
use p4_cases.Prelude.Lists.{length, take}
use p4_cases.Prelude.Result.{Result, ok, raise_if, value_error, ◌>>=◌, ◌>>◌}
use p4_cases.Prelude.Tests.{leb, ltb, ◌==◌}
use p4_cases.Wire.Pack.{Dotted, dotted_packed, pack, u16}

pub record Request : Type 0 where
  pub source : List ℕ
  pub destination : Dotted
  pub sender : ℕ
  pub identification : ℕ
  pub protocol : ℕ
  pub sport : ℕ
  pub dport : ℕ
  pub options : List ℕ
  pub tcp_options : List ℕ
  pub payload_size : ℕ
  pub ttl : ℕ
  pub flags : ℕ
  pub transport : Option (List ℕ)
  pub udp_checksum : Bool

-- the default arguments
abbrev pub request : List ℕ → Dotted → ℕ → ℕ → Request
request source destination sender identification = record {
  source = source;
  destination = destination;
  sender = sender;
  identification = identification;
  protocol = 17;
  sport = 1000;
  dport = 5000;
  options = [];
  tcp_options = [];
  payload_size = 24;
  ttl = 64;
  flags = 0;
  transport = none;
  udp_checksum = true;
}

abbrev pub bad_request : Request → Bool
bad_request r =
    not (length r.source == 4)
    || (not (leb 1 r.sender && leb r.sender 3)
        || (not (length r.options % 4 == 0)
            || (ltb 40 (length r.options)
                || (not (length r.tcp_options % 4 == 0) || ltb 40 (length r.tcp_options)))))

-- `b"ecmp:" + struct.pack("!H", identification) + bytes(range(256)) * 6`
abbrev pub label : List ℕ → List ℕ
label number = 0x65 ∷ 0x63 ∷ 0x6d ∷ 0x70 ∷ 0x3a ∷ (number ++ filler)

unfoldable pub payload_of : Request → Result (List ℕ)
unfolding pack
payload_of r = do
  number ← pack (u16 r.identification ∷ [])
  let payload = take r.payload_size (label number)
  raise_if (ltb (length payload) r.payload_size) value_error
  ok payload

-- `transport` where it is given
abbrev pub given_or : Option (List ℕ) → Result (List ℕ) → Result (List ℕ)
given_or none build = build
given_or (some transport) build = ok transport

unfoldable pub make_frame : Request → Result (List ℕ)
unfolding payload_of build_transport host_macs seal
make_frame r = do
  raise_if (bad_request r) value_error
  target ← dotted_packed r.destination
  payload ← payload_of r
  transport ← given_or r.transport (
      build_transport r.protocol r.source target r.sport r.dport r.identification r.tcp_options
        payload r.udp_checksum)
  own ← host_macs r.sender
  seal (own ++ (own ++ (0x08 ∷ 0x00 ∷ []))) r.options transport r.identification r.flags r.ttl
      r.protocol r.source target
