-- ===== src/Registers/Frames.antt =====
-- `make_frame` of the register case. A keyword argument is a field of `Request`; sizes and numbers
-- are natural.
use Prim.Native.Nat.{ℕ, ◌%◌, ◌-◌}
use mathlib.Core.Bool.{Bool, not, true, ◌&&◌, ◌||◌}
use mathlib.Core.List.{List, [], ◌++◌, ◌∷◌}
use mathlib.Core.Option.{Option, none, some}
use p4_cases.Ip.Transport.{build_transport, filler, seal}
use p4_cases.L2.Hosts.{mac}
use p4_cases.Prelude.Lists.{length, take}
use p4_cases.Prelude.Result.{Result, ok, raise_if, value_error, ◌>>=◌, ◌>>◌}
use p4_cases.Prelude.Tests.{leb, ltb, ◌==◌}
use p4_cases.Wire.Pack.{Dotted, dotted_packed, pack, u16}

pub record Request : Type 0 where
  pub prefix : List ℕ
  pub identification : ℕ
  pub sender : ℕ
  pub source : Option Dotted
  pub destination : Option Dotted
  pub sport : ℕ
  pub dport : ℕ
  pub options : List ℕ
  pub payload_size : ℕ
  pub protocol : ℕ
  pub ttl : ℕ
  pub flags : ℕ
  pub transport : Option (List ℕ)
  pub udp_checksum : Bool
  pub datagram_id : Option ℕ

-- the default arguments
abbrev pub request : List ℕ → ℕ → ℕ → Request
request prefix identification sender = record {
  prefix = prefix;
  identification = identification;
  sender = sender;
  source = none;
  destination = none;
  sport = 1111;
  dport = 2222;
  options = [];
  payload_size = 24;
  protocol = 17;
  ttl = 64;
  flags = 0;
  transport = none;
  udp_checksum = true;
  datagram_id = none;
}

abbrev pub bad_request : Request → Bool
bad_request r =
    not (length r.prefix == 4)
    || (not (leb 1 r.sender && leb r.sender 2)
        || (not (length r.options % 4 == 0)
            || (ltb 40 (length r.options) || ltb 1472 r.payload_size)))

-- `given or default`, and `default if given is None else given`
abbrev pub or_default {ℓ} : {A : Type ℓ} → Option A → A → A
or_default none a = a
or_default (some b) a = b

-- `10.0.0.{number}`
abbrev pub host_ip : ℕ → Dotted
host_ip number = record { a = 10; b = 0; c = 0; d = number }

-- `b"register:" + struct.pack("!H", identification) + bytes(range(256)) * 6`
abbrev pub label : List ℕ → List ℕ
label number = 0x72 ∷ 0x65 ∷ 0x67 ∷ 0x69 ∷ 0x73 ∷ 0x74 ∷ 0x65 ∷ 0x72 ∷ 0x3a ∷ (number ++ filler)

-- `transport` where it is given
abbrev pub given_or : Option (List ℕ) → Result (List ℕ) → Result (List ℕ)
given_or none build = build
given_or (some transport) build = ok transport

unfoldable pub make_frame : Request → Result (List ℕ)
unfolding build_transport dotted_packed pack seal
make_frame r = do
  raise_if (bad_request r) value_error
  source ← dotted_packed (or_default r.source (host_ip r.sender))
  target ← dotted_packed (or_default r.destination (host_ip (3 - r.sender)))
  number ← pack (u16 r.identification ∷ [])
  let payload = take r.payload_size (label number)
  transport ← given_or r.transport (
      build_transport r.protocol source target r.sport r.dport r.identification [] payload
        r.udp_checksum)
  seal (mac (3 - r.sender) ++ (r.prefix ++ (number ++ (0x08 ∷ 0x00 ∷ [])))) r.options transport
      (or_default r.datagram_id r.identification) r.flags r.ttl r.protocol source target
