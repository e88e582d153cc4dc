-- ===== src/Lpm/Probes.antt =====
-- `make_probes` of the IPv6 case. The arguments of a call of `add` are a `Call`; its keyword arguments
-- for `make_frame` are the change of the request that they make.
use Prim.Native.Nat.{ℕ, ◌+◌}
use Prim.Native.String.{String}
use mathlib.Core.Bool.{Bool, false, true}
use mathlib.Core.List.{List, [], map, ◌++◌, ◌∷◌}
use mathlib.Core.Option.{Option, none, some}
use p4_cases.Lpm.{expected_host, network}
use p4_cases.Lpm.Frames.{Address, Request, host_address, make_frame, request}
use p4_cases.Prelude.Lists.{flat_map, length, replicate}
use p4_cases.Prelude.Result.{Result, err, ok, value_error, ◌>>=◌}
use p4_cases.Prelude.Tests.{if◌then◌else◌, ◌==◌}
use p4_cases.Prelude.Text.{decimal, ◌<>◌}
use p4_cases.Wire.Bytes.{splice}

pub record Probe : Type 0 where
  pub name : String
  pub sender : ℕ
  pub receiver : Option ℕ
  pub allowed : Bool
  pub frame : List ℕ

pub record Call : Type 0 where
  pub name : String
  pub sender : ℕ
  pub destination : Address
  pub allowed : Bool
  pub transform : List ℕ → Result (List ℕ)
  pub arguments : Request → Request

-- `2001:db8:{number}::1` with the number 2
abbrev pub peer : Address
peer = record { text = "2001:db8:2::1"; packed = network 2 ++ (replicate 7 0 ++ (1 ∷ [])) }

-- the default arguments of `add`; no transformation is the one that returns its frame
abbrev pub call : String → ℕ → Call
call name sender = record {
  name = name;
  sender = sender;
  destination = peer;
  allowed = true;
  transform = ok;
  arguments = λ r. r;
}

-- `expected_host(destination) if allowed else None`, which must exist
abbrev pub receiver_of : Bool → Option ℕ → Result (Option ℕ)
receiver_of false host = ok none
receiver_of true none = err value_error
receiver_of true (some host) = ok (some host)

unfoldable pub add : List ℕ → Call → List Probe → Result (List Probe)
unfolding make_frame expected_host
add prefix c probes = do
  made ← make_frame (c.arguments (request prefix (length probes + 1) c.sender c.destination))
  frame ← c.transform made
  receiver ← receiver_of c.allowed (expected_host c.destination.packed)
  ok (
      probes
      ++ record {
        name = c.name;
        sender = c.sender;
        receiver = receiver;
        allowed = c.allowed;
        frame = frame;
      }
        ∷ [])

-- `replace(offset, value)`
abbrev pub replace : ℕ → List ℕ → List ℕ → Result (List ℕ)
replace offset value frame = ok (splice offset (offset + length value) value frame)

abbrev pub numbers : List ℕ
numbers = 1 ∷ 2 ∷ 3 ∷ []

-- `2001:db8:3::{last}`, given with the text of its last group
abbrev pub third : String → ℕ → Address
third text last = record {
  text = "2001:db8:3::" <> text;
  packed = network 3 ++ (replicate 7 0 ++ (last ∷ []));
}

unfoldable pub pair_calls : ℕ → List Call
unfolding flat_map decimal
pair_calls sender =
    flat_map
      (λ receiver.
        if receiver == sender
        then []
        else flat_map
            (λ protocol.
              map
                (λ repeat.
                  record (call
                    ("pair-"
                      <> (decimal sender
                          <> ("-"
                              <> (decimal receiver
                                  <> ("-" <> (decimal protocol <> ("-" <> decimal repeat)))))))
                    sender) {
                      destination = host_address receiver;
                      arguments = λ r. record r { protocol = protocol; payload_size = 23 + repeat };
                    })
                (0 ∷ 1 ∷ []))
            (17 ∷ 6 ∷ 58 ∷ []))
      numbers

unfoldable pub lpm_calls : ℕ → List Call
unfolding flat_map decimal
lpm_calls sender =
    flat_map
      (λ destination.
        map
          (λ protocol.
            record (call
              ("lpm-"
                <> (decimal sender <> ("-" <> (destination.text <> ("-" <> decimal protocol)))))
              sender) {
                destination = destination;
                arguments = λ r. record r { protocol = protocol };
              })
          (17 ∷ 6 ∷ 58 ∷ 253 ∷ []))
      (third "41" 0x41 ∷ third "42" 0x42 ∷ third "43" 0x43 ∷ [])

-- `subnet.network_address` and `subnet.broadcast_address`
abbrev pub boundaries : ℕ → List Address
boundaries number =
    record {
      text = "2001:db8:" <> (decimal number <> "::");
      packed = network number ++ replicate 8 0;
    }
    ∷ record {
      text = "2001:db8:" <> (decimal number <> ":0:ffff:ffff:ffff:ffff");
      packed = network number ++ replicate 8 255;
    }
    ∷ []

unfoldable pub boundary_calls : ℕ → List Call
unfolding flat_map decimal
boundary_calls sender =
    flat_map
      (λ number.
        map
          (λ destination.
            record (call ("boundary-" <> (decimal sender <> ("-" <> destination.text))) sender) {
              destination = destination;
            })
          (boundaries number))
      numbers

unfoldable pub size_calls : ℕ → List Call
unfolding decimal
size_calls sender =
    map
      (λ size. record (call ("udp-size-" <> (decimal sender <> ("-" <> decimal size))) sender) {
        arguments = λ r. record r { payload_size = size };
      })
      (0 ∷ 1 ∷ 127 ∷ 1452 ∷ [])
    ++ map
        (λ limit. record (call ("hop-" <> (decimal sender <> ("-" <> decimal limit))) sender) {
          arguments = λ r. record r { hop_limit = limit };
        })
        (2 ∷ 255 ∷ [])

-- `b"opaque trailer"`
abbrev pub trailer : List ℕ
trailer =
    0x6f ∷ 0x70 ∷ 0x61 ∷ 0x71 ∷ 0x75 ∷ 0x65 ∷ 0x20 ∷ 0x74 ∷ 0x72 ∷ 0x61 ∷ 0x69 ∷ 0x6c ∷ 0x65 ∷ 0x72
    ∷ []

unfoldable pub opaque_calls : ℕ → List Call
unfolding decimal
opaque_calls sender =
    record (call ("no-next-empty-" <> decimal sender) sender) {
      arguments = λ r. record r { protocol = 59; body = some [] };
    }
    ∷ record (call ("no-next-body-" <> decimal sender) sender) {
      arguments = λ r. record r { protocol = 59; body = some trailer };
    }
    ∷ record (call ("unknown-next-" <> decimal sender) sender) {
      arguments = λ r. record r { protocol = 253; payload_size = 33 };
    }
    ∷ []
