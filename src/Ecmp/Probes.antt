-- ===== src/Ecmp/Probes.antt =====
-- `make_probes` of the ECMP case. The arguments of a call of `add` are a `Call`; its keyword
-- arguments for `make_frame` are the change of the request that they make.
use Prim.Native.Nat.{ℕ, ◌*◌, ◌+◌}
use Prim.Native.String.{String}
use mathlib.Core.Bool.{Bool, false, true, ◌&&◌}
use mathlib.Core.List.{List, [], map, ◌++◌, ◌∷◌}
use mathlib.Core.Option.{Option, none, some}
use p4_cases.Ecmp.{expected_host}
use p4_cases.Ecmp.Frames.{Request, make_frame, request}
use p4_cases.L2.Collect.{range}
use p4_cases.Prelude.Lists.{flat_map, length, replicate}
use p4_cases.Prelude.Result.{Result, ok, ◌>>=◌}
use p4_cases.Prelude.Tests.{if◌then◌else◌, ◌==◌}
use p4_cases.Prelude.Text.{decimal, ◌<>◌}
use p4_cases.Wire.Pack.{Dotted}

pub record Probe : Type 0 where
  pub name : String
  pub sender : ℕ
  pub receiver : Option ℕ
  pub allowed : Bool
  pub frame : List ℕ

pub record Call : Type 0 where
  pub name : String
  pub sender : ℕ
  pub destination : Dotted
  pub source : Option (List ℕ)
  pub allowed : Bool
  pub transform : List ℕ → Result (List ℕ)
  pub identification : Option ℕ
  pub arguments : Request → Request

-- `10.0.0.{number}`
abbrev pub subnet_ip : ℕ → Dotted
subnet_ip number = record { a = 10; b = 0; c = 0; d = number }

-- the default arguments of `add`; no transformation is the one that returns its frame
abbrev pub call : String → Call
call name = record {
  name = name;
  sender = 1;
  destination = subnet_ip 100;
  source = none;
  allowed = true;
  transform = ok;
  identification = none;
  arguments = λ r. r;
}

abbrev pub or_default {ℓ} : {A : Type ℓ} → Option A → A → A
or_default none a = a
or_default (some b) a = b

-- `expected_host(frame) if allowed else None`
abbrev pub receiver_of : Bool → List ℕ → Result (Option ℕ)
receiver_of false frame = ok none
receiver_of true frame = expected_host frame >>= λ host. ok (some host)

unfoldable pub add : List ℕ → Call → List Probe → Result (List Probe)
unfolding make_frame
add prefix c probes = do
  made ← make_frame (
      c.arguments (
        request (or_default c.source (prefix ++ 0x4d ∷ [])) c.destination c.sender
          (or_default c.identification (length probes + 1))))
  frame ← c.transform made
  receiver ← receiver_of c.allowed frame
  ok (
      probes
      ++ record {
        name = c.name;
        sender = c.sender;
        receiver = receiver;
        allowed = c.allowed;
        frame = frame;
      }
        ∷ [])

abbrev pub numbers : List ℕ
numbers = 1 ∷ 2 ∷ 3 ∷ []

-- `for sender in HOST_MACS: for receiver in HOST_MACS: if sender != receiver: ...`
unfoldable pub direct_calls : ℕ → List Call
unfolding flat_map decimal
direct_calls protocol =
    flat_map
      (λ sender.
        flat_map
          (λ receiver.
            if sender == receiver
            then []
            else record (call (
                "direct-"
                <> (decimal protocol
                    <> ("-h" <> (decimal sender <> ("-h" <> decimal receiver)))))) {
                      sender = sender;
                      destination = subnet_ip receiver;
                      arguments = λ r. record r { protocol = protocol };
                    }
              ∷ [])
          numbers)
      numbers

-- the rounds of `for repeat in range(3)`: the options and the payload size
abbrev pub rounds : List (ℕ × List ℕ × ℕ)
rounds = (0, [], 24) ∷ (1, replicate 4 1, 127) ∷ (2, replicate 40 1, 1376) ∷ []

abbrev pub flow_call : ℕ → ℕ → ℕ × List ℕ × ℕ → Call
flow_call protocol flow (repeat, options, payload_size) =
    record (call
      ("ecmp-" <> (decimal protocol <> ("-" <> (decimal flow <> ("-" <> decimal repeat)))))) {
        sender = repeat + 1;
        arguments = λ r. record r {
          protocol = protocol;
          sport = 1000 + flow;
          options = options;
          tcp_options = if repeat == 2 && protocol == 6 then replicate 4 1 else [];
          payload_size = payload_size;
          ttl = 64 + repeat;
        };
      }

unfoldable pub flow_calls : ℕ → ℕ → List Call
unfolding flat_map decimal range
flow_calls protocol n_flows =
    flat_map (λ flow. map (flow_call protocol flow) rounds) (range 0 n_flows)

pub data TupleField : Type 0 where
  source_field destination_field sport_field dport_field : TupleField

abbrev pub field_name : TupleField → String
field_name source_field = "source"
field_name destination_field = "destination"
field_name sport_field = "sport"
field_name dport_field = "dport"

-- `**{field: changed[field]}`
abbrev pub changed : List ℕ → ℕ → TupleField → Call → Call
changed prefix value source_field c = record c { source = some (prefix ++ (value + 80) ∷ []) }
changed prefix value destination_field c = record c { destination = subnet_ip (value + 100) }
changed prefix value sport_field c = record c {
  arguments = λ r. record (c.arguments r) { sport = value + 2000 };
}
changed prefix value dport_field c = record c {
  arguments = λ r. record (c.arguments r) { dport = value + 6000 };
}

unfoldable pub tuple_calls : List ℕ → ℕ → List Call
unfolding flat_map decimal range
tuple_calls prefix protocol =
    flat_map
      (λ field.
        map
          (λ value.
            changed prefix value field
              (record (call (
                "tuple-"
                <> (decimal protocol <> ("-" <> (field_name field <> ("-" <> decimal value)))))) {
                  arguments = λ r. record r { protocol = protocol };
                }))
          (range 0 8))
      (source_field ∷ destination_field ∷ sport_field ∷ dport_field ∷ [])

abbrev pub opaque_call : ℕ → ℕ → Call
opaque_call protocol repeat =
    record (call ("opaque-" <> (decimal protocol <> ("-" <> decimal repeat)))) {
      arguments = λ r. record r {
        protocol = protocol;
        transport = some (replicate (16 + repeat * 8) (repeat + 1));
        options = replicate (4 * repeat) 1;
      };
    }

unfoldable pub opaque_calls : List Call
unfolding flat_map decimal range
opaque_calls = flat_map (λ protocol. map (opaque_call protocol) (range 0 3)) (1 ∷ 253 ∷ [])
