-- ===== src/Registers/Batches.antt =====
-- `add` of `make_batches` and the batches of valid flows. The arguments of a call of `add` are a
-- `Call`; its keyword arguments for `make_frame` are the change of the request that they make.
use Prim.Native.Nat.{ℕ, ◌%◌, ◌*◌, ◌+◌, ◌-◌}
use Prim.Native.String.{String}
use mathlib.Core.Bool.{Bool, false, true}
use mathlib.Core.List.{List, [], map, ◌++◌, ◌∷◌}
use mathlib.Core.Option.{some}
use p4_cases.L2.Collect.{range}
use p4_cases.Prelude.Lists.{flat_map, replicate}
use p4_cases.Prelude.Result.{Result, for_each, ok, ◌>>=◌}
use p4_cases.Prelude.Tests.{if◌then◌else◌, ◌==◌}
use p4_cases.Prelude.Text.{decimal, ◌<>◌}
use p4_cases.Registers.{Probe}
use p4_cases.Registers.Frames.{Request, host_ip, make_frame, request}
use p4_cases.Registers.Ports.{ports_for_slot}

pub record Call : Type 0 where
  pub name : String
  pub sender : ℕ
  pub allowed : Bool
  pub counted : Bool
  pub transform : List ℕ → Result (List ℕ)
  pub arguments : Request → Request

-- the default arguments of `add`; no transformation is the one that returns its frame
abbrev pub call : String → ℕ → Call
call name sender = record {
  name = name;
  sender = sender;
  allowed = true;
  counted = true;
  transform = ok;
  arguments = λ r. r;
}

-- on the sequence number and the batch
unfoldable pub add : List ℕ → Call → ℕ × List Probe → Result (ℕ × List Probe)
unfolding make_frame
add prefix c (sequence, batch) = do
  made ← make_frame (c.arguments (request prefix (sequence + 1) c.sender))
  frame ← c.transform made
  ok (
    sequence + 1,
    batch
        ++ record {
          name = c.name;
          frame = frame;
          sender = c.sender;
          receiver = 3 - c.sender;
          allowed = c.allowed;
          counted = c.counted;
        }
          ∷ [],
  )

-- `h{sender}-{text}{number}`
abbrev pub numbered : ℕ → String → ℕ → String
numbered sender text number = "h" <> (decimal sender <> (text <> decimal number))

-- `(b"", b"\x01" * 4, b"\x01" * 40)[repeat % 3]` and `(24, 127, 1024)[repeat % 3]`
abbrev pub round_options : ℕ → List ℕ
round_options repeat =
    if repeat % 3 == 0 then [] else if repeat % 3 == 1 then replicate 4 1 else replicate 40 1

abbrev pub round_size : ℕ → ℕ
round_size repeat = if repeat % 3 == 0 then 24 else if repeat % 3 == 1 then 127 else 1024

unfoldable pub repeated_calls : ℕ → List Call
unfolding decimal range
repeated_calls sender =
    map
      (λ repeat. record (call (numbered sender "-repeated-" repeat) sender) {
        arguments =
            λ r. record r { options = round_options repeat; payload_size = round_size repeat };
      })
      (range 0 30)

pub data TupleField : Type 0 where
  source_field destination_field sport_field dport_field : TupleField

abbrev pub field_name : TupleField → String
field_name source_field = "-source-"
field_name destination_field = "-destination-"
field_name sport_field = "-sport-"
field_name dport_field = "-dport-"

-- `**{field: changed[field]}`
abbrev pub changed : ℕ → TupleField → Request → Request
changed value source_field r = record r {
  source = some (record { a = 192; b = 0; c = 2; d = value + 10 });
}
changed value destination_field r = record r {
  destination = some (record { a = 198; b = 51; c = 100; d = value + 10 });
}
changed value sport_field r = record r { sport = value + 3000 }
changed value dport_field r = record r { dport = value + 4000 }

unfoldable pub tuple_calls : ℕ → List Call
unfolding flat_map decimal range
tuple_calls sender =
    flat_map
      (λ field.
        map
          (λ value. record (call (numbered sender (field_name field) value) sender) {
            arguments = λ r. changed value field (record r { options = replicate 4 1 });
          })
          (range 0 4))
      (source_field ∷ destination_field ∷ sport_field ∷ dport_field ∷ [])

unfoldable pub other_calls : ℕ → List Call
unfolding decimal
other_calls sender =
    record (call (numbered sender "-udp-size-" 0) sender) {
      arguments = λ r. record r { payload_size = 0 };
    }
    ∷ record (call (numbered sender "-udp-size-" 1472) sender) {
      arguments = λ r. record r { payload_size = 1472 };
    }
    ∷ record (call ("h" <> (decimal sender <> "-udp-zero-checksum")) sender) {
      arguments = λ r. record r { udp_checksum = false };
    }
    ∷ record (call ("h" <> (decimal sender <> "-dont-fragment")) sender) {
      arguments = λ r. record r { flags = 0x4000 };
    }
    ∷ record (call (numbered sender "-ttl-" 0) sender) { arguments = λ r. record r { ttl = 0 } }
    ∷ record (call (numbered sender "-ttl-" 1) sender) { arguments = λ r. record r { ttl = 1 } }
    ∷ []

-- the batch `udp-flows`
unfoldable pub flow_calls : List Call
unfolding flat_map repeated_calls tuple_calls other_calls
flow_calls =
    flat_map (λ sender. repeated_calls sender ++ (tuple_calls sender ++ other_calls sender))
      (1 ∷ 2 ∷ [])

abbrev pub collision_call : ℕ → ℕ → ℕ → ℕ → Call
collision_call sender target port repeat =
    record (call
      ("slot-" <> (decimal target <> ("-port-" <> (decimal port <> ("-" <> decimal repeat)))))
      sender) {
        arguments = λ r. record r { sport = port; options = replicate (4 * (repeat % 3)) 1 };
      }

-- `for port, count in zip(ports, sizes): for repeat in range(count)`, for two ports
abbrev pub port_calls : ℕ → ℕ → List ℕ → List ℕ → List Call
port_calls sender target (port ∷ ports) (count ∷ sizes) =
    map (collision_call sender target port) (range 0 count) ++ port_calls sender target ports sizes
port_calls sender target [] sizes = []
port_calls sender target (port ∷ ports) [] = []

-- one round of `for sender, target, sizes in ...`
unfoldable pub add_collisions : List ℕ → ℕ × ℕ × List ℕ → ℕ × List Probe → Result (ℕ × List Probe)
unfolding add ports_for_slot decimal range
add_collisions prefix (sender, target, sizes) state = do
  ports ← ports_for_slot (host_ip sender) (host_ip (3 - sender)) target
  for_each (add prefix) (port_calls sender target ports sizes) state

abbrev pub collision_rounds : List (ℕ × ℕ × List ℕ)
collision_rounds = (1, 1023, 7 ∷ 11 ∷ []) ∷ (2, 0, 5 ∷ 9 ∷ []) ∷ []

unfoldable pub wrapping_calls : ℕ → List Call
unfolding flat_map decimal range
wrapping_calls port =
    flat_map
      (λ sender.
        map
          (λ repeat. record (call (numbered sender "-wrap-" repeat) sender) {
            arguments = λ r. record r {
              source = some (host_ip 1);
              destination = some (host_ip 2);
              sport = port;
              options = replicate (4 * (repeat % 3)) 1;
            };
          })
          (range 0 16))
      (1 ∷ 2 ∷ [])
