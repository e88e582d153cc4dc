-- ===== src/Firewall/Vectors.antt =====
-- `test_vectors` of 10_firewall_acl/topology.py. A host `h{n}` is its number.
use Prim.Native.Nat.{ℕ, ◌+◌}
use Prim.Native.String.{String}
use mathlib.Core.Bool.{Bool, false, not, true}
use mathlib.Core.List.{List, [], map, ◌++◌, ◌∷◌}
use p4_cases.Firewall.{
  Fault, Protocol, arp, bad_version, icmp, long_total, make_frame, no_fault, short_ihl, short_tcp,
  short_total, short_udp, tcp, truncated_ip, truncated_options, udp,
}
use p4_cases.L2.Collect.{range}
use p4_cases.L2.Hosts.{mac}
use p4_cases.Prelude.Lists.{flat_map, length, replicate}
use p4_cases.Prelude.Result.{Result, for_each, ok, raise_if, value_error, ◌>>=◌, ◌>>◌}
use p4_cases.Prelude.Tests.{if◌then◌else◌, ◌==◌}
use p4_cases.Prelude.Text.{decimal, ◌<>◌}
use p4_cases.Wire.Bytes.{be16}
use p4_cases.Wire.Pack.{Dotted, to_bytes2}

pub record Probe : Type 0 where
  pub name : String
  pub sender : ℕ
  pub receiver : ℕ
  pub allowed : Bool
  pub frames : List (List ℕ)

-- the arguments of `add`
pub record Call : Type 0 where
  pub name : String
  pub sender : ℕ
  pub protocol : Protocol
  pub dport : ℕ
  pub options : List ℕ
  pub allowed : Bool
  pub fault : Fault
  pub flags : ℕ
  pub offset : ℕ

-- the default arguments of `add`
abbrev pub call : String → ℕ → Protocol → ℕ → Call
call name sender protocol dport = record {
  name = name;
  sender = sender;
  protocol = protocol;
  dport = dport;
  options = [];
  allowed = true;
  fault = no_fault;
  flags = 0;
  offset = 0;
}

-- `"h2" if sender == "h1" else "h1"`
abbrev pub receiver_of : ℕ → ℕ
receiver_of sender = if sender == 1 then 2 else 1

abbrev pub src_ip_of : ℕ → Dotted
src_ip_of sender = record { a = 10; b = 0; c = 0; d = if sender == 1 then 1 else 2 }

abbrev pub dst_ip_of : ℕ → Dotted
dst_ip_of receiver = record { a = 10; b = 0; c = 0; d = if receiver == 2 then 2 else 1 }

abbrev pub dst_mac_of : ℕ → List ℕ
dst_mac_of receiver = if receiver == 2 then mac 2 else mac 1

-- one round of `for _ in range(5)`, on the sequence number and the frames
unfoldable pub add_frame : List ℕ → Call → ℕ → ℕ × List (List ℕ) → Result (ℕ × List (List ℕ))
unfolding make_frame to_bytes2
add_frame prefix c round (sequence, frames) = do
  number ← to_bytes2 (sequence + 1)
  frame ← make_frame (record {
    src_mac = prefix ++ number;
    dst_mac = dst_mac_of (receiver_of c.sender);
    src_ip = src_ip_of c.sender;
    dst_ip = dst_ip_of (receiver_of c.sender);
    protocol = c.protocol;
    dport = c.dport;
    options = c.options;
    sequence = sequence + 1;
    fault = c.fault;
    flags = c.flags;
    offset = c.offset;
  })
  ok (sequence + 1, frames ++ frame ∷ [])

unfoldable pub add : List ℕ → Call → ℕ × List Probe → Result (ℕ × List Probe)
unfolding add_frame range
add prefix c (sequence, probes) = do
  (sequence', frames) ← for_each (add_frame prefix c) (range 0 5) (sequence, [])
  ok (
    sequence',
    probes
        ++ record {
          name = c.name;
          sender = c.sender;
          receiver = receiver_of c.sender;
          allowed = c.allowed;
          frames = frames;
        }
          ∷ [],
  )

-- `proto.lower()`
abbrev pub lower : Protocol → String
lower tcp = "tcp"
lower udp = "udp"
lower icmp = "icmp"
lower arp = "arp"

-- a tuple of `flows`, with its value of `misleading`
pub record Flow : Type 0 where
  pub protocol : Protocol
  pub port : ℕ
  pub allowed : Bool
  pub misleading : ℕ

abbrev pub flows : List Flow
flows =
    record { protocol = tcp; port = 80; allowed = true; misleading = 22 }
    ∷ record { protocol = tcp; port = 22; allowed = false; misleading = 80 }
    ∷ record { protocol = udp; port = 5000; allowed = false; misleading = 1234 }
    ∷ record { protocol = udp; port = 1234; allowed = true; misleading = 5000 }
    ∷ []

-- `f"h{sender}-{proto.lower()}{port}-{shape}"`
abbrev pub flow_call : ℕ → Flow → Bool → String × List ℕ → Call
flow_call sender f allowed (shape, options) =
    record (call
      ("h" <> (decimal sender <> ("-" <> (lower f.protocol <> (decimal f.port <> ("-" <> shape))))))
      sender f.protocol f.port) { options = options; allowed = allowed }

-- `shapes`; `misleading.to_bytes(2, "big")` is of a port
abbrev pub shapes : Flow → List (String × List ℕ)
shapes f =
    ("plain", [])
    ∷ ("options4", replicate 4 1)
    ∷ ("options40", replicate 40 1)
    ∷ ("port-like-options", 0x94 ∷ 0x04 ∷ be16 f.misleading)
    ∷ []

unfoldable pub flow_calls : Flow → List Call
unfolding decimal
flow_calls f =
    map (flow_call 1 f f.allowed) (shapes f)
    ++ map (flow_call 2 f true) (("plain", []) ∷ ("options40", replicate 40 1) ∷ [])

-- one round of `for fault in (...)`, with its protocol and options
abbrev pub faulty : String → Fault → Protocol → List ℕ → Call
faulty name fault protocol options =
    record (call name 1 protocol (elim protocol [ udp ↦ 1234 | _ ↦ 80 ])) {
      options = options;
      allowed = false;
      fault = fault;
    }

abbrev pub fault_calls : List Call
fault_calls =
    faulty "bad-version" bad_version tcp []
    ∷ faulty "short-ihl" short_ihl tcp []
    ∷ faulty "short-total" short_total tcp (replicate 40 1)
    ∷ faulty "long-total" long_total tcp []
    ∷ faulty "truncated-ip" truncated_ip tcp []
    ∷ faulty "truncated-options" truncated_options tcp (replicate 40 1)
    ∷ faulty "short-tcp" short_tcp tcp []
    ∷ faulty "short-udp" short_udp udp []
    ∷ []

abbrev pub fragment_calls : Protocol × ℕ → List Call
fragment_calls (protocol, port) =
    record (call (lower protocol <> "-first-fragment") 1 protocol port) {
      allowed = false;
      flags = 1;
    }
    ∷ record (call (lower protocol <> "-later-fragment") 1 protocol port) {
      allowed = false;
      offset = 1;
    }
    ∷ []

abbrev pub single_calls : List Call
single_calls =
    call "icmp-plain" 1 icmp 0
    ∷ record (call "icmp-options40" 1 icmp 0) { options = replicate 40 1 }
    ∷ call "arp" 1 arp 0
    ∷ record (call "tcp-dont-fragment" 1 tcp 80) { flags = 2 }
    ∷ []

unfoldable pub test_vectors : List ℕ → Result (List Probe)
unfolding add flow_calls flat_map
test_vectors prefix = do
  raise_if (not (length prefix == 4)) value_error
  (sequence, probes) ←
      for_each (add prefix)
        (flat_map flow_calls flows
          ++ (single_calls
              ++ (fault_calls ++ flat_map fragment_calls ((tcp, 80) ∷ (udp, 1234) ∷ []))))
        (0, [])
  ok probes
