-- ===== src/StaticSwitch/Probes.antt =====
-- `make_probes` of the static L2 switch. A host `h{n}` is modelled by its number n.
-- `allowed` says whether the frame is forwarded, and `receiver` to which host.
use Prim.Native.Nat.{ℕ, ◌%◌, ◌+◌}
use Prim.Native.String.{String}
use mathlib.Core.Bool.{Bool, false, not, true}
use mathlib.Core.List.{List, [], ◌++◌, ◌∷◌}
use mathlib.Core.Option.{Option, none, some}
use p4_cases.L2.Build.{kind_frame}
use p4_cases.L2.Collect.{range}
use p4_cases.L2.Content.{Kind, arp_packet, opaque}
use p4_cases.L2.Datagram.{ipv6_udp}
use p4_cases.L2.Hosts.{
  content_kinds, enumerate, groups, repeats, same_port_kinds, unknown, validate_host_count,
}
use p4_cases.Prelude.Lists.{length}
use p4_cases.Prelude.Result.{Result, for_each, ok, ◌>>=◌, ◌>>◌}
use p4_cases.Prelude.Tests.{if◌then◌else◌, ◌==◌}
use p4_cases.Prelude.Text.{decimal, ◌<>◌}
use p4_cases.StaticSwitch.{host_ip, host_mac, ipv4_udp}
use p4_cases.Wire.Pack.{dotted_packed, pack, u16}

pub record Probe : Type 0 where
  pub name : String
  pub sender : ℕ
  pub receiver : Option ℕ
  pub allowed : Bool
  pub frame : List ℕ

-- `f"h{receiver}" if allowed else None`
abbrev pub receiver_of : Bool → ℕ → Option ℕ
receiver_of allowed receiver = if allowed then some receiver else none

-- `target if destination is None else destination`
abbrev pub destination_of : List ℕ → Option (List ℕ) → List ℕ
destination_of target none = target
destination_of target (some destination) = destination

-- the ARP reply of `add`
unfoldable pub arp_reply : List ℕ → ℕ → ℕ → List ℕ → ℕ → Result (List ℕ)
unfolding pack host_ip dotted_packed arp_packet
arp_reply prefix sender receiver target identification = do
  marker ← pack (u16 (identification % 65536) ∷ [])
  own ← host_ip sender
  from ← dotted_packed own
  peer ← host_ip receiver
  to ← dotted_packed peer
  arp_packet 2 (prefix ++ marker) from target to

-- the nested function `add`. The IPv6 packet that it builds at once is the one that `content` builds
-- again where it is used.
unfoldable pub add :
    List ℕ → String → ℕ → ℕ → Kind → Option (List ℕ) → Bool → List Probe → Result (List Probe)
unfolding host_mac ipv4_udp
add prefix name sender receiver kind destination allowed probes = do
  let identification = length probes + 1
  target ← host_mac receiver
  packet ← ipv4_udp sender receiver identification 64
  packet6 ← ipv6_udp sender receiver identification 64
  frame ←
      kind_frame 4294967296 host_ip prefix sender receiver identification packet
        (destination_of target destination) kind
        (arp_reply prefix sender receiver target identification)
  ok (
      probes
      ++ record {
        name = name;
        sender = sender;
        receiver = receiver_of allowed receiver;
        allowed = allowed;
        frame = frame;
      }
        ∷ [])

-- the probes from `sender` to `receiver`, if it is another host
unfoldable pub add_pair : List ℕ → ℕ → ℕ → ℕ → List Probe → Result (List Probe)
add_pair prefix n_hosts sender receiver probes =
    if receiver == sender
    then ok probes
    else for_each
        (λ repeat.
          add prefix ("pair-" <> decimal sender <> "-" <> decimal receiver <> "-" <> decimal repeat)
            sender receiver opaque none true)
        (range 0 (repeats n_hosts)) probes

unfoldable pub add_content : List ℕ → ℕ → ℕ → Kind × String → List Probe → Result (List Probe)
add_content prefix sender receiver (kind, label) =
    add prefix ("content-" <> decimal sender <> "-" <> label) sender receiver kind none
      (not (receiver == sender))

unfoldable pub add_same_port : List ℕ → ℕ → Kind × String → List Probe → Result (List Probe)
add_same_port prefix sender (kind, label) =
    add prefix ("same-port-" <> decimal sender <> "-" <> label) sender sender kind none false

unfoldable pub add_unmatched : List ℕ → ℕ → ℕ → ℕ × List ℕ → List Probe → Result (List Probe)
add_unmatched prefix sender receiver (index, destination) =
    add prefix ("unmatched-" <> decimal sender <> "-" <> decimal index) sender receiver opaque
      (some destination) false

-- one round of the loop over the senders
unfoldable pub add_sender : List ℕ → ℕ → ℕ → List Probe → Result (List Probe)
unfolding host_mac
add_sender prefix n_hosts sender probes = do
  pairs ← for_each (add_pair prefix n_hosts sender) (range 1 n_hosts) probes
  let receiver = sender % n_hosts + 1
  contents ← for_each (add_content prefix sender receiver) content_kinds pairs
  same ← for_each (add_same_port prefix sender) same_port_kinds contents
  target ← host_mac receiver
  for_each (add_unmatched prefix sender receiver) (enumerate 0 (unknown target ++ groups)) same

unfoldable pub make_probes : List ℕ → ℕ → Result (List Probe)
unfolding validate_host_count
make_probes prefix n_hosts = do
  validate_host_count 254 n_hosts
  for_each (add_sender prefix n_hosts) (range 1 n_hosts) []
