-- ===== src/BroadcastSwitch/Probes.antt =====
-- `make_probes` of the L2 broadcast switch. A host `h{n}` is modelled by its number n.
use Prim.Native.Nat.{ℕ, ◌%◌, ◌+◌}
use Prim.Native.String.{String}
use mathlib.Core.Bool.{Bool, false, true}
use mathlib.Core.List.{List, [], ◌++◌, ◌∷◌}
use mathlib.Core.Option.{Option, none, some}
use p4_cases.BroadcastSwitch.{host_ip, host_mac, ipv4_udp}
use p4_cases.L2.Build.{kind_frame}
use p4_cases.L2.Collect.{range}
use p4_cases.L2.Content.{Kind, arp_packet, opaque}
use p4_cases.L2.Datagram.{ipv6_udp}
use p4_cases.L2.Hosts.{
  content_kinds, enumerate, groups, repeats, same_port_kinds, unknown, validate_host_count,
}
use p4_cases.Prelude.Lists.{drop, length, replicate}
use p4_cases.Prelude.Result.{Result, for_each, ok, ◌>>=◌, ◌>>◌}
use p4_cases.Prelude.Tests.{if◌then◌else◌, ◌==◌}
use p4_cases.Prelude.Text.{decimal, ◌<>◌}
use p4_cases.Wire.Pack.{ipv4_packed, pack, u16}

pub record Probe : Type 0 where
  pub name : String
  pub sender : ℕ
  pub receivers : List ℕ
  pub flooded : Bool
  pub frame : List ℕ

-- `target if destination is None else destination`
abbrev pub destination_of : List ℕ → Option (List ℕ) → List ℕ
destination_of target none = target
destination_of target (some destination) = destination

-- `[f"h{number}" for number in numbers if number != sender]`
unfoldable pub others : ℕ → List ℕ → List ℕ
others sender [] = []
others sender (number ∷ numbers) =
    let rest = others sender numbers in if number == sender then rest else number ∷ rest

-- the `receivers` of `add`
unfoldable pub receivers_of : ℕ → ℕ → ℕ → Bool → List ℕ
receivers_of n_hosts sender receiver flooded =
    if flooded
    then others sender (range 1 n_hosts)
    else if receiver == sender
    then []
    else receiver ∷ []

-- the ARP packet of `add`: a request where it is flooded, else a reply
unfoldable pub arp_body : List ℕ → ℕ → ℕ → List ℕ → Bool → ℕ → Result (List ℕ)
unfolding pack ipv4_packed arp_packet
arp_body prefix sender receiver target flooded identification = do
  marker ← pack (u16 (identification % 65536) ∷ [])
  from ← ipv4_packed 198 18 0 sender
  to ← ipv4_packed 198 18 1 receiver
  arp_packet (if flooded then 1 else 2) (prefix ++ marker) from
      (if flooded then replicate 6 0 else target) to

-- the nested function `add`. The IPv6 packet that it builds at once is the one that `content` builds
-- again where it is used.
unfoldable pub add :
    List ℕ → ℕ → String → ℕ → ℕ → Kind → Option (List ℕ) → Bool → List Probe → Result (List Probe)
unfolding host_mac ipv4_udp
add prefix n_hosts name sender receiver kind destination flooded probes = do
  let identification = length probes + 1
  target ← host_mac receiver
  packet ← ipv4_udp sender receiver identification 64
  packet6 ← ipv6_udp sender receiver identification 64
  frame ←
      kind_frame 4294967296 host_ip prefix sender receiver identification packet
        (destination_of target destination) kind
        (arp_body prefix sender receiver target flooded identification)
  ok (
      probes
      ++ record {
        name = name;
        sender = sender;
        receivers = receivers_of n_hosts sender receiver flooded;
        flooded = flooded;
        frame = frame;
      }
        ∷ [])

-- the probes from `sender` to `receiver`, if it is another host
unfoldable pub add_pair : List ℕ → ℕ → ℕ → ℕ → List Probe → Result (List Probe)
add_pair prefix n_hosts sender receiver probes =
    if receiver == sender
    then ok probes
    else for_each
        (λ repeat.
          add prefix n_hosts
            ("pair-" <> decimal sender <> "-" <> decimal receiver <> "-" <> decimal repeat) sender
            receiver opaque none false)
        (range 0 (repeats n_hosts)) probes

unfoldable pub add_content : List ℕ → ℕ → ℕ → ℕ → Kind × String → List Probe → Result (List Probe)
add_content prefix n_hosts sender receiver (kind, label) =
    add prefix n_hosts ("content-" <> decimal sender <> "-" <> label) sender receiver kind none
      false

unfoldable pub add_same_port : List ℕ → ℕ → ℕ → Kind × String → List Probe → Result (List Probe)
add_same_port prefix n_hosts sender (kind, label) =
    add prefix n_hosts ("same-port-" <> decimal sender <> "-" <> label) sender sender kind none
      false

unfoldable pub add_unmatched : List ℕ → ℕ → ℕ → ℕ → ℕ × List ℕ → List Probe → Result (List Probe)
add_unmatched prefix n_hosts sender receiver (index, destination) =
    add prefix n_hosts ("unmatched-" <> decimal sender <> "-" <> decimal index) sender receiver
      opaque (some destination) true

abbrev pub flood_labels : List ℕ → List (String × List ℕ)
flood_labels target =
    ("unknown", 2 ∷ drop 1 target)
    ∷ ("broadcast", replicate 6 255)
    ∷ ("ipv4-multicast", 0x01 ∷ 0x00 ∷ 0x5e ∷ 0x00 ∷ 0x00 ∷ 0x01 ∷ [])
    ∷ ("ipv6-multicast", 0x33 ∷ 0x33 ∷ 0x00 ∷ 0x00 ∷ 0x00 ∷ 0x01 ∷ [])
    ∷ []

-- every kind of content to one flooded destination
unfoldable pub add_flood : List ℕ → ℕ → ℕ → ℕ → String × List ℕ → List Probe → Result (List Probe)
add_flood prefix n_hosts sender receiver (label, destination) =
    for_each
      (λ entry.
        add prefix n_hosts ("flood-" <> decimal sender <> "-" <> label <> "-" <> entry.1) sender
          receiver entry.0 (some destination) true)
      content_kinds

-- one round of the loop over the senders
unfoldable pub add_sender : List ℕ → ℕ → ℕ → List Probe → Result (List Probe)
unfolding host_mac
add_sender prefix n_hosts sender probes = do
  pairs ← for_each (add_pair prefix n_hosts sender) (range 1 n_hosts) probes
  let receiver = sender % n_hosts + 1
  contents ← for_each (add_content prefix n_hosts sender receiver) content_kinds pairs
  same ← for_each (add_same_port prefix n_hosts sender) same_port_kinds contents
  target ← host_mac receiver
  unmatched ←
      for_each (add_unmatched prefix n_hosts sender receiver)
        (enumerate 0 (unknown target ++ groups)) same
  for_each (add_flood prefix n_hosts sender receiver) (flood_labels target) unmatched

unfoldable pub make_probes : List ℕ → ℕ → Result (List Probe)
unfolding validate_host_count
make_probes prefix n_hosts = do
  validate_host_count 128 n_hosts
  for_each (add_sender prefix n_hosts) (range 1 n_hosts) []
