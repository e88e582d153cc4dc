-- ===== src/Reflector/Probes.antt =====
-- `make_probes` of the packet reflector. A host `h{n}` is modelled by its number n.
use Prim.Native.Nat.{ℕ, ◌%◌, ◌+◌, ◌-◌}
use Prim.Native.String.{String}
use mathlib.Core.List.{List, [], ◌++◌, ◌∷◌}
use mathlib.Core.Option.{Option, none, some}
use p4_cases.L2.Collect.{range}
use p4_cases.L2.Content.{
  Kind, arp, arp_packet, bad_ipv4_checksum, content, empty, hop_zero, ipv4, ipv6, mtu, opaque, qinq,
  ttl_one, ttl_zero, vlan,
}
use p4_cases.L2.Datagram.{ipv6_udp}
use p4_cases.Prelude.Lists.{drop, get_elem?, length, replicate, take}
use p4_cases.Prelude.Result.{Result, for_each, index_error, ok, or_raise, ◌>>=◌, ◌>>◌}
use p4_cases.Prelude.Text.{decimal, ◌<>◌}
use p4_cases.Reflector.{host_mac, ipv4_udp, make_frame, validate_host_count}
use p4_cases.Wire.Bytes.{byte_range}
use p4_cases.Wire.Pack.{ipv4_packed, pack, u16}

pub record Probe : Type 0 where
  pub name : String
  pub sender : ℕ
  pub receiver : ℕ
  pub frame : List ℕ

-- the ARP request of `add`
unfoldable pub arp_request : List ℕ → ℕ → ℕ → ℕ → Result (List ℕ)
unfolding pack ipv4_packed arp_packet
arp_request prefix sender receiver identification = do
  marker ← pack (u16 identification ∷ [])
  from ← ipv4_packed 198 18 0 sender
  to ← ipv4_packed 198 18 1 receiver
  arp_packet 1 (prefix ++ marker) from (replicate 6 0) to

-- the nested function `add`
unfoldable pub add : List ℕ → String → ℕ → ℕ → List ℕ → Kind → List Probe → Result (List Probe)
unfolding arp_request ipv4_udp make_frame
add prefix name sender receiver destination kind probes = do
  let identification = length probes + 1
  packet ← ipv4_udp sender receiver identification 64
  (ether_type, body) ←
      content kind identification packet (λ ttl. ipv4_udp sender receiver identification ttl)
        (λ hop. ipv6_udp sender receiver identification hop)
        (arp_request prefix sender receiver identification)
  frame ← make_frame prefix identification destination ether_type body
  ok (probes ++ record { name = name; sender = sender; receiver = sender; frame = frame } ∷ [])

abbrev pub kinds : List (Kind × String)
kinds =
    (opaque, "opaque")
    ∷ (ipv4, "ipv4")
    ∷ (ttl_zero, "ttl-zero")
    ∷ (ttl_one, "ttl-one")
    ∷ (bad_ipv4_checksum, "bad-ipv4-checksum")
    ∷ (ipv6, "ipv6")
    ∷ (hop_zero, "hop-zero")
    ∷ (arp, "arp")
    ∷ (vlan, "vlan")
    ∷ (qinq, "qinq")
    ∷ (empty, "empty")
    ∷ (mtu, "mtu")
    ∷ []

-- the destinations of one sender, with their labels
abbrev pub destinations : List ℕ → List ℕ → List (String × List ℕ)
destinations peer own =
    ("peer", peer)
    ∷ ("self", own)
    ∷ ("unknown", 0x02 ∷ 0x11 ∷ 0x22 ∷ 0x33 ∷ 0x44 ∷ 0x55 ∷ [])
    ∷ ("zero", replicate 6 0)
    ∷ ("broadcast", replicate 6 255)
    ∷ ("ipv4-multicast", 0x01 ∷ 0x00 ∷ 0x5e ∷ 0x00 ∷ 0x00 ∷ 0x01 ∷ [])
    ∷ ("ipv6-multicast", 0x33 ∷ 0x33 ∷ 0x00 ∷ 0x00 ∷ 0x00 ∷ 0x01 ∷ [])
    ∷ []

-- every kind of content to one destination
unfoldable pub add_kinds : List ℕ → ℕ → ℕ → String × List ℕ → List Probe → Result (List Probe)
add_kinds prefix sender receiver (label, destination) =
    for_each
      (λ entry.
        add prefix (decimal sender <> "-" <> label <> "-" <> entry.1) sender receiver destination
          entry.0)
      kinds

-- `probes.append({**probes[-1], "name": ...})`
unfoldable pub repeat_last : ℕ → ℕ → List Probe → Result (List Probe)
repeat_last sender repeat probes = do
  previous ← or_raise (get_elem? probes (length probes - 1)) index_error
  ok (probes ++ record previous { name = decimal sender <> "-repeat-" <> decimal repeat } ∷ [])

-- `destination if source is None else source`
abbrev pub source_of : List ℕ → Option (List ℕ) → List ℕ
source_of destination none = destination
source_of destination (some source) = source

-- the body of the loop over the source addresses; `none` stands for the destination itself
unfoldable pub add_source : List ℕ → ℕ → String × Option (List ℕ) → List Probe → Result (List Probe)
unfolding make_frame pack byte_range
add_source prefix sender (label, given) probes = do
  let identification = length probes + 1
  marker ← pack (u16 identification ∷ [])
  let destination = prefix ++ marker
  frame ← make_frame prefix identification destination 0x88b5 (byte_range 31 0)
  ok (
      probes
      ++ record {
        name = decimal sender <> "-source-" <> label;
        sender = sender;
        receiver = sender;
        frame = take 6 frame ++ (source_of destination given ++ drop 12 frame);
      }
        ∷ [])

abbrev pub sources : List ℕ → List (String × Option (List ℕ))
sources own =
    ("host", some own)
    ∷ ("zero", some (replicate 6 0))
    ∷ ("broadcast", some (replicate 6 255))
    ∷ ("multicast", some (0x01 ∷ 0x00 ∷ 0x5e ∷ 0x00 ∷ 0x00 ∷ 0x01 ∷ []))
    ∷ ("equal", none)
    ∷ []

-- one round of the loop over the senders
unfoldable pub add_sender : List ℕ → ℕ → ℕ → List Probe → Result (List Probe)
unfolding host_mac add_kinds repeat_last add_source
add_sender prefix n_hosts sender probes = do
  let receiver = sender % n_hosts + 1
  peer ← host_mac receiver
  own ← host_mac sender
  filled ← for_each (add_kinds prefix sender receiver) (destinations peer own) probes
  again ← host_mac receiver
  one ← add prefix (decimal sender <> "-repeat-0") sender receiver again opaque filled
  repeated ← for_each (repeat_last sender) (1 ∷ 2 ∷ []) one
  host ← host_mac sender
  for_each (add_source prefix sender) (sources host) repeated

unfoldable pub make_probes : List ℕ → ℕ → Result (List Probe)
unfolding validate_host_count add_sender
make_probes prefix n_hosts = do
  validate_host_count n_hosts
  for_each (add_sender prefix n_hosts) (range 1 n_hosts) []
