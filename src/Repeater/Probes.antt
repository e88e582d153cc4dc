-- ===== src/Repeater/Probes.antt =====
-- `make_probes` of the repeater. A host `h{n}` is modelled by its number n.
use Prim.Native.Nat.{ℕ, ◌+◌, ◌-◌}
use Prim.Native.String.{String}
use mathlib.Core.List.{List, [], ◌++◌, ◌∷◌}
use p4_cases.L2.Build.{kind_frame}
use p4_cases.L2.Content.{
  Kind, arp, arp_packet, bad_ipv4_checksum, empty, hop_zero, ipv4, ipv6, mtu, opaque, qinq, ttl_one,
  ttl_zero, vlan,
}
use p4_cases.Prelude.Lists.{get_elem?, length, replicate}
use p4_cases.Prelude.Result.{Result, for_each, index_error, ok, or_raise, ◌>>=◌}
use p4_cases.Prelude.Text.{decimal, ◌<>◌}
use p4_cases.Repeater.{host_ip, ipv4_udp}
use p4_cases.Wire.Pack.{ipv4_packed, pack, u16}

pub record Probe : Type 0 where
  pub name : String
  pub sender : ℕ
  pub receiver : ℕ
  pub frame : List ℕ

-- the ARP request of `add`
unfoldable pub arp_request : List ℕ → ℕ → ℕ → ℕ → Result (List ℕ)
unfolding pack ipv4_packed
arp_request prefix sender receiver identification = do
  marker ← pack (u16 identification ∷ [])
  from ← ipv4_packed 198 18 0 sender
  to ← ipv4_packed 198 18 1 receiver
  arp_packet 1 (prefix ++ marker) from (replicate 6 0) to

-- the nested function `add`; the rest of the branches is `content`, in `kind_frame`
unfoldable pub add : List ℕ → String → ℕ → ℕ → List ℕ → Kind → List Probe → Result (List Probe)
unfolding ipv4_udp
add prefix name sender receiver destination kind probes = do
  let identification = length probes + 1
  packet ← ipv4_udp sender receiver identification 64
  frame ←
      kind_frame 65536 host_ip prefix sender receiver identification packet destination kind
        (arp_request prefix sender receiver identification)
  ok (probes ++ record { name = name; sender = sender; receiver = receiver; frame = frame } ∷ [])

abbrev pub kinds : List (Kind × String)
kinds =
    (opaque, "opaque")
    ∷ (ipv4, "ipv4")
    ∷ (ttl_zero, "ttl-zero")
    ∷ (ttl_one, "ttl-one")
    ∷ (bad_ipv4_checksum, "bad-ipv4-checksum")
    ∷ (ipv6, "ipv6")
    ∷ (hop_zero, "hop-zero")
    ∷ (arp, "arp")
    ∷ (vlan, "vlan")
    ∷ (qinq, "qinq")
    ∷ (empty, "empty")
    ∷ (mtu, "mtu")
    ∷ []

abbrev pub mac : ℕ → List ℕ
mac n = 0 ∷ 0 ∷ 0 ∷ 0 ∷ 0 ∷ n ∷ []

-- the destinations of one sender, with their labels
abbrev pub destinations : ℕ → ℕ → List (String × List ℕ)
destinations sender receiver =
    ("peer", mac receiver)
    ∷ ("self", mac sender)
    ∷ ("unknown", 0x02 ∷ 0x11 ∷ 0x22 ∷ 0x33 ∷ 0x44 ∷ 0x55 ∷ [])
    ∷ ("zero", replicate 6 0)
    ∷ ("broadcast", replicate 6 255)
    ∷ ("ipv4-multicast", 0x01 ∷ 0x00 ∷ 0x5e ∷ 0x00 ∷ 0x00 ∷ 0x01 ∷ [])
    ∷ ("ipv6-multicast", 0x33 ∷ 0x33 ∷ 0x00 ∷ 0x00 ∷ 0x00 ∷ 0x01 ∷ [])
    ∷ []

unfoldable pub add_kinds : List ℕ → ℕ → ℕ → String × List ℕ → List Probe → Result (List Probe)
add_kinds prefix sender receiver (label, destination) =
    for_each
      (λ entry.
        add prefix (decimal sender <> "-" <> label <> "-" <> entry.1) sender receiver destination
          entry.0)
      kinds

-- `probes.append({**probes[-1], "name": ...})`
unfoldable pub repeat_last : ℕ → ℕ → List Probe → Result (List Probe)
repeat_last sender repeat probes = do
  previous ← or_raise (get_elem? probes (length probes - 1)) index_error
  ok (probes ++ record previous { name = decimal sender <> "-repeat-" <> decimal repeat } ∷ [])

-- one round of the loop over the senders
unfoldable pub add_sender : List ℕ → ℕ → List Probe → Result (List Probe)
add_sender prefix sender probes = do
  let receiver = 3 - sender
  filled ← for_each (add_kinds prefix sender receiver) (destinations sender receiver) probes
  one ← add prefix (decimal sender <> "-repeat-0") sender receiver (mac receiver) opaque filled
  for_each (repeat_last sender) (1 ∷ 2 ∷ []) one

unfoldable pub make_probes : List ℕ → Result (List Probe)
make_probes prefix = for_each (add_sender prefix) (1 ∷ 2 ∷ []) []
