-- ===== src/Lpm/Run.antt =====
-- The chains and fragments, the rejected packets and `make_probes` itself of the IPv6 case.
use Prim.Native.Nat.{ℕ, ◌*◌, ◌+◌, ◌-◌, ◌/◌}
use Prim.Native.String.{String}
use mathlib.Core.Bool.{false}
use mathlib.Core.List.{List, [], map, ◌++◌, ◌∷◌}
use mathlib.Core.Option.{some}
use p4_cases.L2.Content.{arp_packet}
use p4_cases.L2.Datagram.Ipv4.{payload}
use p4_cases.Lpm.{network}
use p4_cases.Lpm.Frames.{Address, host_address, segment, transport_segment}
use p4_cases.Lpm.Probes.{
  Call, Probe, add, boundary_calls, call, lpm_calls, numbers, opaque_calls, pair_calls, replace,
  size_calls, third,
}
use p4_cases.Prelude.Lists.{flat_map, length, replicate, take}
use p4_cases.Prelude.Result.{Result, for_each, ok, ◌>>=◌}
use p4_cases.Prelude.Tests.{if◌then◌else◌, ltb, ◌==◌}
use p4_cases.Prelude.Text.{decimal, ◌<>◌}
use p4_cases.Wire.Bytes.{ljust, slice}
use p4_cases.Wire.Pack.{pack, u16, u32, u8}

-- `chain`: a destination-options header, then another, then UDP
abbrev pub chain : List ℕ
chain = 60 ∷ 0 ∷ 1 ∷ 4 ∷ 0 ∷ 0 ∷ 0 ∷ 0 ∷ 17 ∷ 0 ∷ 1 ∷ 4 ∷ 0 ∷ 0 ∷ 0 ∷ 0 ∷ []

-- `enumerate(spans)`
abbrev pub spans : ℕ → List (ℕ × ℕ × ℕ)
spans protocol =
    if protocol == 17
    then (0, 0, 16) ∷ (1, 16, 32) ∷ (2, 32, 48) ∷ []
    else (0, 0, 24) ∷ (1, 24, 40) ∷ (2, 40, 48) ∷ []

abbrev pub fragment_name : ℕ → Address → ℕ → ℕ → String
fragment_name sender destination protocol piece =
    "fragment-"
    <> (decimal sender
        <> ("-" <> (destination.text <> ("-" <> (decimal protocol <> ("-" <> decimal piece))))))

-- one fragment; `(start // 8 << 3) | (piece < 2)`, where the low bits of the first are zero
unfoldable pub add_fragment :
    List ℕ → ℕ → Address → ℕ → ℕ → List ℕ → ℕ × ℕ × ℕ → List Probe → Result (List Probe)
unfolding add pack decimal
add_fragment prefix sender destination protocol datagram_id segment (piece, start, end) probes = do
  fragment ← pack (
      u8 protocol
      ∷ u8 0
      ∷ u16 (start / 8 * 8 + (if ltb piece 2 then 1 else 0))
      ∷ u32 datagram_id
      ∷ [])
  add prefix
      (record (call (fragment_name sender destination protocol piece) sender) {
        destination = destination;
        arguments = λ r. record r {
          protocol = 44;
          body = some (fragment ++ slice start end segment);
          flow_label = some datagram_id;
        };
      })
      probes

unfoldable pub add_fragments : List ℕ → ℕ → Address → ℕ → List Probe → Result (List Probe)
unfolding add_fragment transport_segment host_address
add_fragments prefix sender destination protocol probes = do
  let datagram_id = length probes + 1
  segment ←
      transport_segment (host_address sender) destination protocol datagram_id
        (if protocol == 17 then 40 else 28)
  for_each (add_fragment prefix sender destination protocol datagram_id segment) (spans protocol)
      probes

-- one round of `for destination in ("2001:db8:3::42", "2001:db8:3::43")`
unfoldable pub add_chains : List ℕ → ℕ → Address → List Probe → Result (List Probe)
unfolding add add_fragments transport_segment host_address decimal
add_chains prefix sender destination probes = do
  segment ← transport_segment (host_address sender) destination 17 (length probes + 1) 33
  probes' ←
      add prefix
        (record (call ("extensions-" <> (decimal sender <> ("-" <> destination.text))) sender) {
          destination = destination;
          arguments = λ r. record r { protocol = 0; body = some (chain ++ segment) };
        })
        probes
  for_each (add_fragments prefix sender destination) (17 ∷ 6 ∷ []) probes'

unfoldable pub expired_calls : ℕ → List Call
unfolding flat_map decimal host_address
expired_calls sender =
    flat_map
      (λ destination.
        map
          (λ limit.
            record (call
              ("expired-"
                <> (decimal sender <> ("-" <> (destination.text <> ("-" <> decimal limit)))))
              sender) {
                destination = destination;
                arguments = λ r. record r { hop_limit = limit };
                allowed = false;
              })
          (0 ∷ 1 ∷ []))
      (host_address 1 ∷ host_address 2 ∷ host_address 3 ∷ third "42" 0x42 ∷ [])

-- the addresses without a route
abbrev pub unrouted : List Address
unrouted =
    record {
      text = "2001:db8::1";
      packed = 0x20 ∷ 0x01 ∷ 0x0d ∷ 0xb8 ∷ (replicate 11 0 ++ (1 ∷ []));
    }
    ∷ record { text = "2001:db8:4::1"; packed = network 4 ++ (replicate 7 0 ++ (1 ∷ [])) }
    ∷ record {
      text = "2001:db8:3:1::42";
      packed = 0x20 ∷ 0x01 ∷ 0x0d ∷ 0xb8 ∷ 0 ∷ 3 ∷ 0 ∷ 1 ∷ (replicate 7 0 ++ (0x42 ∷ []));
    }
    ∷ record {
      text = "2001:db8:2:ffff::1";
      packed = 0x20 ∷ 0x01 ∷ 0x0d ∷ 0xb8 ∷ 0 ∷ 2 ∷ 255 ∷ 255 ∷ (replicate 7 0 ++ (1 ∷ []));
    }
    ∷ record { text = "ff02::1"; packed = 0xff ∷ 0x02 ∷ (replicate 13 0 ++ (1 ∷ [])) }
    ∷ []

-- a frame that is not forwarded, with the transformation that spoils it
abbrev pub spoiled : String → ℕ → (List ℕ → Result (List ℕ)) → Call
spoiled name sender transform = record (call (name <> decimal sender) sender) {
  allowed = false;
  transform = transform;
}

-- the same with a suffix in the name
abbrev pub spoiled_by : String → ℕ → String → (List ℕ → Result (List ℕ)) → Call
spoiled_by name sender suffix transform = record (spoiled name sender transform) {
  name = name <> (decimal sender <> ("-" <> suffix));
}

-- the ARP request of `arp`
unfoldable pub arp_request : ℕ → List ℕ → Result (List ℕ)
unfolding arp_packet ljust
arp_request sender frame = do
  payload ←
      arp_packet 1 (slice 6 12 frame) (10 ∷ 0 ∷ 0 ∷ sender ∷ []) (replicate 6 0)
        (10 ∷ 0 ∷ 0 ∷ 4 ∷ [])
  ok (ljust 60 0 (replicate 6 255 ++ (slice 6 12 frame ++ (0x08 ∷ 0x06 ∷ payload))))

unfoldable pub bad_calls : ℕ → List Call
unfolding decimal arp_request
bad_calls sender =
    map
      (λ destination.
        record (call ("no-route-" <> (decimal sender <> ("-" <> destination.text))) sender) {
          destination = destination;
          allowed = false;
        })
      unrouted
    ++ (spoiled_by "bad-version-" sender "4" (replace 14 (0x42 ∷ []))
        ∷ spoiled_by "bad-version-" sender "15" (replace 14 (0xf2 ∷ []))
        ∷ spoiled "long-payload-" sender (replace 18 (0xff ∷ 0xff ∷ []))
        ∷ spoiled_by "short-header-" sender "22" (λ frame. ok (take 22 frame))
        ∷ spoiled_by "short-header-" sender "53" (λ frame. ok (take 53 frame))
        ∷ spoiled "short-payload-" sender (λ frame. ok (take (length frame - 12) frame))
        ∷ record (spoiled "empty-long-payload-" sender (replace 18 (0 ∷ 7 ∷ []))) {
          arguments = λ r. record r { protocol = 59; body = some [] };
        }
        ∷ spoiled_by "non-ipv6-" sender "0800" (replace 12 (0x08 ∷ 0x00 ∷ []))
        ∷ spoiled_by "non-ipv6-" sender "88b5" (replace 12 (0x88 ∷ 0xb5 ∷ []))
        ∷ spoiled "arp-" sender (arp_request sender)
        ∷ [])

unfoldable pub add_sender : List ℕ → ℕ → List Probe → Result (List Probe)
unfolding add add_chains pair_calls lpm_calls boundary_calls size_calls opaque_calls expired_calls
    bad_calls
add_sender prefix sender probes = do
  probes' ←
      for_each (add prefix)
        (pair_calls sender
          ++ (lpm_calls sender
              ++ (boundary_calls sender ++ (size_calls sender ++ opaque_calls sender))))
        probes
  chained ← for_each (add_chains prefix sender) (third "42" 0x42 ∷ third "43" 0x43 ∷ []) probes'
  for_each (add prefix) (expired_calls sender ++ bad_calls sender) chained

unfoldable pub make_probes : List ℕ → Result (List Probe)
unfolding add_sender
make_probes prefix = for_each (add_sender prefix) numbers []
