-- ===== src/Registers/Excluded.antt =====
-- The batch of packets that are not counted, and `make_batches` itself.
use Prim.Native.Nat.{ℕ, ◌*◌, ◌+◌, ◌-◌}
use Prim.Native.String.{String}
use mathlib.Core.Bool.{false, not}
use mathlib.Core.List.{List, [], map, ◌++◌, ◌∷◌}
use mathlib.Core.Option.{some}
use p4_cases.Ip.Changes.{flip_byte, replace}
use p4_cases.L2.Content.{arp_packet}
use p4_cases.Prelude.Lists.{drop, length, replicate, take}
use p4_cases.Prelude.Result.{
  Result, err, for_each, index_error, ok, raise_if, value_error, ◌>>=◌, ◌>>◌,
}
use p4_cases.Prelude.Tests.{if◌then◌else◌, ltb, ◌==◌}
use p4_cases.Prelude.Text.{decimal, ◌<>◌}
use p4_cases.Registers.{Probe}
use p4_cases.Registers.Batches.{
  Call, add, add_collisions, call, collision_rounds, flow_calls, wrapping_calls,
}
use p4_cases.Registers.Built.{payload}
use p4_cases.Registers.Frames.{Request, host_ip, make_frame, request}
use p4_cases.Registers.Ports.{ports_for_slot}
use p4_cases.Wire.Bytes.{be16, ljust, slice}
use p4_cases.Wire.Pack.{dotted_packed}

-- `h{sender}-{text}`
abbrev pub named : ℕ → String → String
named sender text = "h" <> (decimal sender <> text)

-- a packet that is delivered but not counted
abbrev pub uncounted : ℕ → String → (Request → Request) → Call
uncounted sender text arguments = record (call (named sender text) sender) {
  counted = false;
  arguments = arguments;
}

-- `**bad`
abbrev pub bad : ℕ → String → (List ℕ → Result (List ℕ)) → (Request → Request) → Call
bad sender text transform arguments = record (call (named sender text) sender) {
  allowed = false;
  counted = false;
  transform = transform;
  arguments = arguments;
}

-- the ARP request of `arp`
unfoldable pub arp_request : ℕ → List ℕ → Result (List ℕ)
unfolding arp_packet dotted_packed ljust
arp_request sender frame = do
  from ← dotted_packed (host_ip sender)
  to ← dotted_packed (host_ip (3 - sender))
  payload ← arp_packet 1 (slice 6 12 frame) from (replicate 6 0) to
  ok (ljust 60 0 (replicate 6 255 ++ (slice 6 12 frame ++ (0x08 ∷ 0x06 ∷ payload))))

unfoldable pub uncounted_calls : ℕ → List Call
unfolding decimal arp_request
uncounted_calls sender =
    map
      (λ protocol.
        uncounted sender ("-protocol-" <> decimal protocol)
          (λ r. record r { protocol = protocol; options = replicate 4 1 }))
      (6 ∷ 1 ∷ 253 ∷ [])
    ++ (uncounted sender "-opaque-empty" (λ r. record r { protocol = 253; payload_size = 0 })
        ∷ record (uncounted sender "-non-ipv4" (λ r. r)) {
          transform = λ frame. ok (take 12 frame ++ (0x88 ∷ 0xb5 ∷ drop 14 frame));
        }
        ∷ record (uncounted sender "-arp" (λ r. r)) { transform = arp_request sender }
        ∷ [])

-- the flags are `piece * 2 | (0x2000 if piece < 2 else 0)`
abbrev pub fragment_call : ℕ → ℕ → ℕ → List ℕ → ℕ → Call
fragment_call sender protocol fragment_id datagram piece =
    uncounted sender ("-fragment-" <> (decimal protocol <> ("-" <> decimal piece))) (λ r. record r {
      protocol = protocol;
      datagram_id = some fragment_id;
      options = replicate 4 1;
      flags = piece * 2 + (if ltb piece 2 then 0x2000 else 0);
      transport = some (slice (16 * piece) (16 * (piece + 1)) datagram);
    })

-- one round of `for protocol in (17, 6)`
unfoldable pub add_fragments : List ℕ → ℕ → ℕ → ℕ × List Probe → Result (ℕ × List Probe)
unfolding make_frame add decimal
add_fragments prefix sender protocol (sequence, batch) = do
  frame ← make_frame (record (request prefix (sequence + 1) sender) {
    protocol = protocol;
    payload_size = if protocol == 17 then 40 else 28;
  })
  let datagram = slice 34 82 frame
  for_each (add prefix)
      (map (fragment_call sender protocol (sequence + 1) datagram) (0 ∷ 1 ∷ 2 ∷ []))
      (sequence, batch)

unfoldable pub bad_calls : ℕ → List Call
unfolding decimal replace flip_byte
bad_calls sender =
    bad sender "-bad-version" (replace 14 (0x65 ∷ [])) (λ r. r)
    ∷ bad sender "-short-ihl" (replace 14 (0x44 ∷ [])) (λ r. r)
    ∷ bad sender "-long-ihl" (replace 14 (0x4f ∷ [])) (λ r. r)
    ∷ bad sender "-short-total" (replace 16 (be16 20)) (λ r. record r { options = replicate 4 1 })
    ∷ bad sender "-long-total" (replace 16 (be16 600)) (λ r. r)
    ∷ bad sender "-truncated-ip" (λ frame. ok (take 30 frame)) (λ r. r)
    ∷ bad sender "-truncated-options" (λ frame. ok (take 60 frame))
        (λ r. record r { options = replicate 40 1 })
    ∷ bad sender "-bad-checksum-0" (flip_byte 24) (λ r. r)
    ∷ bad sender "-bad-checksum-40" (flip_byte 24) (λ r. record r { options = replicate 40 1 })
    ∷ bad sender "-short-udp" ok (λ r. record r { transport = some (replicate 7 0) })
    ∷ bad sender "-bad-udp-length-7" (replace 38 (be16 7)) (λ r. r)
    ∷ bad sender "-bad-udp-length-80" (replace 38 (be16 80)) (λ r. r)
    ∷ []

unfoldable pub add_excluded : List ℕ → ℕ → ℕ × List Probe → Result (ℕ × List Probe)
unfolding add add_fragments uncounted_calls bad_calls
add_excluded prefix sender state = do
  started ← for_each (add prefix) (uncounted_calls sender) state
  fragmented ← for_each (add_fragments prefix sender) (17 ∷ 6 ∷ []) started
  for_each (add prefix) (bad_calls sender) fragmented

-- `ports[0]`
abbrev pub head_of : List ℕ → Result ℕ
head_of [] = err index_error
head_of (port ∷ ports) = ok port

unfoldable pub make_batches : List ℕ → Result (List (String × List Probe))
unfolding add add_collisions add_excluded flow_calls wrapping_calls ports_for_slot
make_batches prefix = do
  raise_if (not (length prefix == 4)) value_error
  (s1, flows) ← for_each (add prefix) flow_calls (0, [])
  (s2, collisions) ← for_each (add_collisions prefix) collision_rounds (s1, [])
  (s3, excluded) ← for_each (add_excluded prefix) (1 ∷ 2 ∷ []) (s2, [])
  ports ← ports_for_slot (host_ip 1) (host_ip 2) 0
  port ← head_of ports
  (s4, wrapping) ← for_each (add prefix) (wrapping_calls port) (s3, [])
  ok (
      ("udp-flows", flows)
      ∷ ("collisions", collisions)
      ∷ ("excluded-and-malformed", excluded)
      ∷ ("wraparound", wrapping)
      ∷ [])
