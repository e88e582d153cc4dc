-- ===== src/Ecmp/Run.antt =====
-- The fragments, the rejected packets and `make_probes` itself of the ECMP case.
use Prim.Native.Nat.{ℕ, ◌*◌, ◌+◌}
use Prim.Native.String.{String}
use mathlib.Core.Bool.{false, not, ◌&&◌, ◌||◌}
use mathlib.Core.List.{List, [], map, ◌++◌, ◌∷◌}
use mathlib.Core.Option.{some}
use p4_cases.Ecmp.Frames.{Request, make_frame, request}
use p4_cases.Ecmp.Probes.{
  Call, Probe, add, call, direct_calls, flow_calls, opaque_calls, subnet_ip, tuple_calls,
}
use p4_cases.Ip.Changes.{dotted_text, flip_byte, replace}
use p4_cases.Prelude.Lists.{drop, flat_map, length, replicate, take}
use p4_cases.Prelude.Result.{Result, for_each, ok, raise_if, value_error, ◌>>=◌, ◌>>◌}
use p4_cases.Prelude.Tests.{if◌then◌else◌, leb, ltb, ◌==◌}
use p4_cases.Prelude.Text.{decimal, ◌<>◌}
use p4_cases.Wire.Bytes.{be16, slice}
use p4_cases.Wire.Pack.{Dotted}

-- one fragment, with the flags `piece * 2 | (0x2000 if piece < 2 else 0)`
abbrev pub fragment_call : ℕ → Dotted → ℕ → List ℕ → ℕ → Call
fragment_call protocol destination ident datagram piece =
    record (call (
      "fragment-"
      <> (decimal protocol <> ("-" <> (dotted_text destination <> ("-" <> decimal piece)))))) {
        destination = destination;
        identification = some ident;
        arguments = λ r. record r {
          protocol = protocol;
          flags = piece * 2 + (if ltb piece 2 then 0x2000 else 0);
          transport = some (slice (16 * piece) (16 * (piece + 1)) datagram);
          options = replicate 4 1;
        };
      }

-- one round of the two loops around the fragments
unfoldable pub add_fragments : List ℕ → ℕ × Dotted → List Probe → Result (List Probe)
unfolding make_frame add decimal
add_fragments prefix (protocol, destination) probes = do
  let ident = length probes + 1
  frame ← make_frame (record (request (prefix ++ 0x4d ∷ []) destination 1 ident) {
    protocol = protocol;
    payload_size = if protocol == 17 then 40 else 28;
  })
  let datagram = slice 34 82 frame
  for_each (add prefix) (map (fragment_call protocol destination ident datagram) (0 ∷ 1 ∷ 2 ∷ []))
      probes

abbrev pub fragment_rounds : List (ℕ × Dotted)
fragment_rounds =
    (17, subnet_ip 2) ∷ (17, subnet_ip 100) ∷ (6, subnet_ip 2) ∷ (6, subnet_ip 100) ∷ []

unfoldable pub ttl_calls : List Call
unfolding flat_map decimal
ttl_calls =
    flat_map
      (λ destination.
        map
          (λ ttl. record (call ("ttl-" <> (dotted_text destination <> ("-" <> decimal ttl)))) {
            destination = destination;
            allowed = ltb 1 ttl;
            arguments = λ r. record r { ttl = ttl };
          })
          (0 ∷ 1 ∷ 2 ∷ 255 ∷ []))
      (subnet_ip 2 ∷ subnet_ip 100 ∷ [])

abbrev pub size_calls : List Call
size_calls =
    record (call "udp-no-checksum") { arguments = λ r. record r { udp_checksum = false } }
    ∷ record (call "udp-minimum") { arguments = λ r. record r { payload_size = 0 } }
    ∷ record (call "tcp-minimum") { arguments = λ r. record r { protocol = 6; payload_size = 0 } }
    ∷ record (call "udp-mtu") { arguments = λ r. record r { payload_size = 1472 } }
    ∷ record (call "tcp-mtu") { arguments = λ r. record r { protocol = 6; payload_size = 1460 } }
    ∷ []

-- a frame that is not forwarded, with the transformation that spoils it
abbrev pub spoiled : String → (List ℕ → Result (List ℕ)) → (Request → Request) → Call
spoiled name transform arguments = record (call name) {
  allowed = false;
  transform = transform;
  arguments = arguments;
}

unfoldable pub bad_calls : List Call
unfolding decimal replace flip_byte
bad_calls =
    record (call "unknown-route") {
      destination = record { a = 192; b = 0; c = 2; d = 1 };
      allowed = false;
    }
    ∷ spoiled "non-ipv4" (λ frame. ok (take 12 frame ++ (0x88 ∷ 0xb5 ∷ drop 14 frame))) (λ r. r)
    ∷ spoiled "bad-version" (replace 14 (0x65 ∷ [])) (λ r. r)
    ∷ spoiled "short-ihl" (replace 14 (0x44 ∷ [])) (λ r. r)
    ∷ spoiled "short-total" (replace 16 (be16 20)) (λ r. record r { options = replicate 4 1 })
    ∷ spoiled "long-total" (replace 16 (be16 600)) (λ r. r)
    ∷ spoiled "truncated-ip" (λ frame. ok (take 30 frame)) (λ r. r)
    ∷ spoiled "truncated-options" (λ frame. ok (take 60 frame))
        (λ r. record r { options = replicate 40 1 })
    ∷ spoiled "bad-checksum-0" (flip_byte 24) (λ r. r)
    ∷ spoiled "bad-checksum-40" (flip_byte 24) (λ r. record r { options = replicate 40 1 })
    ∷ spoiled "short-transport-17" ok
        (λ r. record r { protocol = 17; transport = some (replicate 7 0) })
    ∷ spoiled "short-transport-6" ok
        (λ r. record r { protocol = 6; transport = some (replicate 19 0) })
    ∷ spoiled "bad-udp-length-7" (replace 38 (be16 7)) (λ r. r)
    ∷ spoiled "bad-udp-length-80" (replace 38 (be16 80)) (λ r. r)
    ∷ spoiled "bad-tcp-offset-4" (replace 46 (4 * 16 ∷ [])) (λ r. record r { protocol = 6 })
    ∷ spoiled "bad-tcp-offset-15" (replace 46 (15 * 16 ∷ [])) (λ r. record r { protocol = 6 })
    ∷ []

-- the body of `for protocol in (17, 6)`, without its loops over calls that depend on the state
abbrev pub protocol_calls : List ℕ → ℕ → ℕ → List Call
protocol_calls prefix n_flows protocol =
    direct_calls protocol ++ (flow_calls protocol n_flows ++ tuple_calls prefix protocol)

unfoldable pub make_probes : List ℕ → ℕ → Result (List Probe)
unfolding add add_fragments flat_map direct_calls flow_calls tuple_calls opaque_calls ttl_calls
    bad_calls
make_probes prefix n_flows = do
  raise_if (not (length prefix == 3) || not (leb 2 n_flows && leb n_flows 100)) value_error
  probes ←
      for_each (add prefix)
        (protocol_calls prefix n_flows 17 ++ (protocol_calls prefix n_flows 6 ++ opaque_calls)) []
  probes' ← for_each (add_fragments prefix) fragment_rounds probes
  for_each (add prefix) (ttl_calls ++ (size_calls ++ bad_calls)) probes'
