-- ===== src/Runs/Int.antt =====
-- An option with two traces.
use Prim.Native.Nat.{ℕ, ◌*◌, ◌+◌}
use mathlib.Core.Bool.{true}
use mathlib.Core.List.{List, [], ◌++◌, ◌∷◌}
use mathlib.Core.Option.{none, some}
use mathlib.Core.Path.{refl, ◌≡◌}
use native.Mathlib.Omega.{arith}
use p4_cases.Int.Forwarded.{check_forwarded, expected_frame}
use p4_cases.Int.Frames.{make_frame, request}
use p4_cases.Int.Options.{Trace, int_option, parse_options, read_traces, trace_of}
use p4_cases.Int.Parse.{Packet, expected_trace_count, parse_frame}
use p4_cases.Int.Parsed.{IsParse, parse_frame-IsParse}
use p4_cases.Int.Probes.{Probe, make_probes}
use p4_cases.Int.RoundTrip.{parse_options-int_option}
use p4_cases.Int.Routed.{IsRouted, check_forwarded-IsRouted}
use p4_cases.Ip.Recalculate.{octet}
use p4_cases.Prelude.Lists.{drop, length, replicate}
use p4_cases.Prelude.Order.{lt_wf}
use p4_cases.Prelude.Result.{Result, err, for_each, ok}
use p4_cases.Wire.Bytes.{bytes_eq, from_bytes}
use p4_cases.Wire.Checksum.{carry, carry_loop, checksum}

abbrev two : List Trace
two = record { swid = 3; depth = 8191; port = 1 } ∷ record { swid = 1; depth = 0; port = 63 } ∷ []

parse_options_plain : parse_options (1 ∷ 1 ∷ 1 ∷ 1 ∷ []) ≡ ok none
unfolding parse_options
parse_options_plain = refl

parse_options-int_option_example :
    (o : List ℕ) × (int_option two true ≡ ok o)
    × (length o ≡ 4 + 4 * 2)
    × (octet o 1 ≡ length o)
    × (parse_options o ≡ ok (some two))
parse_options-int_option_example =
    parse_options-int_option two true (omega arith)
      ((omega arith, omega arith, omega arith), ((omega arith, omega arith, omega arith), tt))

-- A frame without a payload whose header carries one trace.
abbrev frame : List ℕ
frame =
    replicate 12 9
    ++ (8 ∷ 0 ∷ 0x47 ∷ 0 ∷ 0 ∷ 28 ∷ 0 ∷ 0 ∷ 0 ∷ 0 ∷ 64 ∷ 17 ∷ 0x59 ∷ 0x70 ∷ replicate 8 0)
    ++ (0x1f ∷ 8 ∷ 0 ∷ 1 ∷ 0 ∷ 0x18 ∷ 0 ∷ 0x41 ∷ [])

abbrev packet : Packet
packet = record {
  ihl = 28;
  total = 28;
  options = 0x1f ∷ 8 ∷ 0 ∷ 1 ∷ 0 ∷ 0x18 ∷ 0 ∷ 0x41 ∷ [];
  traces = some (record { swid = 3; depth = 1; port = 1 } ∷ []);
  payload = [];
  ttl = 64;
}

one_trace : parse_frame frame ≡ ok packet
unfolding parse_frame parse_options read_traces trace_of from_bytes bytes_eq checksum carry
    carry_loop lt_wf
one_trace = refl

two_more : expected_trace_count frame 2 ≡ ok (some 3)
unfolding expected_trace_count parse_frame parse_options read_traces trace_of from_bytes bytes_eq
    checksum carry carry_loop lt_wf
two_more = refl

parse_frame-IsParse_example : IsParse frame packet
parse_frame-IsParse_example = parse_frame-IsParse frame packet one_trace

-- A plain packet from h3 to h1, and what the two switches on its path make of it.
bytes_or_empty : Result (List ℕ) → List ℕ
bytes_or_empty (ok xs) = xs
bytes_or_empty (err raised) = []

plain_frame : List ℕ
unfolding make_frame bytes_or_empty
plain_frame =
    bytes_or_empty
      (make_frame (record (request (198 ∷ 51 ∷ 100 ∷ 1 ∷ []) 3 1 []) { payload_size = 16 }))

abbrev plain_packet : Packet
plain_packet = record {
  ihl = 20;
  total = 44;
  options = [];
  traces = none;
  payload = drop 34 plain_frame;
  ttl = 64;
}

two_hops : List (ℕ × ℕ)
two_hops = (3, 3) ∷ (1, 1) ∷ []

routed_frame : List ℕ
unfolding expected_frame plain_frame bytes_or_empty two_hops
routed_frame = bytes_or_empty (expected_frame plain_frame plain_packet [] two_hops)

plain_parses : parse_frame plain_frame ≡ ok plain_packet
unfolding plain_frame bytes_or_empty parse_frame make_frame checksum
plain_parses = refl

routed_passes : check_forwarded plain_frame routed_frame two_hops ≡ ok tt
unfolding plain_frame bytes_or_empty parse_frame make_frame checksum check_forwarded routed_frame
    two_hops expected_frame
routed_passes = refl

check_forwarded-IsRouted_example : IsRouted plain_frame routed_frame two_hops plain_packet
check_forwarded-IsRouted_example =
    check_forwarded-IsRouted plain_frame routed_frame two_hops plain_packet plain_parses refl
      routed_passes

count_of : Result (List Probe) → ℕ
count_of (ok probes) = length probes
count_of (err raised) = 0

make_probes_count : count_of (make_probes (198 ∷ 51 ∷ 100 ∷ [])) ≡ 63
unfolding make_probes count_of for_each checksum
make_probes_count = refl
