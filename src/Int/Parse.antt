-- ===== src/Int/Parse.antt =====
-- `parse_frame` and `expected_trace_count`.
use Prim.Native.Nat.{min, ℕ, ◌+◌, ◌-◌, ◌/◌}
use mathlib.Core.Bool.{Bool, not, ◌||◌}
use mathlib.Core.List.{List, [], ◌∷◌}
use mathlib.Core.Option.{Option, none, some}
use p4_cases.Int.Options.{Trace, max_traces, parse_options}
use p4_cases.Ip.Recalculate.{ihl_bytes, octet}
use p4_cases.Prelude.Lists.{drop, length}
use p4_cases.Prelude.Result.{Result, ok, raise_if, runtime_error, ◌>>=◌, ◌>>◌}
use p4_cases.Prelude.Tests.{ltb, ◌==◌}
use p4_cases.Wire.Bytes.{bytes_eq, from_bytes, slice}
use p4_cases.Wire.Checksum.{checksum}

-- the dictionary that `parse_frame` returns
pub record Packet : Type 0 where
  pub ihl : ℕ
  pub total : ℕ
  pub options : List ℕ
  pub traces : Option (List Trace)
  pub payload : List ℕ
  pub ttl : ℕ

-- the first guard; the length test comes first, so that byte 14 is there
abbrev pub bad_start : List ℕ → Bool
bad_start frame =
    ltb (length frame) 34
    || (not (bytes_eq (slice 12 14 frame) (8 ∷ 0 ∷ [])) || not (octet frame 14 / 16 == 4))

-- the second guard
abbrev pub bad_lengths : List ℕ → ℕ → ℕ → Bool
bad_lengths frame ihl total = ltb ihl 20 || (ltb total ihl || not (length frame == 14 + total))

unfoldable pub parse_frame : List ℕ → Result Packet
unfolding bytes_eq from_bytes checksum parse_options
parse_frame frame = do
  raise_if (bad_start frame) runtime_error
  let ihl = ihl_bytes (octet frame 14)
  let total = from_bytes (slice 16 18 frame) 0
  raise_if (bad_lengths frame ihl total) runtime_error
  raise_if (not (checksum (slice 14 (14 + ihl) frame) == 0)) runtime_error
  let options = slice 34 (14 + ihl) frame
  traces ← parse_options options
  ok (record {
    ihl = ihl;
    total = total;
    options = options;
    traces = traces;
    payload = drop (14 + ihl) frame;
    ttl = octet frame 22;
  })

-- the traces that a packet has room for, on a path of `hops` switches
abbrev pub trace_room : Option (List Trace) → ℕ → ℕ → Option ℕ
trace_room none total hops = none
trace_room (some traces) total hops =
    some (min max_traces (min (length traces + hops) (length traces + (65535 - total) / 4)))

-- `path` counts only by its length; `total` is a 16-bit field, so the difference is not negative
unfoldable pub expected_trace_count : List ℕ → ℕ → Result (Option ℕ)
unfolding parse_frame
expected_trace_count sent hops = do
  original ← parse_frame sent
  ok (trace_room original.traces original.total hops)
