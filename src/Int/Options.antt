-- ===== src/Int/Options.antt =====
-- `trace_bytes`, `int_option` and the part of `parse_frame` that reads the option back.
use Prim.Native.Nat.{suc, zero, ℕ, ◌%◌, ◌*◌, ◌+◌, ◌/◌}
use mathlib.Core.Bool.{Bool, false, not, ◌&&◌, ◌||◌}
use mathlib.Core.List.{List, [], ◌++◌, ◌∷◌}
use mathlib.Core.Option.{Option, none, some}
use p4_cases.Ip.Recalculate.{octet}
use p4_cases.Prelude.Lists.{drop, length, take}
use p4_cases.Prelude.Result.{Result, ok, raise_if, runtime_error, value_error, ◌>>=◌, ◌>>◌}
use p4_cases.Prelude.Tests.{if◌then◌else◌, ltb, ◌==◌}
use p4_cases.Wire.Bytes.{from_bytes, slice}
use p4_cases.Wire.Pack.{pack, u16, u32, u8}

abbrev pub max_traces : ℕ
max_traces = 9

-- the tuple (swid, depth, port)
pub record Trace : Type 0 where
  pub swid : ℕ
  pub depth : ℕ
  pub port : ℕ

-- `swid << 19 | depth << 6 | port`; the guard of `trace_bytes` keeps the fields apart
abbrev pub trace_word : Trace → ℕ
trace_word t = t.swid * 524288 + t.depth * 64 + t.port

abbrev pub trace_fits : Trace → Bool
trace_fits t = ltb t.swid 8192 && (ltb t.depth 8192 && ltb t.port 64)

unfoldable pub trace_bytes : Trace → Result (List ℕ)
unfolding pack
trace_bytes t = do raise_if (not (trace_fits t)) value_error; pack (u32 (trace_word t) ∷ [])

-- `b"".join(map(trace_bytes, traces))`
unfoldable pub join_traces : List Trace → Result (List ℕ)
unfolding trace_bytes
join_traces [] = ok []
join_traces (t ∷ ts) = do first ← trace_bytes t; rest ← join_traces ts; ok (first ++ rest)

-- `0x9F if copied else 0x1F`
abbrev pub option_code : Bool → ℕ
option_code copied = if copied then 0x9f else 0x1f

unfoldable pub int_option : List Trace → Bool → Result (List ℕ)
unfolding join_traces pack
int_option traces copied = do
  raise_if (ltb max_traces (length traces)) value_error
  body ← join_traces traces
  header ← pack (u8 (option_code copied) ∷ u8 (4 + length body) ∷ u16 (length traces) ∷ [])
  ok (header ++ body)

-- `(value >> 19, value >> 6 & 8191, value & 63)`
unfoldable pub trace_of : ℕ → Trace
trace_of value = record { swid = value / 524288; depth = value / 64 % 8192; port = value % 64 }

-- `for offset in range(4, length, 4)`, where `length` is 4 + 4 * count
unfoldable pub read_traces : ℕ → ℕ → List ℕ → List Trace
unfolding trace_of from_bytes
read_traces zero offset options = []
read_traces (suc count) offset options =
    trace_of (from_bytes (take 4 (drop offset options)) 0) ∷ read_traces count (offset + 4) options

-- The option is an INT option: `options and options[0] & 0x7F == 0x1F`.
abbrev pub is_int : List ℕ → Bool
is_int [] = false
is_int (b ∷ bs) = b % 128 == 0x1f

-- the traces of the options, `None` where they are no INT option
unfoldable pub parse_options : List ℕ → Result (Option (List Trace))
unfolding read_traces from_bytes
parse_options options =
    let count = from_bytes (slice 2 4 options) 0 in
    let size = octet options 1 in
    if is_int options
    then (do
      raise_if (ltb (length options) 4) runtime_error
      raise_if
          (ltb max_traces count || (not (size == 4 + 4 * count) || not (size == length options)))
          runtime_error
      ok (some (read_traces count 4 options)))
    else ok none
