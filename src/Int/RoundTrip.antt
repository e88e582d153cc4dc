-- ===== src/Int/RoundTrip.antt =====
-- What `int_option` writes, `parse_options` reads back.
use Prim.Native.Nat.{ℕ, ◌%◌, ◌*◌, ◌+◌, ◌/◌, ◌<◌, ◌≤◌}
use mathlib.Core.Bool.{Bool, false, true}
use mathlib.Core.List.{List, [], append_assoc, ◌++◌, ◌∷◌}
use mathlib.Core.Option.{some}
use mathlib.Core.Path.{ap, refl, subst, ◌≡◌}
use native.Mathlib.Omega.{arith}
use p4_cases.Int.Options.{
  Trace, int_option, is_int, join_traces, option_code, parse_options, read_traces, trace_bytes,
  trace_fits, trace_of, trace_word,
}
use p4_cases.Ip.Recalculate.{octet}
use p4_cases.Prelude.Lists.{All, drop-append, length, length-append}
use p4_cases.Prelude.Result.{ok}
use p4_cases.Prelude.Tests.{ltb, ltb→lt, ◌==◌}
use p4_cases.Wire.Bytes.{be16, be32, from_bytes}

abbrev pub Fits : Trace → Type 0
Fits t = (t.swid < 8192) × (t.depth < 8192) × (t.port < 64)

-- The body of the option.
pub trace_layout : List Trace → List ℕ
trace_layout [] = []
trace_layout (t ∷ ts) = be32 (trace_word t) ++ trace_layout ts

pub length-trace_layout : (ts : List Trace) → length (trace_layout ts) ≡ 4 * length ts
unfolding trace_layout
length-trace_layout [] = refl
length-trace_layout (t ∷ ts) = omega (arith, length-trace_layout ts)

trace_fits_run : (t : Trace) → Fits t → trace_fits t ≡ true
trace_fits_run t h = ground arith

trace_word-Fits : (t : Trace) → Fits t → ltb (trace_word t) 4294967296 ≡ true
trace_word-Fits t h = ground arith

trace_bytes_run : (t : Trace) → Fits t → trace_bytes t ≡ ok (be32 (trace_word t))
unfolding trace_bytes
trace_bytes_run t h = rw (trace_fits_run t h, trace_word-Fits t h)

pub join_traces_run : (ts : List Trace) → All Fits ts → join_traces ts ≡ ok (trace_layout ts)
unfolding join_traces trace_layout
join_traces_run [] h = refl
join_traces_run (t ∷ ts) h = rw (trace_bytes_run t h.0, join_traces_run ts h.1)

option_code_fits : (copied : Bool) → ltb (option_code copied) 256 ≡ true
option_code_fits true = refl
option_code_fits false = refl

-- The whole option.
pub option_layout : List Trace → Bool → List ℕ
option_layout ts copied =
    option_code copied ∷ (4 + 4 * length ts) ∷ (be16 (length ts) ++ trace_layout ts)

pub int_option_run :
    (ts : List Trace) (copied : Bool)
    → length ts ≤ 9
    → All Fits ts
    → int_option ts copied ≡ ok (option_layout ts copied)
unfolding int_option option_layout
int_option_run ts copied few h =
    let a : ltb 9 (length ts) ≡ false = ground arith in
    let b : ltb (length ts) 65536 ≡ true = ground arith in
    let c : ltb (4 + 4 * length ts) 256 ≡ true = ground arith in
    let d : ltb (option_code copied) 256 ≡ true = option_code_fits copied in
    rw (a, join_traces_run ts h, length-trace_layout ts, b, c, d) refl

from_bytes-be32 : (n : ℕ) → n < 4294967296 → from_bytes (be32 n) 0 ≡ n
unfolding from_bytes
from_bytes-be32 n h = omega arith

trace_of-trace_word : (t : Trace) → Fits t → trace_of (trace_word t) ≡ t
unfolding trace_of
trace_of-trace_word t h = ground arith

read_traces-trace_layout :
    (ts : List Trace) (offset : ℕ) (front : List ℕ)
    → length front ≡ offset
    → All Fits ts
    → read_traces (length ts) offset (front ++ trace_layout ts) ≡ ts
unfolding read_traces trace_layout
read_traces-trace_layout [] offset front e h = refl
read_traces-trace_layout (t ∷ ts) offset front e h =
    rw (drop-append offset front (be32 (trace_word t) ++ trace_layout ts) e) (
      rw (from_bytes-be32 (trace_word t) (ltb→lt _ _ (trace_word-Fits t h.0))) (
        rw (trace_of-trace_word t h.0) (
          ap (λ r. t ∷ r)
            (subst (λ xs. read_traces (length ts) (offset + 4) xs ≡ ts)
              (append_assoc front (be32 (trace_word t)) (trace_layout ts))
              (read_traces-trace_layout ts (offset + 4) (front ++ be32 (trace_word t))
                (omega (arith, length-append front (be32 (trace_word t)), e)) h.1)))))

option_code_int : (copied : Bool) (rest : List ℕ) → is_int (option_code copied ∷ rest) ≡ true
option_code_int true rest = refl
option_code_int false rest = refl

-- Reading an option whose code `c` is that of INT.
parse_code :
    (c : ℕ) (ts : List Trace)
    → (c % 128 == 31) ≡ true
    → length ts ≤ 9
    → All Fits ts
    → parse_options (c ∷ (4 + 4 * length ts) ∷ (be16 (length ts) ++ trace_layout ts)) ≡ ok (some ts)
unfolding parse_options from_bytes
parse_code c ts p few h =
    let n : ℕ = length ts in
    let o : List ℕ = c ∷ (4 + 4 * n) ∷ (be16 n ++ trace_layout ts) in
    let count : (0 + n / 256) * 256 + n % 256 ≡ n = omega arith in
    let total : length o ≡ 4 + 4 * n = omega (arith, length-trace_layout ts) in
    let long : ltb (4 + 4 * n) 4 ≡ false = ground arith in
    let small : ltb 9 n ≡ false = ground arith in
    let size : (4 + 4 * n == 4 + 4 * n) ≡ true = ground arith in
    let front : List ℕ = c ∷ (4 + 4 * n) ∷ be16 n in
    rw (p, count, total, long, small, size)
      (ap (λ xs. ok (some xs)) (read_traces-trace_layout ts 4 front refl h))

parse_options-option_layout :
    (ts : List Trace) (copied : Bool)
    → length ts ≤ 9
    → All Fits ts
    → parse_options (option_layout ts copied) ≡ ok (some ts)
unfolding option_layout
parse_options-option_layout ts copied few h =
    parse_code (option_code copied) ts (option_code_int copied (be16 0)) few h

-- For at most nine traces whose fields fit, `int_option` writes an option of 4 + 4 n bytes, its
-- second byte the length, from which the reader of `parse_frame` gets exactly these traces back.
pub parse_options-int_option :
    (ts : List Trace) (copied : Bool)
    → length ts ≤ 9
    → All Fits ts
    → (o : List ℕ) × (int_option ts copied ≡ ok o)
      × (length o ≡ 4 + 4 * length ts)
      × (octet o 1 ≡ length o)
      × (parse_options o ≡ ok (some ts))
unfolding option_layout
parse_options-int_option ts copied few h = (
  option_layout ts copied,
  int_option_run ts copied few h,
  omega (arith, length-trace_layout ts),
  omega (arith, length-trace_layout ts),
  parse_options-option_layout ts copied few h,
)
