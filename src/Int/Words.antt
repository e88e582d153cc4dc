-- ===== src/Int/Words.antt =====
-- What a successful parse says of the options: the words of an INT option are its traces.
use Prim.Native.Nat.{suc, zero, ℕ, ◌%◌, ◌*◌, ◌+◌, ◌-◌, ◌<◌, ◌≤◌}
use mathlib.Core.Bool.{false, not, true, ◌||◌}
use mathlib.Core.List.{List, [], ◌∷◌}
use mathlib.Core.Logic.{inl, inr, ◌≢◌}
use mathlib.Core.Option.{Option, none, some}
use mathlib.Core.Path.{ap, refl, subst, sym, ◌∙◌, ◌≡◌}
use native.Mathlib.Omega.{arith}
use p4_cases.Int.Options.{Trace, is_int, max_traces, parse_options, read_traces, trace_of}
use p4_cases.Ip.Recalculate.{octet}
use p4_cases.Prelude.Lists.{drop, length, length-drop, take}
use p4_cases.Prelude.Result.{guard_passed, ok, runtime_error}
use p4_cases.Prelude.Slices.{drop-drop}
use p4_cases.Prelude.Tests.{Bool-cases, ltb, ◌==◌}
use p4_cases.Wire.Bytes.{from_bytes, slice}

-- The bytes are the traces, a word of four bytes each: the switch above 13 bits of depth above 6 bits
-- of port.
pub data IsWords : List ℕ → List Trace → Type 0 where
  no_word : IsWords [] []
  word :
      (a b c d : ℕ) (rest : List ℕ) (t : Trace) (ts : List Trace)
      → t.swid * 524288 + t.depth * 64 + t.port ≡ a * 16777216 + b * 65536 + c * 256 + d
      → t.depth < 8192
      → t.port < 64
      → IsWords rest ts
      → IsWords (a ∷ b ∷ c ∷ d ∷ rest) (t ∷ ts)

-- An INT option: the code, the length in bytes, the count of traces, and the traces.
pub record IsIntOption (options : List ℕ) (ts : List Trace) : Type 0 where
  pub code : octet options 0 % 128 ≡ 0x1f
  pub few : length ts ≤ 9
  pub size : length options ≡ 4 + 4 * length ts
  pub named_size : octet options 1 ≡ length options
  pub named_count : octet options 2 * 256 + octet options 3 ≡ length ts
  pub words : IsWords (drop 4 options) ts

-- The options have these traces: they are an INT option with them, or none.
abbrev pub IsOptions : List ℕ → Option (List Trace) → Type 0
IsOptions options none = octet options 0 % 128 ≢ 0x1f
IsOptions options (some ts) = IsIntOption options ts

octet-drop : (k i n : ℕ) (xs : List ℕ) → n ≡ k + i → octet (drop k xs) i ≡ octet xs n
octet-drop zero i n xs e = let p : i ≡ n = omega arith in ap (octet xs) p
octet-drop (suc k) i n [] e = refl
octet-drop (suc k) i zero (x ∷ xs) e = absurd (omega arith)
octet-drop (suc k) i (suc n) (x ∷ xs) e = octet-drop k i n xs (omega arith)

from_bytes-two :
    (xs : List ℕ) → 2 ≤ length xs → from_bytes (take 2 xs) 0 ≡ octet xs 0 * 256 + octet xs 1
unfolding from_bytes
from_bytes-two [] h = absurd (omega arith)
from_bytes-two (a ∷ []) h = absurd (omega arith)
from_bytes-two (a ∷ b ∷ xs) h = omega arith

-- A slice of two bytes is the number of the two.
pub from_bytes-pair :
    (xs : List ℕ) (i j : ℕ)
    → i + 2 ≤ length xs
    → j ≡ i + 2
    → from_bytes (slice i j xs) 0 ≡ octet xs i * 256 + octet xs (i + 1)
from_bytes-pair xs i j h e =
    let two : j - i ≡ 2 = omega arith in
    let long : 2 ≤ length (drop i xs) = omega (arith, length-drop i xs) in
    rw (two, ← octet-drop i 0 i xs (omega arith), ← octet-drop i 1 (i + 1) xs (omega arith))
      (from_bytes-two (drop i xs) long)

trace_of-word :
    (w : ℕ) → (trace_of w).swid * 524288 + (trace_of w).depth * 64 + (trace_of w).port ≡ w
unfolding trace_of
trace_of-word w = omega arith

trace_of-fits : (w : ℕ) → ((trace_of w).depth < 8192) × ((trace_of w).port < 64)
unfolding trace_of
trace_of-fits w = (omega arith, omega arith)

four : (a b c d : ℕ) → from_bytes (a ∷ b ∷ c ∷ d ∷ []) 0 ≡ a * 16777216 + b * 65536 + c * 256 + d
unfolding from_bytes
four a b c d = omega arith

-- One word more.
word_at :
    (ys : List ℕ) (ts : List Trace)
    → 4 ≤ length ys
    → IsWords (drop 4 ys) ts
    → IsWords ys (trace_of (from_bytes (take 4 ys) 0) ∷ ts)
word_at [] ts h w = absurd (omega arith)
word_at (a ∷ []) ts h w = absurd (omega arith)
word_at (a ∷ b ∷ []) ts h w = absurd (omega arith)
word_at (a ∷ b ∷ c ∷ []) ts h w = absurd (omega arith)
word_at (a ∷ b ∷ c ∷ d ∷ rest) ts h w =
    let n = from_bytes (a ∷ b ∷ c ∷ d ∷ []) 0 in
    let (low_depth, low_port) = trace_of-fits n in
    word a b c d rest (trace_of n) ts (trace_of-word n ∙ four a b c d) low_depth low_port w

length-read_traces : (count offset : ℕ) (o : List ℕ) → length (read_traces count offset o) ≡ count
unfolding read_traces
length-read_traces zero offset o = refl
length-read_traces (suc count) offset o = ap suc (length-read_traces count (offset + 4) o)

drop_all : (n : ℕ) (xs : List ℕ) → length xs ≤ n → drop n xs ≡ []
drop_all zero [] h = refl
drop_all zero (x ∷ xs) h = absurd (omega arith)
drop_all (suc n) [] h = refl
drop_all (suc n) (x ∷ xs) h = drop_all n xs (omega arith)

read_traces-IsWords :
    (count offset : ℕ) (o : List ℕ)
    → length o ≡ offset + 4 * count
    → IsWords (drop offset o) (read_traces count offset o)
unfolding read_traces
read_traces-IsWords zero offset o h =
    subst (λ xs. IsWords xs []) (sym (drop_all offset o (omega arith))) no_word
read_traces-IsWords (suc count) offset o h =
    let rest = read_traces-IsWords count (offset + 4) o (omega arith) in
    word_at (drop offset o) _ (omega (arith, length-drop offset o)) (
      subst (λ xs. IsWords xs (read_traces count (offset + 4) o))
        (sym (drop-drop offset 4 (offset + 4) o refl)) rest)

is_int-code : (o : List ℕ) → is_int o ≡ true → octet o 0 % 128 ≡ 0x1f
is_int-code [] h = cc
is_int-code (x ∷ xs) h = ground arith

code-is_int : (o : List ℕ) → is_int o ≡ false → octet o 0 % 128 ≢ 0x1f
code-is_int [] h e = omega arith
code-is_int (x ∷ xs) h e = ground arith

pub parse_options_sound :
    (o : List ℕ) (r : Option (List Trace)) → parse_options o ≡ ok r → IsOptions o r
unfolding parse_options
parse_options_sound o r h =
    let count : ℕ = from_bytes (slice 2 4 o) 0 in
    elim (Bool-cases (is_int o)) [
      | inl p ↦
          let q = rw p at h in
          let (long, h1) = guard_passed (ltb (length o) 4) runtime_error _ q in
          let (fine, h2) =
            guard_passed
              (ltb max_traces count
                || (not (octet o 1 == 4 + 4 * count) || not (octet o 1 == length o)))
              runtime_error _ h1 in
          let few : count ≤ 9 = ground arith in
          let size : length o ≡ 4 + 4 * count = ground arith in
          let named : octet o 1 ≡ length o = ground arith in
          let enough : 2 + 2 ≤ length o = ground arith in
          let n = length-read_traces count 4 o in
          let e : some (read_traces count 4 o) ≡ r = cc in
          subst (IsOptions o) e (record {
            code = is_int-code o p;
            few = omega (arith, n);
            size = omega (arith, n);
            named_size = named;
            named_count = sym (from_bytes-pair o 2 4 enough refl) ∙ sym n;
            words = read_traces-IsWords count 4 o size;
          })
      | inr p ↦
          let q = rw p at h in let e : none ≡ r = cc in subst (IsOptions o) e (code-is_int o p)
    ]
