-- ===== src/Int/Forwarded.antt =====
-- `check_forwarded` of 06_int/packets.py.
use Prim.Native.Nat.{ℕ, ◌%◌, ◌+◌, ◌-◌, ◌/◌}
use mathlib.Core.Bool.{Bool, false, not, true, ◌&&◌}
use mathlib.Core.List.{List, [], map, reverse, ◌++◌, ◌∷◌}
use mathlib.Core.Option.{Option, none, some}
use mathlib.Core.Path.{ap, refl, sym, ◌∙◌, ◌≡◌}
use p4_cases.Int.Frames.{lookup, next_hops}
use p4_cases.Int.Options.{Trace, int_option}
use p4_cases.Int.Parse.{Packet, expected_trace_count, parse_frame}
use p4_cases.Prelude.Lists.{drop, length, take}
use p4_cases.Prelude.Result.{
  Result, bind_passed, err, guard_passed, index_error, ok, ok-injective, raise_if, runtime_error,
  value_error, ◌>>=◌, ◌>>◌,
}
use p4_cases.Prelude.Tests.{ltb, ◌==◌}
use p4_cases.Wire.Bytes.{byte_at, bytes_eq, bytes_eq→eq, slice, splice}
use p4_cases.Wire.Checksum.{checksum}
use p4_cases.Wire.Pack.{pack, u16}

-- the equality of two lists of pairs (switch, port)
unfoldable pub hops_eq : List (ℕ × ℕ) → List (ℕ × ℕ) → Bool
hops_eq [] [] = true
hops_eq [] (q ∷ qs) = false
hops_eq (p ∷ ps) [] = false
hops_eq ((a, b) ∷ ps) ((c, d) ∷ qs) = (a == c && b == d) && hops_eq ps qs

-- the equality of two lists of traces
unfoldable pub traces_eq : List Trace → List Trace → Bool
traces_eq [] [] = true
traces_eq [] (u ∷ us) = false
traces_eq (t ∷ ts) [] = false
traces_eq (t ∷ ts) (u ∷ us) =
    (t.swid == u.swid && (t.depth == u.depth && t.port == u.port)) && traces_eq ts us

-- `[(swid, port) for swid, _, port in newest]`
abbrev pub hop_of : Trace → ℕ × ℕ
hop_of t = (t.swid, t.port)

-- the traces of a packet where there are some
abbrev pub traces_of : Option (List Trace) → List Trace
traces_of none = []
traces_of (some traces) = traces

-- `options[0] & 128`
abbrev pub is_copied : List ℕ → Bool
is_copied [] = false
is_copied (b ∷ bs) = not (b / 128 % 2 == 0)

-- the checks of the traces, and the options that they imply
unfoldable pub traced_options :
    Packet → List Trace → List (ℕ × ℕ) → ℕ → Option (List Trace) → Result (List ℕ)
unfolding hops_eq traces_eq int_option
traced_options original traces path expected_count none = err runtime_error
traced_options original traces path expected_count (some seen) = do
  raise_if (not (length seen == expected_count)) runtime_error
  let inserted = expected_count - length traces
  let newest = take inserted seen
  raise_if (not (hops_eq (map hop_of newest) (reverse (take inserted path)))) runtime_error
  raise_if (not (traces_eq (drop inserted seen) traces)) runtime_error
  int_option (newest ++ traces) (is_copied original.options)

-- `new_options`
unfoldable pub new_options : Packet → Packet → List (ℕ × ℕ) → Option ℕ → Result (List ℕ)
unfolding traced_options bytes_eq
new_options original actual path none = do
  raise_if (not (bytes_eq actual.options original.options)) runtime_error
  ok original.options
new_options original actual path (some expected_count) =
    traced_options original (traces_of original.traces) path expected_count actual.traces

-- `expected_ip`; a byte that would become negative raises a `ValueError`
unfoldable pub expected_ip : List ℕ → Packet → List ℕ → ℕ → Result (List ℕ)
unfolding pack
expected_ip sent original options hops = do
  let plain = slice 14 34 sent ++ options
  total ← pack (u16 (20 + length options + length original.payload) ∷ [])
  let sized = splice 2 4 total (splice 0 1 ((0x45 + length options / 4) ∷ []) plain)
  ttl ← byte_at sized 8
  raise_if (ltb ttl hops) value_error
  let zeroed = splice 10 12 (0 ∷ 0 ∷ []) (splice 8 9 ((ttl - hops) ∷ []) sized)
  value ← pack (u16 (checksum zeroed) ∷ [])
  ok (splice 10 12 value zeroed)

-- `path[-1]`, and `NEXT_HOPS[path[-2]] if len(path) > 1 else sent[:6]`, by the reversed path
unfoldable pub addresses : List ℕ → List (ℕ × ℕ) → Result (List ℕ)
unfolding lookup
addresses sent [] = err index_error
addresses sent (last ∷ []) = do target ← lookup next_hops last; ok (target ++ take 6 sent)
addresses sent (last ∷ previous ∷ earlier) = do
  source ← lookup next_hops previous
  target ← lookup next_hops last
  ok (target ++ source)

-- `expected`
unfoldable pub expected_frame : List ℕ → Packet → List ℕ → List (ℕ × ℕ) → Result (List ℕ)
unfolding expected_ip addresses
expected_frame sent original options path = do
  ip ← expected_ip sent original options (length path)
  ends ← addresses sent (reverse path)
  ok (ends ++ (0x08 ∷ 0x00 ∷ (ip ++ original.payload)))

unfoldable pub check_forwarded : List ℕ → List ℕ → List (ℕ × ℕ) → Result (Unit {0})
unfolding parse_frame expected_trace_count new_options expected_frame bytes_eq
check_forwarded sent received path = do
  original ← parse_frame sent
  actual ← parse_frame received
  expected_count ← expected_trace_count sent (length path)
  options ← new_options original actual path expected_count
  expected ← expected_frame sent original options path
  raise_if (not (bytes_eq received expected)) runtime_error

count_run :
    (sent : List ℕ) (hops : ℕ) (original : Packet)
    → parse_frame sent ≡ ok original
    → original.traces ≡ none
    → expected_trace_count sent hops ≡ ok none
unfolding expected_trace_count
count_run sent hops original run untraced = rw (run, untraced) refl

options_kept :
    (original actual : Packet) (path : List (ℕ × ℕ)) (options : List ℕ)
    → new_options original actual path none ≡ ok options
    → options ≡ original.options
unfolding new_options
options_kept original actual path options h =
    let (same, e) =
      guard_passed (not (bytes_eq actual.options original.options)) runtime_error _ h in
    sym (ok-injective e)

-- The checks, one after the other.
record Passes (sent received : List ℕ) (path : List (ℕ × ℕ)) : Type 0 where
  original : Packet
  actual : Packet
  count : Option ℕ
  options : List ℕ
  parsed : parse_frame sent ≡ ok original
  counted : expected_trace_count sent (length path) ≡ ok count
  chosen_options : new_options original actual path count ≡ ok options
  rebuilt : expected_frame sent original options path ≡ ok received

check_forwarded-Passes :
    (sent received : List ℕ) (path : List (ℕ × ℕ))
    → check_forwarded sent received path ≡ ok tt
    → Passes sent received path
unfolding check_forwarded
check_forwarded-Passes sent received path h =
    let (original, e0, h0) = bind_passed (parse_frame sent) _ h in
    let (actual, e1, h1) = bind_passed (parse_frame received) _ h0 in
    let (count, e2, h2) = bind_passed (expected_trace_count sent (length path)) _ h1 in
    let (options, e3, h3) = bind_passed (new_options original actual path count) _ h2 in
    let (expected, e4, h4) = bind_passed (expected_frame sent original options path) _ h3 in
    let same : received ≡ expected =
      bytes_eq→eq received expected (passed (bytes_eq received expected) h4) in
    record {
      original = original;
      actual = actual;
      count = count;
      options = options;
      parsed = e0;
      counted = e2;
      chosen_options = e3;
      rebuilt = e4 ∙ ap ok (sym same);
    }
  where
    passed : (test : Bool) → raise_if (not test) runtime_error ≡ ok tt → test ≡ true
    passed true h = refl
    passed false h = cc

-- For a packet without an INT option the expected frame has its options.
pub rebuilt_ordinary :
    (sent received : List ℕ) (path : List (ℕ × ℕ)) (original : Packet)
    → parse_frame sent ≡ ok original
    → original.traces ≡ none
    → check_forwarded sent received path ≡ ok tt
    → expected_frame sent original original.options path ≡ ok received
rebuilt_ordinary sent received path original run untraced h =
    let p = check_forwarded-Passes sent received path h in
    let same : p.original ≡ original = ok-injective (sym p.parsed ∙ run) in
    let no_count : p.count ≡ none =
      ok-injective (sym p.counted ∙ count_run sent (length path) original run untraced) in
    let kept : p.options ≡ p.original.options =
      options_kept p.original p.actual path p.options
        (ap (new_options p.original p.actual path) (sym no_count) ∙ p.chosen_options) in
    ap (λ o. expected_frame sent o o.options path) (sym same)
    ∙ ap (λ xs. expected_frame sent p.original xs path) (sym kept)
    ∙ p.rebuilt
