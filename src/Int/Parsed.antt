-- ===== src/Int/Parsed.antt =====
-- What a successful parse says of the frame.
use Prim.Native.Nat.{ℕ, ◌%◌, ◌*◌, ◌+◌, ◌-◌, ◌/◌, ◌≤◌}
use mathlib.Core.Bool.{false, not, true}
use mathlib.Core.List.{List, [], ◌++◌, ◌∷◌}
use mathlib.Core.Option.{Option}
use mathlib.Core.Path.{ap, refl, subst, sym, ◌∙◌, ◌≡◌}
use native.Mathlib.Omega.{arith}
use p4_cases.Int.Options.{Trace, parse_options}
use p4_cases.Int.Parse.{Packet, bad_lengths, bad_start, parse_frame}
use p4_cases.Int.Words.{IsOptions, from_bytes-pair, parse_options_sound}
use p4_cases.Ip.Recalculate.{ihl_bytes, octet}
use p4_cases.Prelude.Lists.{drop, length, length-drop, length-take, take, take-append-drop}
use p4_cases.Prelude.Result.{bind_passed, guard_passed, ok, ok-injective, runtime_error}
use p4_cases.Prelude.Slices.{drop-drop}
use p4_cases.Prelude.Tests.{◌==◌}
use p4_cases.Wire.Bytes.{bytes_eq, bytes_eq→eq, from_bytes, slice}
use p4_cases.Wire.Checksum.{checksum, words}

-- The packet `p` is what the frame `f` holds: an Ethernet header for IPv4, an IPv4 header of version 4
-- with its length in words and the total length at their places, the options, and the payload.
pub record IsParse (f : List ℕ) (p : Packet) : Type 0 where
  pub long : 34 ≤ length f
  pub ether_type : take 2 (drop 12 f) ≡ 8 ∷ 0 ∷ []
  pub version : octet f 14 / 16 ≡ 4
  pub header_words : p.ihl ≡ octet f 14 % 16 * 4
  pub named_total : p.total ≡ octet f 16 * 256 + octet f 17
  pub ttl : p.ttl ≡ octet f 22
  pub whole : f ≡ take 34 f ++ (p.options ++ p.payload)
  pub total : length f ≡ 14 + p.total
  pub header : p.ihl ≡ 20 + length p.options
  pub valid : checksum (slice 14 (14 + p.ihl) f) ≡ 0
  pub well_formed : IsOptions p.options p.traces

-- The bytes of the first guard.
abbrev IsStart : List ℕ → Type 0
IsStart f = (34 ≤ length f) × (take 2 (drop 12 f) ≡ 8 ∷ 0 ∷ []) × (octet f 14 / 16 ≡ 4)

bad_start-IsStart : (f : List ℕ) → bad_start f ≡ false → IsStart f
bad_start-IsStart f h =
    let long : 34 ≤ length f = ground arith in
    let kind : bytes_eq (slice 12 14 f) (8 ∷ 0 ∷ []) ≡ true = ground arith in
    let version : octet f 14 / 16 ≡ 4 = ground arith in (long, bytes_eq→eq _ _ kind, version)

lengths_passed :
    (f : List ℕ) (ihl total : ℕ)
    → bad_lengths f ihl total ≡ false
    → (20 ≤ ihl) × (ihl ≤ total) × (length f ≡ 14 + total)
lengths_passed f ihl total h =
    let lo : 20 ≤ ihl = ground arith in
    let room : ihl ≤ total = ground arith in
    let size : length f ≡ 14 + total = ground arith in (lo, room, size)

zero_passed : (n : ℕ) → not (n == 0) ≡ false → n ≡ 0
zero_passed n h = ground arith

packet-IsParse :
    (f : List ℕ) (ihl total : ℕ) (traces : Option (List Trace))
    → IsStart f
    → ihl ≡ octet f 14 % 16 * 4
    → total ≡ octet f 16 * 256 + octet f 17
    → (20 ≤ ihl) × (ihl ≤ total) × (length f ≡ 14 + total)
    → checksum (slice 14 (14 + ihl) f) ≡ 0
    → IsOptions (slice 34 (14 + ihl) f) traces
    → IsParse f (record {
      ihl = ihl;
      total = total;
      options = slice 34 (14 + ihl) f;
      traces = traces;
      payload = drop (14 + ihl) f;
      ttl = octet f 22;
    })
packet-IsParse f ihl total traces (long, kind, version) words named (lo, room, size) zero_sum
      formed =
    let k : ℕ = 14 + ihl - 34 in
    let past : drop k (drop 34 f) ≡ drop (14 + ihl) f = drop-drop 34 k (14 + ihl) f (omega arith) in
    let joined : slice 34 (14 + ihl) f ++ drop (14 + ihl) f ≡ drop 34 f =
      ap (λ r. slice 34 (14 + ihl) f ++ r) (sym past) ∙ take-append-drop k (drop 34 f) in
    record {
      long = long;
      ether_type = kind;
      version = version;
      header_words = words;
      named_total = named;
      ttl = refl;
      whole = sym (ap (λ r. take 34 f ++ r) joined ∙ take-append-drop 34 f);
      total = size;
      header = omega (arith, length-take k (drop 34 f), length-drop 34 f);
      valid = zero_sum;
      well_formed = formed;
    }

-- A frame that `parse_frame` accepts is an Ethernet frame for IPv4 of version 4 with at least 34 bytes:
-- its first 34 bytes, the options and the payload. Byte 14 names the length of the header and bytes 16
-- and 17 the total length, which agree with the options and with the length of the frame; byte 22 is
-- the TTL; the header checksum validates. If the first option byte is that of INT, copied or not, the
-- option has at most nine traces and exactly their length, its count and length bytes say so, and the
-- traces are the words after them; if it is not, there are no traces.
pub parse_frame-IsParse : (f : List ℕ) (p : Packet) → parse_frame f ≡ ok p → IsParse f p
unfolding parse_frame
parse_frame-IsParse f p h =
    let ihl : ℕ = ihl_bytes (octet f 14) in
    let total : ℕ = from_bytes (slice 16 18 f) 0 in
    let (good_start, h1) = guard_passed (bad_start f) runtime_error _ h in
    let (good_lengths, h2) = guard_passed (bad_lengths f ihl total) runtime_error _ h1 in
    let (good_sum, h3) =
      guard_passed (not (checksum (slice 14 (14 + ihl) f) == 0)) runtime_error _ h2 in
    let (ts, options, h4) = bind_passed (parse_options (slice 34 (14 + ihl) f)) _ h3 in
    let start = bad_start-IsStart f good_start in
    let named = from_bytes-pair f 16 18 (omega (arith, start.0)) (omega arith) in
    let formed = parse_options_sound (slice 34 (14 + ihl) f) ts options in
    let parsed =
      packet-IsParse f ihl total ts start refl named (lengths_passed f ihl total good_lengths)
        (zero_passed _ good_sum) formed in
    subst (λ q. IsParse f q) (ok-injective h4) parsed
