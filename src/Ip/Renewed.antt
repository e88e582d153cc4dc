-- ===== src/Ip/Renewed.antt =====
-- `recalculate_checksum` makes the IPv4 header validate and touches nothing else.
-- What `r` keeps of the frame `f`, whose header has `header` bytes.
use Prim.Native.Nat.{max, ℕ, ◌%◌, ◌+◌, ◌-◌, ◌/◌, ◌≤◌}
use mathlib.Core.List.{List, [], append_assoc, ◌++◌, ◌∷◌}
use mathlib.Core.Option.{some}
use mathlib.Core.Path.{ap, refl, sym, ◌∙◌, ◌≡◌}
use native.Mathlib.Omega.{arith}
use p4_cases.Ip.Recalculate.{ihl_bytes, recalculate_checksum}
use p4_cases.Prelude.Lists.{
  cut_twice, drop, drop-append, drop-append_append, get_elem?, length, length-append, length-drop,
  length-take, take, take-append, take-append-drop, take-append_more,
}
use p4_cases.Prelude.Result.{ok}
use p4_cases.Wire.Bytes.{splice}
use p4_cases.Wire.Checksum.{checksum}
use p4_cases.Wire.Checksum.Validity.{checksum-checksum}

pub record IsRenewed (f : List ℕ) (header : ℕ) (r : List ℕ) : Type 0 where
  pub same_length : length r ≡ length f
  pub front : take 24 r ≡ take 24 f
  pub back : drop 26 r ≡ drop 26 f
  pub valid : checksum (take header (drop 14 r)) ≡ 0

module _ (eth ip rest : List ℕ) (he : length eth ≡ 14) (hi : length ip ≡ 10) where
  -- The frame with the checksum field `a b`.
  abbrev filled : ℕ → ℕ → List ℕ
  filled a b = (eth ++ ip) ++ (a ∷ b ∷ rest)

  length_front : length (eth ++ ip) ≡ 24
  length_front = omega (arith, length-append eth ip)

  drop_field : (a b : ℕ) → drop 26 (filled a b) ≡ rest
  drop_field a b = drop-append_append 24 2 (eth ++ ip) (a ∷ b ∷ []) rest length_front refl

  take_front : (a b : ℕ) → take 24 (filled a b) ≡ eth ++ ip
  take_front a b = take-append 24 (eth ++ ip) (a ∷ b ∷ rest) length_front

  splice_field : (a b c d : ℕ) → splice 24 26 (c ∷ d ∷ []) (filled a b) ≡ filled c d
  splice_field a b c d = rw (take_front a b, drop_field a b)

  header_of :
      (header a b : ℕ)
      → 12 ≤ header
      → take header (drop 14 (filled a b)) ≡ ip ++ (a ∷ b ∷ take (header - 12) rest)
  header_of header a b h =
      rw (append_assoc eth ip (a ∷ b ∷ rest), drop-append 14 eth (ip ++ a ∷ b ∷ rest) he)
        (take-append_more header (header - 10) ip (a ∷ b ∷ rest) (omega arith)
          ∙ ap (λ (xs : List ℕ). ip ++ xs)
              (take-append_more (header - 10) (header - 12) (a ∷ b ∷ []) rest (omega arith)))

  module _ (x y header : ℕ) (h : 20 ≤ header) where
    value : ℕ
    value = checksum (take header (drop 14 (filled 0 0)))

    abbrev renewed : List ℕ
    renewed = filled (value / 256) (value % 256)

    renewed-IsRenewed : IsRenewed (filled x y) header renewed
    unfolding value
    renewed-IsRenewed = record {
      same_length = omega (
        arith,
        length-append (eth ++ ip) (x ∷ y ∷ rest),
        length-append (eth ++ ip) (value / 256 ∷ value % 256 ∷ rest),
      );
      front = take_front _ _ ∙ sym (take_front x y);
      back = drop_field _ _ ∙ sym (drop_field x y);
      valid =
          rw (header_of header _ _ (omega arith), header_of header 0 0 (omega arith))
            (checksum-checksum ip (take (header - 12) rest) (rw hi refl));
    }

    recalculate_run :
        (b : ℕ)
        → get_elem? (filled x y) 14 ≡ some b
        → max 20 (ihl_bytes b) ≡ header
        → recalculate_checksum (filled x y) ≡ ok renewed
    unfolding recalculate_checksum value
    recalculate_run b e q =
        let k : 14 + max 20 (ihl_bytes b) - 14 ≡ header = omega arith in
        rw (e, splice_field x y 0 0, k) (ap ok (splice_field 0 0 _ _))

two_bytes : (xs : List ℕ) → length xs ≡ 2 → (x : ℕ) × (y : ℕ) × (xs ≡ x ∷ y ∷ [])
two_bytes [] h = absurd (omega arith)
two_bytes (x ∷ []) h = absurd (omega arith)
two_bytes (x ∷ y ∷ []) h = (x, y, refl)
two_bytes (x ∷ y ∷ z ∷ xs) h = absurd (omega arith)

field_parts :
    (f : List ℕ)
    → 26 ≤ length f
    → (eth : List ℕ) × (ip : List ℕ) × (x : ℕ) × (y : ℕ) × (rest : List ℕ) × (f
        ≡ (eth ++ ip) ++ (x ∷ y ∷ rest))
      × (length eth ≡ 14)
      × (length ip ≡ 10)
field_parts f h =
    let (front, field, rest, e, hf, hx) = cut_twice 24 2 f h in
    let (x, y, e2) = two_bytes field hx in
    (
      take 14 front,
      drop 14 front,
      x,
      y,
      rest,
      rw (take-append-drop 14 front) (e ∙ ap (λ (t : List ℕ). front ++ (t ++ rest)) e2),
      omega (arith, length-take 14 front),
      omega (arith, length-drop 14 front),
    )

-- On a frame of at least 26 bytes `recalculate_checksum` returns a frame of the same length that
-- differs at most in the checksum field, and whose IPv4 header, of the length that the frame's
-- header-length field gives but at least 20 bytes, validates.
pub recalculate_checksum-IsRenewed :
    (f : List ℕ) (b : ℕ)
    → 26 ≤ length f
    → get_elem? f 14 ≡ some b
    → (r : List ℕ) × (recalculate_checksum f ≡ ok r) × IsRenewed f (max 20 (ihl_bytes b)) r
recalculate_checksum-IsRenewed f b h e =
    let (eth, ip, x, y, rest, q, he, hi) = field_parts f h in
    let header : ℕ = max 20 (ihl_bytes b) in
    let long : 20 ≤ header = omega arith in
    let e' : get_elem? ((eth ++ ip) ++ (x ∷ y ∷ rest)) 14 ≡ some b = rw (← q) e in
    rw q (
      renewed eth ip rest he hi x y header long,
      recalculate_run eth ip rest he hi x y header long b e' refl,
      renewed-IsRenewed eth ip rest he hi x y header long,
    )
