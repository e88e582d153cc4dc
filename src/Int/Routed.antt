-- ===== src/Int/Routed.antt =====
-- What `check_forwarded` requires of the frame of a packet without an INT option.
use Prim.Native.Nat.{ℕ, ◌+◌, ◌-◌, ◌/◌, ◌≤◌}
use mathlib.Core.List.{List, [], append_assoc, reverse, reverse-cons, reverse-reverse, ◌++◌, ◌∷◌}
use mathlib.Core.Option.{none}
use mathlib.Core.Path.{ap, ap₂, refl, subst, sym, ◌∙◌, ◌≡◌}
use native.Mathlib.Omega.{arith}
use p4_cases.Int.Forwarded.{
  addresses, check_forwarded, expected_frame, expected_ip, rebuilt_ordinary,
}
use p4_cases.Int.Frames.{lookup, next_hops}
use p4_cases.Int.Parse.{Packet, parse_frame}
use p4_cases.Int.Parsed.{IsParse, parse_frame-IsParse}
use p4_cases.Int.Rebuilt.{expected_ip-checksum, header_back, header_front}
use p4_cases.Ip.Recalculate.{octet}
use p4_cases.Prelude.Lists.{drop, length, length-append, length-take, take}
use p4_cases.Prelude.Result.{bind_passed, ok, ok-injective}
use p4_cases.Wire.Bytes.{be16}
use p4_cases.Wire.Checksum.{checksum}
use p4_cases.Wire.Checksum.Validity.{checksum-checksum}

-- The Ethernet addresses of a frame that left the path: the next hop of the last switch, from that of
-- the switch before it, or from the first address of the sent frame where there is none.
pub data IsAddressed (sent : List ℕ) : List (ℕ × ℕ) → List ℕ → Type 0 where
  direct :
      (last : ℕ × ℕ) (target : List ℕ)
      → lookup next_hops last ≡ ok target
      → IsAddressed sent (last ∷ []) (target ++ take 6 sent)
  through :
      (earlier : List (ℕ × ℕ)) (previous last : ℕ × ℕ) (source target : List ℕ)
      → lookup next_hops previous ≡ ok source
      → lookup next_hops last ≡ ok target
      → IsAddressed sent (earlier ++ (previous ∷ last ∷ [])) (target ++ source)

-- The IPv4 header of the sent frame after so many hops, with the checksum `value`.
abbrev pub header_after : List ℕ → ℕ → List ℕ → ℕ → ℕ → List ℕ
header_after sent total options hops value =
    (octet sent 14 ∷ octet sent 15 ∷ be16 total)
    ++ (octet sent 18
        ∷ octet sent 19
        ∷ octet sent 20
        ∷ octet sent 21
        ∷ (octet sent 22 - hops)
        ∷ octet sent 23
        ∷ (be16 value
            ++ ((octet sent 26
                  ∷ octet sent 27
                  ∷ octet sent 28
                  ∷ octet sent 29
                  ∷ octet sent 30
                  ∷ octet sent 31
                  ∷ octet sent 32
                  ∷ octet sent 33
                  ∷ [])
                ++ options)))

-- The received frame is the sent one, routed along the path: its addresses are those of the end of
-- the path, its TTL is less by the hops, its header checksum validates, and all else is kept.
pub record IsRouted (sent received : List ℕ) (path : List (ℕ × ℕ)) (p : Packet) : Type 0 where
  pub ends : List ℕ
  pub value : ℕ
  pub addressed : IsAddressed sent path ends
  pub enough_ttl : length path ≤ p.ttl
  pub header_valid : checksum (header_after sent p.total p.options (length path) value) ≡ 0
  pub frame :
      received
      ≡ ends
        ++ (0x08 ∷ 0x00 ∷ (header_after sent p.total p.options (length path) value ++ p.payload))

addresses-IsAddressed :
    (sent : List ℕ) (path rev : List (ℕ × ℕ)) (ends : List ℕ)
    → path ≡ reverse rev
    → addresses sent rev ≡ ok ends
    → IsAddressed sent path ends
unfolding addresses
addresses-IsAddressed sent path [] ends e h = cc
addresses-IsAddressed sent path (last ∷ []) ends e h =
    let (target, found, h1) = bind_passed (lookup next_hops last) _ h in
    subst (λ q. IsAddressed sent q ends) (sym e)
      (subst (IsAddressed sent (last ∷ [])) (ok-injective h1) (direct last target found))
addresses-IsAddressed sent path (last ∷ previous ∷ earlier) ends e h =
    let (source, before, h1) = bind_passed (lookup next_hops previous) _ h in
    let (target, found, h2) = bind_passed (lookup next_hops last) _ h1 in
    let order : reverse (last ∷ previous ∷ earlier) ≡ reverse earlier ++ (previous ∷ last ∷ []) =
      reverse-cons last (previous ∷ earlier)
      ∙ ap (λ r. r ++ (last ∷ [])) (reverse-cons previous earlier)
      ∙ append_assoc (reverse earlier) (previous ∷ []) (last ∷ []) in
    subst (λ q. IsAddressed sent q ends) (sym (e ∙ order))
      (subst (IsAddressed sent (reverse earlier ++ (previous ∷ last ∷ []))) (ok-injective h2)
        (through (reverse earlier) previous last source target before found))

-- The first byte and the total length are those of the sent frame.
same_fields :
    (sent : List ℕ) (p : Packet)
    → IsParse sent p
    → (0x45 + length p.options / 4 ≡ octet sent 14)
      × (20 + length p.options + length p.payload ≡ p.total)
same_fields sent p parsed =
    let long = parsed.long in
    let version = parsed.version in
    let counted = parsed.header_words in
    let header = parsed.header in
    let total = parsed.total in
    let whole = ap length parsed.whole in
    (
      omega arith,
      omega (
        arith,
        length-append (take 34 sent) (p.options ++ p.payload),
        length-append p.options p.payload,
        length-take 34 sent,
      ),
    )

expected_frame-IsRouted :
    (sent received : List ℕ) (path : List (ℕ × ℕ)) (p : Packet)
    → IsParse sent p
    → expected_frame sent p p.options path ≡ ok received
    → IsRouted sent received path p
unfolding expected_frame
expected_frame-IsRouted sent received path p parsed h =
    let hops = length path in
    let (first_byte, size) = same_fields sent p parsed in
    let (ip, e1, h1) = bind_passed (expected_ip sent p p.options hops) _ h in
    let (ends, e2, h2) = bind_passed (addresses sent (reverse path)) _ h1 in
    let (enough, same) = expected_ip-checksum sent p p.options ip hops parsed.long e1 in
    let front = header_front sent p p.options hops in
    let back = header_back sent p.options in
    let value = checksum (front ++ (be16 0 ++ back)) in
    let fields : front ++ (be16 value ++ back) ≡ header_after sent p.total p.options hops value =
      ap₂ (λ first n. (first ∷ octet sent 15 ∷ be16 n) ++ drop 4 (front ++ (be16 value ++ back)))
        first_byte size in
    record {
      ends = ends;
      value = value;
      addressed =
          addresses-IsAddressed sent path (reverse path) ends (sym (reverse-reverse path)) e2;
      enough_ttl = subst (λ n. hops ≤ n) (sym parsed.ttl) enough;
      header_valid = subst (λ xs. checksum xs ≡ 0) fields (checksum-checksum front back refl);
      frame =
          sym (ok-injective h2)
          ∙ ap (λ xs. ends ++ (0x08 ∷ 0x00 ∷ (xs ++ p.payload))) (same ∙ fields);
    }

-- For a packet that parses and has no INT option, `check_forwarded` accepts only a frame with the
-- next hops at the end of the path as its addresses, the TTL of the packet less the length of the
-- path, which is at most that TTL, a header checksum that validates, and all else of the packet kept:
-- the other header fields, the options and the payload.
pub check_forwarded-IsRouted :
    (sent received : List ℕ) (path : List (ℕ × ℕ)) (p : Packet)
    → parse_frame sent ≡ ok p
    → p.traces ≡ none
    → check_forwarded sent received path ≡ ok tt
    → IsRouted sent received path p
check_forwarded-IsRouted sent received path p run untraced h =
    expected_frame-IsRouted sent received path p (parse_frame-IsParse sent p run)
      (rebuilt_ordinary sent received path p run untraced h)
