-- ===== src/Int/Rebuilt.antt =====
-- The IPv4 header that `expected_ip` rebuilds, byte by byte.
use Prim.Native.Nat.{suc, zero, ℕ, ◌+◌, ◌-◌, ◌/◌, ◌<◌, ◌≤◌}
use mathlib.Core.List.{List, [], ◌++◌, ◌∷◌}
use mathlib.Core.Logic.{inl, inr}
use mathlib.Core.Path.{ap, refl, sym, ◌∙◌, ◌≡◌}
use native.Mathlib.Omega.{arith}
use p4_cases.Int.Forwarded.{expected_ip}
use p4_cases.Int.Parse.{Packet}
use p4_cases.Ip.Recalculate.{octet}
use p4_cases.Prelude.Lists.{drop, length, take}
use p4_cases.Prelude.Result.{
  Result, bind_passed, guard_passed, ok, ok-injective, raise_if, value_error, ◌>>=◌, ◌>>◌,
}
use p4_cases.Prelude.Tests.{Bool-cases, ltb}
use p4_cases.Wire.Bytes.{be16, byte_at, slice, splice}
use p4_cases.Wire.Checksum.{checksum, words}
use p4_cases.Wire.Pack.{pack, u16}

-- So many elements from a position on, and the rest.
octets_from : ℕ → ℕ → List ℕ → List ℕ
octets_from zero k xs = drop k xs
octets_from (suc n) k xs = octet xs k ∷ octets_from n (suc k) xs

drop-octet : (k : ℕ) (xs : List ℕ) → k < length xs → drop k xs ≡ octet xs k ∷ drop (suc k) xs
drop-octet zero [] h = absurd (omega arith)
drop-octet zero (x ∷ xs) h = refl
drop-octet (suc k) [] h = absurd (omega arith)
drop-octet (suc k) (x ∷ xs) h = drop-octet k xs (omega arith)

drop-octets_from : (n k : ℕ) (xs : List ℕ) → k + n ≤ length xs → drop k xs ≡ octets_from n k xs
unfolding octets_from
drop-octets_from zero k xs h = refl
drop-octets_from (suc n) k xs h =
    drop-octet k xs (omega arith)
    ∙ ap (λ r. octet xs k ∷ r) (drop-octets_from n (suc k) xs (omega arith))

-- The header of 20 bytes, by its bytes.
abbrev header_octets : List ℕ → List ℕ
header_octets sent =
    octet sent 14
    ∷ octet sent 15
    ∷ octet sent 16
    ∷ octet sent 17
    ∷ octet sent 18
    ∷ octet sent 19
    ∷ octet sent 20
    ∷ octet sent 21
    ∷ octet sent 22
    ∷ octet sent 23
    ∷ octet sent 24
    ∷ octet sent 25
    ∷ octet sent 26
    ∷ octet sent 27
    ∷ octet sent 28
    ∷ octet sent 29
    ∷ octet sent 30
    ∷ octet sent 31
    ∷ octet sent 32
    ∷ octet sent 33
    ∷ []

slice-header_octets : (sent : List ℕ) → 34 ≤ length sent → slice 14 34 sent ≡ header_octets sent
unfolding octets_from
slice-header_octets sent h = ap (take 20) (drop-octets_from 20 14 sent (omega arith))

pack_passed : (n : ℕ) (xs : List ℕ) → pack (u16 n ∷ []) ≡ ok xs → xs ≡ be16 n
unfolding pack
pack_passed n xs h = elim (Bool-cases (ltb n 65536)) [
  | inl e ↦ let q = rw e at h in sym (ok-injective q)
  | inr e ↦ let q = rw e at h in cc
]

abbrev pub header_front : List ℕ → Packet → List ℕ → ℕ → List ℕ
header_front sent p options hops =
    (0x45 + length options / 4)
    ∷ octet sent 15
    ∷ (be16 (20 + length options + length p.payload)
        ++ (octet sent 18
            ∷ octet sent 19
            ∷ octet sent 20
            ∷ octet sent 21
            ∷ (octet sent 22 - hops)
            ∷ octet sent 23
            ∷ []))

abbrev pub header_back : List ℕ → List ℕ → List ℕ
header_back sent options =
    octet sent 26
    ∷ octet sent 27
    ∷ octet sent 28
    ∷ octet sent 29
    ∷ octet sent 30
    ∷ octet sent 31
    ∷ octet sent 32
    ∷ octet sent 33
    ∷ options

-- The steps of `expected_ip` after the copy of the header.
after_copy : List ℕ → ℕ → ℕ → ℕ → Result (List ℕ)
after_copy plain words size hops = do
  total ← pack (u16 size ∷ [])
  let sized = splice 2 4 total (splice 0 1 ((0x45 + words) ∷ []) plain)
  ttl ← byte_at sized 8
  raise_if (ltb ttl hops) value_error
  let zeroed = splice 10 12 (0 ∷ 0 ∷ []) (splice 8 9 ((ttl - hops) ∷ []) sized)
  value ← pack (u16 (checksum zeroed) ∷ [])
  ok (splice 10 12 value zeroed)

expected_ip-after_copy :
    (sent : List ℕ) (p : Packet) (options : List ℕ) (hops : ℕ)
    → expected_ip sent p options hops
      ≡ after_copy
          (slice 14 34 sent ++ options)
          (length options / 4)
          (20 + length options + length p.payload)
          hops
unfolding expected_ip after_copy
expected_ip-after_copy sent p options hops = refl

pub expected_ip-checksum :
    (sent : List ℕ) (p : Packet) (options ip : List ℕ) (hops : ℕ)
    → 34 ≤ length sent
    → expected_ip sent p options hops ≡ ok ip
    → (hops ≤ octet sent 22)
      × (ip
          ≡ header_front sent p options hops
            ++ (be16 (
                  checksum
                    (header_front sent p options hops ++ (be16 0 ++ header_back sent options)))
                ++ header_back sent options))
unfolding after_copy
expected_ip-checksum sent p options ip hops long h =
    let size : ℕ = 20 + length options + length p.payload in
    let q =
      ap (λ xs. after_copy (xs ++ options) (length options / 4) size hops)
        (sym (slice-header_octets sent long))
      ∙ sym (expected_ip-after_copy sent p options hops)
      ∙ h in
    let (total, e1, h1) = bind_passed (pack (u16 size ∷ [])) _ q in
    let r = rw (pack_passed size total e1) at h1 in
    let (enough, h2) = guard_passed (ltb (octet sent 22) hops) value_error _ r in
    let zeroed = header_front sent p options hops ++ (be16 0 ++ header_back sent options) in
    let (value, e2, h3) = bind_passed (pack (u16 (checksum zeroed) ∷ [])) _ h2 in
    let t = rw (pack_passed (checksum zeroed) value e2) at h3 in
    (ground arith, sym (ok-injective t))
