-- ===== src/Vxlan/Outer.antt =====
-- What a tunnel end point relies on in an encapsulated frame.
use Prim.Native.Nat.{ℕ, ◌+◌, ◌<◌, ◌≤◌}
use mathlib.Core.Bool.{false, true}
use mathlib.Core.List.{List, [], ◌++◌, ◌∷◌}
use mathlib.Core.Logic.{inl, inr, ◌⊎◌}
use mathlib.Core.Path.{refl, ◌∙◌, ◌≡◌}
use native.Mathlib.Omega.{arith}
use p4_cases.Prelude.Lists.{drop, length, take}
use p4_cases.Prelude.Result.{err, ok, value_error}
use p4_cases.Prelude.Tests.{Bool-cases, ltb, ltb→lt}
use p4_cases.Vxlan.{encapsulate, outer_dest, outer_ip_dest, outer_ip_source, outer_source, vxlan}
use p4_cases.Wire.Bytes.{be16, from_bytes, slice}
use p4_cases.Wire.Checksum.{checksum}
use p4_cases.Wire.Checksum.Validity.{checksum-checksum, checksum_fits}

-- The frame `e` carries `inner`.
pub record Carries (inner e : List ℕ) : Type 0 where
  pub addresses : take 12 e ≡ 0 ∷ 0 ∷ 0 ∷ 0 ∷ 0 ∷ 2 ∷ 0 ∷ 0 ∷ 0 ∷ 0xde ∷ 0xad ∷ 1 ∷ []
  pub ether_type : from_bytes (slice 12 14 e) 0 ≡ 0x0800
  pub version : slice 14 15 e ≡ 0x45 ∷ []
  pub total : from_bytes (slice 16 18 e) 0 ≡ length (drop 14 e)
  pub unfragmented : slice 18 22 e ≡ 0 ∷ 0 ∷ 0 ∷ 0 ∷ []
  pub time_and_protocol : slice 22 24 e ≡ 64 ∷ 17 ∷ []
  pub header_valid : checksum (slice 14 34 e) ≡ 0
  pub ip_source : slice 26 30 e ≡ 192 ∷ 168 ∷ 1 ∷ 1 ∷ []
  pub ip_dest : slice 30 34 e ≡ 192 ∷ 168 ∷ 1 ∷ 2 ∷ []
  pub source_port : from_bytes (slice 34 36 e) 0 ≡ 12345
  pub port : from_bytes (slice 36 38 e) 0 ≡ 4789
  pub udp_length : from_bytes (slice 38 40 e) 0 ≡ length (drop 34 e)
  pub unchecked : slice 40 42 e ≡ 0 ∷ 0 ∷ []
  pub flags : slice 42 46 e ≡ 8 ∷ 0 ∷ 0 ∷ 0 ∷ []
  pub vni : from_bytes (slice 46 49 e) 0 ≡ 5000
  pub reserved : slice 49 50 e ≡ 0 ∷ []
  pub inner_kept : drop 50 e ≡ inner

module _ (inner : List ℕ) (lo : 14 ≤ length inner) (hi : length inner ≤ 65499) where
  abbrev header_start : List ℕ
  header_start = 0x45 ∷ 0 ∷ (be16 (36 + length inner) ++ (0 ∷ 0 ∷ 0 ∷ 0 ∷ 64 ∷ 17 ∷ []))

  abbrev addresses : List ℕ
  addresses = outer_ip_source ++ outer_ip_dest

  abbrev value : ℕ
  value = checksum (header_start ++ (be16 0 ++ addresses))

  outer : List ℕ
  outer =
      (outer_dest ++ (outer_source ++ (8 ∷ 0 ∷ [])))
      ++ ((header_start ++ (be16 value ++ addresses))
          ++ ((be16 12345 ++ (be16 4789 ++ (be16 (16 + length inner) ++ be16 0)))
              ++ (vxlan ++ inner)))

  encapsulate_run : encapsulate inner ≡ ok outer
  unfolding encapsulate outer
  encapsulate_run =
      let a : ltb (length inner) 14 ≡ false = ground arith in
      let b : ltb 65499 (length inner) ≡ false = ground arith in
      let c : ltb (36 + length inner) 65536 ≡ true = ground arith in
      let d : ltb (16 + length inner) 65536 ≡ true = ground arith in
      rw (a, b, c, checksum_fits, d) refl

  length-outer : length outer ≡ 50 + length inner
  unfolding outer
  length-outer = omega arith

  from_bytes-be16 : (n : ℕ) → n < 65536 → from_bytes (be16 n) 0 ≡ n
  unfolding from_bytes
  from_bytes-be16 n h = omega arith

  outer-Carries : Carries inner outer
  unfolding outer
  outer-Carries = record {
    addresses = refl;
    ether_type = unfold from_bytes in refl;
    version = refl;
    unfragmented = refl;
    time_and_protocol = refl;
    source_port = unfold from_bytes in refl;
    reserved = refl;
    ip_source = refl;
    ip_dest = refl;
    unchecked = refl;
    flags = refl;
    total =
        let e : 36 + length inner ≡ length (drop 14 outer) = omega arith in
        from_bytes-be16 (36 + length inner) (omega arith) ∙ e;
    header_valid = checksum-checksum header_start addresses refl;
    port = unfold from_bytes in refl;
    udp_length =
        let e : 16 + length inner ≡ length (drop 34 outer) = omega arith in
        from_bytes-be16 (16 + length inner) (omega arith) ∙ e;
    vni = unfold from_bytes in refl;
    inner_kept = refl;
  }

-- For an inner frame of 14 to 65499 bytes `encapsulate` returns a frame of 50 bytes more. Its
-- outer Ethernet addresses are 00:00:00:00:00:02 from 00:00:00:de:ad:01, its outer IPv4 header,
-- of 20 bytes without fragments, with TTL 64 and protocol 17, goes from 192.168.1.1 to
-- 192.168.1.2 and its checksum validates, its outer lengths agree with the bytes there, the UDP
-- ports are 12345 and 4789 and the UDP checksum zero, the VXLAN flags have the bit I alone, the
-- network identifier is 5000, and the bytes from 50 on are the inner frame.
pub encapsulate-Carries :
    (inner : List ℕ)
    → 14 ≤ length inner
    → length inner ≤ 65499
    → (e : List ℕ) × (encapsulate inner ≡ ok e) × (length e ≡ 50 + length inner) × Carries inner e
encapsulate-Carries inner lo hi = (
  outer inner lo hi,
  encapsulate_run inner lo hi,
  length-outer inner lo hi,
  outer-Carries inner lo hi,
)

-- `encapsulate` returns a frame exactly for the inner frames of 14 to 65499 bytes; the upper bound is
-- where the total length of the outer packet reaches 65535. For all others it raises `ValueError`.
pub encapsulate_domain :
    (inner : List ℕ)
    → ((14 ≤ length inner)
        × (36 + length inner ≤ 65535)
        × ((e : List ℕ) × (encapsulate inner ≡ ok e)))
      ⊎ (¬ ((14 ≤ length inner) × (36 + length inner ≤ 65535))
          × (encapsulate inner ≡ err value_error))
unfolding encapsulate
encapsulate_domain inner = elim (Bool-cases (ltb (length inner) 14)) [
  | inl short ↦ inr ((λ h. let l = ltb→lt _ _ short in absurd (omega arith)), rw short refl)
  | inr enough ↦ elim (Bool-cases (ltb 65499 (length inner))) [
    | inl long ↦
        inr ((λ h. let l = ltb→lt _ _ long in absurd (omega arith)), rw (enough, long) refl)
    | inr small ↦
        let lo : 14 ≤ length inner = ground arith in
        let hi : length inner ≤ 65499 = ground arith in
        let total : 36 + length inner ≤ 65535 = omega arith in
        inl (lo, total, (outer inner lo hi, encapsulate_run inner lo hi))
  ]
]
