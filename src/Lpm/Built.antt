-- ===== src/Lpm/Built.antt =====
-- What `transport_segment` of the IPv6 case returns.
use Prim.Native.Nat.{ℕ, ◌%◌, ◌+◌, ◌<◌, ◌≤◌}
use mathlib.Core.Bool.{true}
use mathlib.Core.List.{List, [], ◌++◌, ◌∷◌}
use mathlib.Core.Logic.{inl, inr, ◌⊎◌}
use mathlib.Core.Path.{refl, ◌≡◌}
use native.Mathlib.Omega.{arith}
use p4_cases.Ip.Built.{length-filler}
use p4_cases.Ip.Segments.{checksum_value-nonzero}
use p4_cases.Ip.Transport.{checksum_value}
use p4_cases.Lpm.Frames.{Address, label, segment, transport_segment, with_checksum}
use p4_cases.Prelude.Lists.{
  drop, drop-append_append, length, length-append, length-take, take, take-append,
}
use p4_cases.Prelude.Result.{ok}
use p4_cases.Prelude.Tests.{if◌then◌else◌, ltb, lt→ltb, ◌==◌}
use p4_cases.Wire.Bytes.{be16, be32}
use p4_cases.Wire.Checksum.{checksum}
use p4_cases.Wire.Checksum.Sums.{checksum-le}
use p4_cases.Wire.Checksum.Validity.{checksum-filled}

-- The IPv6 pseudo header of a segment of `size` bytes.
abbrev pub pseudo : List ℕ → List ℕ → ℕ → ℕ → List ℕ
pseudo source target protocol size =
    source ++ (target ++ (be32 size ++ (0 ∷ 0 ∷ 0 ∷ protocol ∷ [])))

-- The header of each protocol that has a checksum.
abbrev pub header_size : ℕ → ℕ
header_size protocol = if protocol == 6 then 20 else 8

-- A segment: a header, the payload, and a checksum for both and the pseudo header.
pub record IsSegment (source target payload : List ℕ) (protocol : ℕ) (t : List ℕ) : Type 0 where
  pub size : length t ≡ header_size protocol + length payload
  pub content : drop (header_size protocol) t ≡ payload
  pub valid : checksum (pseudo source target protocol (length t) ++ t) ≡ 0

module _ (protocol : ℕ) (source target xs ys : List ℕ) where
  abbrev total : ℕ
  total = 2 + length xs + length ys

  abbrev zeroed : ℕ
  zeroed = checksum (pseudo source target protocol total ++ (xs ++ (be16 0 ++ ys)))

  abbrev value : ℕ
  value = checksum_value protocol zeroed

  abbrev filled : List ℕ
  filled = xs ++ (be16 value ++ ys)

  value_fits : ltb value 65536 ≡ true
  value_fits =
      let low = checksum-le (pseudo source target protocol total ++ (xs ++ (be16 0 ++ ys))) in
      ground arith

  length_segment : (v : ℕ) → length (xs ++ (be16 v ++ ys)) ≡ total
  length_segment v = omega (arith, length-append xs (be16 v ++ ys))

  with_checksum_run :
      (offset : ℕ)
      → length xs ≡ offset
      → total < 4294967296
      → protocol < 256
      → with_checksum protocol source target (xs ++ (be16 0 ++ ys)) offset ≡ ok filled
  unfolding with_checksum
  with_checksum_run offset h hs hp =
      rw
        (
          length_segment 0,
          lt→ltb _ _ hp,
          lt→ltb _ _ hs,
          value_fits,
          take-append offset xs (be16 0 ++ ys) h,
          drop-append_append offset 2 xs (be16 0) ys h refl,
        )
        refl

  filled-valid :
      length source ≡ 16
      → length target ≡ 16
      → length xs % 2 ≡ 0
      → checksum (pseudo source target protocol (length filled) ++ filled) ≡ 0
  filled-valid hs ht even =
      let tail : List ℕ = be32 total ++ (0 ∷ 0 ∷ 0 ∷ protocol ∷ []) in
      let n : length (pseudo source target protocol total ++ xs) % 2 ≡ 0 = omega (
        arith,
        length-append (pseudo source target protocol total) xs,
        length-append source (target ++ tail),
        length-append target tail,
      ) in
      rw (length_segment value) (
        checksum-filled (pseudo source target protocol total) xs ys value n
          (checksum_value-nonzero protocol zeroed))

module _ (source target : Address) (identification size : ℕ) (hs : length source.packed ≡ 16)
    (ht : length target.packed ≡ 16) (hid : identification < 65536) (hsize : size ≤ 1452) where
  abbrev payload : List ℕ
  payload = take size (label (be16 identification))

  length_payload : length payload ≡ size
  length_payload = omega (arith, length-take size (label (be16 identification)), length-filler)

  abbrev Carries : ℕ → Type 0
  Carries protocol =
      (t : List ℕ) × (transport_segment source target protocol identification size ≡ ok t)
      × IsSegment source.packed target.packed payload protocol t

  -- The three headers, up to the checksum and after it.
  udp_start : List ℕ
  udp_start = be16 1111 ++ (be16 2222 ++ be16 (8 + size))

  segment_udp : Carries 17
  unfolding transport_segment segment udp_start
  segment_udp = (
    filled 17 source.packed target.packed udp_start payload,
    (let fits : ltb (8 + size) 65536 ≡ true = ground arith in
        rw (lt→ltb _ _ hid, fits)
          (with_checksum_run 17 source.packed target.packed udp_start payload 6 refl
            (omega (arith, length_payload)) (omega arith))),
    record {
      size = omega (arith, length_segment 17 source.packed target.packed udp_start payload 0);
      content = refl;
      valid = filled-valid 17 source.packed target.packed udp_start payload hs ht refl;
    },
  )

  abbrev tcp_start : List ℕ
  tcp_start =
      be16 1111 ++ (be16 2222 ++ (be32 identification ++ (be32 0 ++ (0x50 ∷ 0x18 ∷ be16 4096))))

  segment_tcp : Carries 6
  unfolding transport_segment segment
  segment_tcp = (
    filled 6 source.packed target.packed tcp_start (be16 0 ++ payload),
    (let fits : ltb identification 4294967296 ≡ true = ground arith in
        rw (lt→ltb _ _ hid, fits)
          (with_checksum_run 6 source.packed target.packed tcp_start (be16 0 ++ payload) 16 refl
            (omega (arith, length_payload)) (omega arith))),
    record {
      size = omega arith;
      content = refl;
      valid = filled-valid 6 source.packed target.packed tcp_start (be16 0 ++ payload) hs ht refl;
    },
  )

  abbrev icmp_rest : List ℕ
  icmp_rest = be16 1234 ++ (be16 identification ++ payload)

  segment_icmp : Carries 58
  unfolding transport_segment segment
  segment_icmp = (
    filled 58 source.packed target.packed (128 ∷ 0 ∷ []) icmp_rest,
    rw (lt→ltb _ _ hid) (
        with_checksum_run 58 source.packed target.packed (128 ∷ 0 ∷ []) icmp_rest 2 refl
          (omega (arith, length_payload)) (omega arith)),
    record {
      size = omega arith;
      content = refl;
      valid = filled-valid 58 source.packed target.packed (128 ∷ 0 ∷ []) icmp_rest hs ht refl;
    },
  )

-- For UDP, TCP and ICMPv6, addresses of 16 bytes and at most 1452 bytes of payload,
-- `transport_segment` returns the header of the protocol and the payload, with a checksum that
-- validates in the pseudo header.
pub transport_segment-IsSegment :
    (source target : Address) (protocol identification size : ℕ)
    → length source.packed ≡ 16
    → length target.packed ≡ 16
    → identification < 65536
    → size ≤ 1452
    → (protocol ≡ 17) ⊎ ((protocol ≡ 6) ⊎ (protocol ≡ 58))
    → (t : List ℕ) × (transport_segment source target protocol identification size ≡ ok t)
      × IsSegment source.packed target.packed (take size (label (be16 identification))) protocol t
transport_segment-IsSegment source target protocol identification size hs ht hid hsize kind =
    elim kind [
      | inl e ↦ rw e (segment_udp source target identification size hs ht hid hsize)
      | inr (inl e) ↦ rw e (segment_tcp source target identification size hs ht hid hsize)
      | inr (inr e) ↦ rw e (segment_icmp source target identification size hs ht hid hsize)
    ]
