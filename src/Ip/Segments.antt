-- ===== src/Ip/Segments.antt =====
-- The transport that `make_frame` of cases 09 and 12 builds, and its checksum.
use Prim.Native.Nat.{ℕ, ◌%◌, ◌*◌, ◌+◌, ◌/◌, ◌<◌, ◌≤◌}
use mathlib.Core.Bool.{Bool, true}
use mathlib.Core.List.{List, ◌++◌, ◌∷◌}
use mathlib.Core.Logic.{inl, inr, ◌≢◌, ◌⊎◌}
use mathlib.Core.Option.{some}
use mathlib.Core.Path.{refl, ◌≡◌}
use native.Mathlib.Omega.{arith}
use p4_cases.Ip.Transport.{build_transport, checksum_offset, checksum_value, segment, with_checksum}
use p4_cases.Prelude.Lists.{
  drop, drop-append_append, get_elem?, length, length-append, take, take-append,
}
use p4_cases.Prelude.Result.{ok}
use p4_cases.Prelude.Tests.{Bool-cases, if◌then◌else◌, ltb, lt→ltb, ◌==◌}
use p4_cases.Wire.Bytes.{be16, be32, slice}
use p4_cases.Wire.Checksum.{checksum}
use p4_cases.Wire.Checksum.Sums.{checksum-le}
use p4_cases.Wire.Checksum.Validity.{checksum-filled, nonzero}

-- The pseudo header of a segment of `size` bytes.
abbrev pub pseudo : List ℕ → List ℕ → ℕ → ℕ → List ℕ
pseudo source target protocol size = source ++ (target ++ (0 ∷ protocol ∷ be16 size))

-- The value is the checksum in one of the two forms.
pub checksum_value-nonzero :
    (protocol v : ℕ) → (checksum_value protocol v ≡ nonzero v) ⊎ (checksum_value protocol v ≡ v)
unfolding nonzero
checksum_value-nonzero protocol v = elim (Bool-cases (protocol == 17)) [
  | inl e ↦ rw e (inl refl)
  | inr e ↦ rw e (inr refl)
]

-- A UDP datagram with a checksum.
pub record IsUdp (source target payload : List ℕ) (sport dport : ℕ) (t : List ℕ) : Type 0 where
  pub size : length t ≡ 8 + length payload
  pub start : take 6 t ≡ be16 sport ++ (be16 dport ++ be16 (8 + length payload))
  pub content : drop 8 t ≡ payload
  pub sent : slice 6 8 t ≢ be16 0
  pub valid : checksum (pseudo source target 17 (length t) ++ t) ≡ 0

-- A TCP segment.
pub record IsTcp (source target options payload : List ℕ) (sport dport number : ℕ) (t : List ℕ)
    : Type 0 where
  pub size : length t ≡ 20 + length options + length payload
  pub start : take 12 t ≡ be16 sport ++ (be16 dport ++ (be32 number ++ be32 0))
  pub offset : get_elem? t 12 ≡ some ((5 + length options / 4) * 16)
  pub content : drop 20 t ≡ options ++ payload
  pub valid : checksum (pseudo source target 6 (length t) ++ t) ≡ 0

module _ (protocol : ℕ) (source target xs ys : List ℕ) where
  abbrev size : ℕ
  size = 2 + length xs + length ys

  abbrev value : ℕ
  value =
      checksum_value protocol
        (checksum (pseudo source target protocol size ++ (xs ++ (be16 0 ++ ys))))

  length_segment : (v : ℕ) → length (xs ++ (be16 v ++ ys)) ≡ size
  length_segment v = omega (arith, length-append xs (be16 v ++ ys))

  value_fits : ltb value 65536 ≡ true
  value_fits =
      let low = checksum-le (pseudo source target protocol size ++ (xs ++ (be16 0 ++ ys))) in
      ground arith

  with_checksum_run :
      length xs ≡ checksum_offset protocol
      → size < 65536
      → protocol < 256
      → with_checksum protocol source target (xs ++ (be16 0 ++ ys)) ≡ ok (xs ++ (be16 value ++ ys))
  unfolding with_checksum
  with_checksum_run h hs hp =
      rw
        (
          length_segment 0,
          lt→ltb _ _ hp,
          lt→ltb _ _ hs,
          value_fits,
          take-append (checksum_offset protocol) xs (be16 0 ++ ys) h,
          drop-append_append (checksum_offset protocol) 2 xs (be16 0) ys h refl,
        )
        refl

  -- The checksum of the segment with a zero field, in its pseudo header.
  abbrev zeroed : ℕ
  zeroed = checksum (pseudo source target protocol size ++ (xs ++ (be16 0 ++ ys)))

  module _ (hs : length source ≡ 4) (ht : length target ≡ 4) (even : length xs % 2 ≡ 0) where
    abbrev front : List ℕ
    front = pseudo source target protocol size

    length_front : length (front ++ xs) % 2 ≡ 0
    length_front = omega (
      arith,
      length-append front xs,
      length-append source (target ++ (0 ∷ protocol ∷ be16 size)),
      length-append target (0 ∷ protocol ∷ be16 size),
    )

    -- The checksum of the segment in its pseudo header is zero.
    with_checksum-valid :
        checksum (
          pseudo source target protocol (length (xs ++ (be16 value ++ ys)))
          ++ (xs ++ (be16 value ++ ys)))
        ≡ 0
    with_checksum-valid =
        rw (length_segment value)
          (checksum-filled front xs ys value length_front (checksum_value-nonzero protocol zeroed))

module _ (source target payload options : List ℕ) (sport dport number : ℕ) (hs : length source ≡ 4)
    (ht : length target ≡ 4) (hsp : sport < 65536) (hdp : dport < 65536) where
  abbrev udp_start : List ℕ
  udp_start = be16 sport ++ (be16 dport ++ be16 (8 + length payload))

  abbrev udp_bytes : List ℕ
  udp_bytes = udp_start ++ (be16 (value 17 source target udp_start payload) ++ payload)

  udp_run :
      8 + length payload < 65536
      → (tcp_options : List ℕ)
      → build_transport 17 source target sport dport number tcp_options payload true ≡ ok udp_bytes
  unfolding build_transport segment
  udp_run h tcp_options =
      rw (lt→ltb _ _ hsp, lt→ltb _ _ hdp, lt→ltb _ _ h)
        (with_checksum_run 17 source target udp_start payload refl h (omega arith))

  udp_value : (v : ℕ) → be16 (if v == 0 then 65535 else v) ≢ be16 0
  udp_value v e = ground arith

  -- With a UDP checksum, the transport is a valid datagram.
  pub build_transport-IsUdp :
      8 + length payload < 65536
      → (tcp_options : List ℕ)
      → (t : List ℕ) × (build_transport 17 source target sport dport number tcp_options payload true
          ≡ ok t)
        × IsUdp source target payload sport dport t
  build_transport-IsUdp h tcp_options = (
    udp_bytes,
    udp_run h tcp_options,
    record {
      size = omega arith;
      start = refl;
      content = refl;
      sent = udp_value (zeroed 17 source target udp_start payload);
      valid = with_checksum-valid 17 source target udp_start payload hs ht refl;
    },
  )

  abbrev tcp_start : List ℕ
  tcp_start =
      be16 sport
      ++ (be16 dport
          ++ (be32 number ++ (be32 0 ++ ((5 + length options / 4) * 16 ∷ 0x18 ∷ be16 4096))))

  abbrev tcp_rest : List ℕ
  tcp_rest = be16 0 ++ (options ++ payload)

  abbrev tcp_bytes : List ℕ
  tcp_bytes = tcp_start ++ (be16 (value 6 source target tcp_start tcp_rest) ++ tcp_rest)

  tcp_run :
      (udp_checksum : Bool)
      → number < 4294967296
      → length options ≤ 40
      → 20 + length options + length payload < 65536
      → build_transport 6 source target sport dport number options payload udp_checksum
        ≡ ok tcp_bytes
  unfolding build_transport segment
  tcp_run udp_checksum hn ho h =
      let a : ltb ((5 + length options / 4) * 16) 256 ≡ true = ground arith in
      let n = length-append options payload in
      rw (lt→ltb _ _ hsp, lt→ltb _ _ hdp, lt→ltb _ _ hn, a)
        (with_checksum_run 6 source target tcp_start tcp_rest refl (omega arith) (omega arith))

  -- A TCP transport is a valid segment.
  pub build_transport-IsTcp :
      (udp_checksum : Bool)
      → number < 4294967296
      → length options ≤ 40
      → 20 + length options + length payload < 65536
      → (t : List ℕ) × (build_transport 6 source target sport dport number options payload
            udp_checksum
          ≡ ok t)
        × IsTcp source target options payload sport dport number t
  build_transport-IsTcp udp_checksum hn ho h = (
    tcp_bytes,
    tcp_run udp_checksum hn ho h,
    record {
      size = omega (arith, length-append options payload);
      start = refl;
      offset = refl;
      content = refl;
      valid = with_checksum-valid 6 source target tcp_start tcp_rest hs ht refl;
    },
  )
