-- ===== src/Ip/Sealed.antt =====
-- What a receiver relies on in a sealed packet.
use Prim.Native.Nat.{max, ℕ, ◌%◌, ◌+◌, ◌-◌, ◌/◌, ◌<◌, ◌≤◌}
use mathlib.Core.Bool.{true}
use mathlib.Core.List.{List, [], append-nil, append_assoc, ◌++◌, ◌∷◌}
use mathlib.Core.Option.{some}
use mathlib.Core.Path.{ap, refl, subst, sym, ◌∙◌, ◌≡◌}
use native.Mathlib.Omega.{arith}
use p4_cases.Ip.Recalculate.{ihl_bytes}
use p4_cases.Ip.Renewed.{IsRenewed, recalculate_checksum-IsRenewed}
use p4_cases.Ip.Transport.{ipv4_header, seal}
use p4_cases.Prelude.Lists.{
  drop, drop-append, get_elem?, length, length-append, length-drop, length-replicate, replicate,
  take, take-append, take_all,
}
use p4_cases.Prelude.Result.{ok}
use p4_cases.Prelude.Slices.{drop-drop, get_elem?-append, slice-append_less, slice-take}
use p4_cases.Prelude.Tests.{ltb, lt→ltb}
use p4_cases.Wire.Bytes.{be16, ljust, slice}
use p4_cases.Wire.Checksum.{checksum}
use p4_cases.Wire.Pack.{layout, raw}

-- The frame holds the options and the transport in a valid IPv4 packet.
pub record IsSealed (ethernet options transport source target : List ℕ)
    (identification flags ttl protocol : ℕ) (frame : List ℕ) : Type 0 where
  pub addresses : take 14 frame ≡ ethernet
  pub minimum : 60 ≤ length frame
  pub header_valid : checksum (take (20 + length options) (drop 14 frame)) ≡ 0
  pub start :
      slice 14 24 frame
      ≡ (0x45 + length options / 4)
        ∷ 0x2a
        ∷ (be16 (20 + length options + length transport)
            ++ (be16 identification ++ (be16 flags ++ (ttl ∷ protocol ∷ []))))
  pub kept :
      take (8 + length options + length transport) (drop 26 frame)
      ≡ source ++ (target ++ (options ++ transport))

module _ (ethernet options transport source target : List ℕ) (identification flags ttl protocol : ℕ)
    (he : length ethernet ≡ 14) (ho : length options ≤ 40) (ho4 : length options % 4 ≡ 0)
    (hs : length source ≡ 4) (ht : length target ≡ 4)
    (hsize : 20 + length options + length transport ≤ 65535) (hid : identification < 65536)
    (hf : flags < 65536) (httl : ttl < 256) (hp : protocol < 256) where
  abbrev start_bytes : List ℕ
  start_bytes =
      (0x45 + length options / 4)
      ∷ 0x2a
      ∷ (be16 (20 + length options + length transport)
          ++ (be16 identification ++ (be16 flags ++ (ttl ∷ protocol ∷ []))))

  abbrev rest_bytes : List ℕ
  rest_bytes = source ++ (target ++ (options ++ transport))

  fits_address : (xs : List ℕ) → length xs ≡ 4 → layout (raw 4 xs ∷ []) ≡ xs
  fits_address xs h =
      let z : 4 - length xs ≡ 0 = omega arith in rw (z, take_all 4 xs (omega arith)) (append-nil xs)

  header_run :
      ipv4_header options (length transport) identification flags ttl protocol source target
      ≡ ok (start_bytes ++ (be16 0 ++ (source ++ (target ++ options))))
  unfolding ipv4_header
  header_run =
      let a : ltb (0x45 + length options / 4) 256 ≡ true = ground arith in
      let b : ltb (20 + length options + length transport) 65536 ≡ true = ground arith in
      let s : 4 - length source ≡ 0 = omega arith in
      let t : 4 - length target ≡ 0 = omega arith in
      let joined : (source ++ (target ++ [])) ++ options ≡ source ++ (target ++ options) =
        rw (append-nil target) (append_assoc source target options) in
      rw
        (
          a,
          b,
          lt→ltb _ _ hid,
          lt→ltb _ _ hf,
          lt→ltb _ _ httl,
          lt→ltb _ _ hp,
          s,
          t,
          take_all 4 source (omega arith),
          take_all 4 target (omega arith),
          joined,
        )
        refl

  abbrev plain : List ℕ
  plain = ethernet ++ ((start_bytes ++ (be16 0 ++ (source ++ (target ++ options)))) ++ transport)

  -- The frame in three parts, the checksum field between them.
  plain_parts : drop 14 plain ≡ start_bytes ++ (be16 0 ++ rest_bytes)
  plain_parts =
      drop-append 14 ethernet _ he
      ∙ ap (λ r. start_bytes ++ (be16 0 ++ r))
          (append_assoc source (target ++ options) transport
            ∙ ap (λ r. source ++ r) (append_assoc target options transport))

  length_rest : length rest_bytes ≡ 8 + length options + length transport
  length_rest = omega (
    arith,
    length-append source (target ++ (options ++ transport)),
    length-append target (options ++ transport),
    length-append options transport,
  )

  length-plain : length plain ≡ 34 + length options + length transport
  length-plain = omega (
    arith,
    length-drop 14 plain,
    ap length plain_parts,
    length_rest,
    length-append ethernet
        ((start_bytes ++ (be16 0 ++ (source ++ (target ++ options)))) ++ transport),
  )

  byte_14 : get_elem? plain 14 ≡ some (0x45 + length options / 4)
  byte_14 = get_elem?-append ethernet _ 14 0 (omega arith)

  drop-plain : drop 26 plain ≡ rest_bytes
  drop-plain = sym (drop-drop 14 12 26 plain refl) ∙ ap (drop 12) plain_parts

  padded-IsSealed :
      (r : List ℕ)
      → IsRenewed plain (20 + length options) r
      → IsSealed ethernet options transport source target identification flags ttl protocol
          (ljust 60 0 r)
  unfolding ljust
  padded-IsSealed r g =
      let pad : List ℕ = replicate (60 - length r) 0 in
      let n : length r ≡ 34 + length options + length transport = g.same_length ∙ length-plain in
      record {
        addresses =
            slice-append_less 0 14 r pad (omega arith)
            ∙ sym (slice-take 0 14 24 24 r refl (omega arith))
            ∙ ap (take 14) g.front
            ∙ slice-take 0 14 24 24 plain refl (omega arith)
            ∙ take-append 14 ethernet _ he;
        minimum = omega (arith, length-append r pad, length-replicate {A = ℕ} (60 - length r) 0);
        header_valid = rw (slice-append_less 14 (20 + length options) r pad (omega arith)) g.valid;
        start =
            slice-append_less 14 10 r pad (omega arith)
            ∙ sym (slice-take 14 10 10 24 r refl (omega arith))
            ∙ ap (λ xs. take 10 (drop 14 xs)) g.front
            ∙ slice-take 14 10 10 24 plain refl (omega arith)
            ∙ ap (take 10) plain_parts;
        kept =
            slice-append_less 26 (8 + length options + length transport) r pad (omega arith)
            ∙ ap (take (8 + length options + length transport)) (g.back ∙ drop-plain)
            ∙ take_all (8 + length options + length transport) rest_bytes
                (omega (arith, length_rest));
      }

  -- `seal` returns such a frame.
  pub seal-IsSealed :
      (frame : List ℕ) × (seal ethernet options transport identification flags ttl protocol source
          target
        ≡ ok frame)
      × IsSealed ethernet options transport source target identification flags ttl protocol frame
  unfolding seal
  seal-IsSealed =
      let (r, run, renewed) =
        recalculate_checksum-IsRenewed plain (0x45 + length options / 4)
          (omega (arith, length-plain)) byte_14 in
      let ihl : max 20 (ihl_bytes (0x45 + length options / 4)) ≡ 20 + length options =
        omega arith in
      (
        ljust 60 0 r,
        rw (header_run, run) refl,
        padded-IsSealed r (subst (λ h. IsRenewed plain h r) ihl renewed),
      )
