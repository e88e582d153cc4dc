-- ===== src/L2/Frame.antt =====
-- `make_frame` of the L2 cases. The bound on the identification is 2 ^ 16 in cases 01 and 02 and
-- 2 ^ 32 in cases 03 and 04, and is a parameter here.
-- `prefix[0] & 1`, the group bit of the source address; read only where the prefix has four bytes
use Prim.Native.Nat.{ℕ, ◌%◌, ◌+◌, ◌<◌, ◌≤◌}
use mathlib.Core.Bool.{Bool, false, not, ◌&&◌, ◌||◌}
use mathlib.Core.List.{List, [], append_assoc, ◌++◌, ◌∷◌}
use mathlib.Core.Path.{◌≡◌}
use native.Mathlib.Omega.{arith}
use p4_cases.Prelude.Lists.{
  drop, drop-append, length, length-append, length-drop, length-take, take, take-append,
}
use p4_cases.Prelude.Result.{Result, ok, raise_if, value_error, ◌>>=◌, ◌>>◌}
use p4_cases.Prelude.Tests.{low16_fits, ltb, lt→ltb, ◌==◌}
use p4_cases.Wire.Bytes.{be16, length-ljust, ljust, slice}
use p4_cases.Wire.Pack.{pack, u16}

abbrev pub is_group : List ℕ → Bool
is_group [] = false
is_group (b ∷ bs) = b % 2 == 1

-- the guard of `make_frame`
abbrev pub bad_frame : ℕ → List ℕ → ℕ → List ℕ → Bool
bad_frame limit prefix identification destination =
    not (length prefix == 4)
    || (is_group prefix
        || (not (length destination == 6)
            || not (ltb 0 identification && ltb identification limit)))

unfoldable pub make_frame : ℕ → List ℕ → ℕ → List ℕ → ℕ → List ℕ → Result (List ℕ)
unfolding pack ljust
make_frame limit prefix identification destination ether_type body = do
  raise_if (bad_frame limit prefix identification destination) value_error
  marker ← pack (u16 (identification % 65536) ∷ [])
  type_bytes ← pack (u16 ether_type ∷ [])
  ok (ljust 60 0xa5 (destination ++ ((prefix ++ marker) ++ (type_bytes ++ body))))

-- What a caller passes as the marker prefix of a run.
pub record IsMarker (prefix : List ℕ) : Type 0 where
  pub four : length prefix ≡ 4
  pub unicast : is_group prefix ≡ false

-- The frame that `make_frame` builds.
abbrev pub marked : List ℕ → ℕ → List ℕ → ℕ → List ℕ → List ℕ
marked prefix identification destination ether_type body =
    destination ++ ((prefix ++ be16 (identification % 65536)) ++ (be16 ether_type ++ body))

module _ (limit : ℕ) (prefix : List ℕ) (identification : ℕ) (destination : List ℕ) (ether_type : ℕ)
    (body : List ℕ) where
  guard_passes :
      IsMarker prefix
      → length destination ≡ 6
      → 0 < identification
      → identification < limit
      → bad_frame limit prefix identification destination ≡ false
  guard_passes m d lo hi = ground (arith, m.four, m.unicast)

  pub make_frame_run :
      IsMarker prefix
      → length destination ≡ 6
      → 0 < identification
      → identification < limit
      → ether_type < 65536
      → make_frame limit prefix identification destination ether_type body
        ≡ ok (ljust 60 0xa5 (marked prefix identification destination ether_type body))
  unfolding make_frame
  make_frame_run m d lo hi ht = rw (guard_passes m d lo hi, low16_fits, lt→ltb _ _ ht)

-- What a receiver with the marker `prefix` relies on: the frame has a legal length, and its source
-- address begins with the marker.
pub record IsWire (prefix frame : List ℕ) : Type 0 where
  pub minimum : 60 ≤ length frame
  pub maximum : length frame ≤ 1514
  pub source_marked : slice 6 10 frame ≡ prefix

module _ (prefix : List ℕ) (identification : ℕ) (destination : List ℕ) (ether_type : ℕ)
    (body : List ℕ) (m : IsMarker prefix) (d : length destination ≡ 6) where
  pub length-marked :
      length (marked prefix identification destination ether_type body) ≡ 14 + length body
  length-marked = omega (
    arith,
    m.four,
    length-append destination
        ((prefix ++ be16 (identification % 65536)) ++ (be16 ether_type ++ body)),
    length-append (prefix ++ be16 (identification % 65536)) (be16 ether_type ++ body),
    length-append prefix (be16 (identification % 65536)),
  )

  pub slice-marked :
      (rest : List ℕ)
      → slice 6 10 (marked prefix identification destination ether_type body ++ rest) ≡ prefix
  slice-marked rest =
      simp append_assoc (rw (drop-append 6 destination _ d) (take-append 4 prefix _ m.four))

  pub marked-IsWire :
      length body ≤ 1500
      → IsWire prefix (ljust 60 0xa5 (marked prefix identification destination ether_type body))
  marked-IsWire h =
      let n = length-ljust 60 0xa5 (marked prefix identification destination ether_type body) in
      record {
        minimum = omega (arith, n, length-marked);
        maximum = omega (arith, n, length-marked);
        source_marked = unfold ljust in slice-marked _;
      }

-- `frame[:6] + source + frame[12:]`: the length and the destination stay.
pub length-with_source :
    (frame source : List ℕ)
    → length source ≡ 6
    → 12 ≤ length frame
    → length (take 6 frame ++ (source ++ drop 12 frame)) ≡ length frame
length-with_source frame source s h = omega (
  arith,
  length-append (take 6 frame) (source ++ drop 12 frame),
  length-append source (drop 12 frame),
  length-take 6 frame,
  length-drop 12 frame,
)

-- A frame to the marker's own address begins with the marker.
pub take-marked :
    (prefix marker rest : List ℕ) → length prefix ≡ 4 → take 4 ((prefix ++ marker) ++ rest) ≡ prefix
take-marked prefix marker rest h = rw (append_assoc prefix marker rest) (take-append 4 prefix _ h)

-- The destination address of a marked frame.
pub take-ljust-marked :
    (prefix : List ℕ) (identification : ℕ) (destination : List ℕ) (ether_type : ℕ) (body : List ℕ)
    → length destination ≡ 6
    → take 6 (ljust 60 0xa5 (marked prefix identification destination ether_type body))
      ≡ destination
unfolding ljust
take-ljust-marked prefix identification destination ether_type body d =
    simp append_assoc (take-append 6 destination _ d)
