-- ===== src/Vxlan/Inner.antt =====
-- The inner frames that `make_probes` builds.
use Prim.Native.Nat.{suc, ℕ, ◌%◌, ◌+◌, ◌-◌, ◌<◌, ◌≤◌}
use mathlib.Core.Bool.{Bool, false, true}
use mathlib.Core.List.{List, [], map, ◌++◌, ◌∷◌}
use mathlib.Core.Logic.{◌↔◌}
use mathlib.Core.Path.{ap, refl, ◌∙◌, ◌≡◌}
use native.Mathlib.Omega.{arith}
use p4_cases.L2.Collect.{length-range, range}
use p4_cases.L2.Datagram.Ipv4.{payload}
use p4_cases.Prelude.Lists.{
  All, drop-append, length, length-append, length-take, replicate, take, take-append,
  take-append_more,
}
use p4_cases.Prelude.Result.{ok}
use p4_cases.Prelude.Tests.{if◌then◌else◌, ltb, lt→ltb}
use p4_cases.Vxlan.{encapsulate, inner_dest}
use p4_cases.Vxlan.Outer.{Carries, encapsulate-Carries}
use p4_cases.Vxlan.Probes.{
  Protocol, Shape, arp_frame, body_of, build, counted, first_ip, ipv4_frame, label, raw_frame,
  second_ip, shapes, vlan_frame,
}
use p4_cases.Wire.Bytes.{be16, be32, slice}
use p4_cases.Wire.Checksum.Validity.{checksum_fits}

-- An inner frame of a run: its size, its marked source, and the destination that the table knows
-- exactly if the frame is to be forwarded.
pub record IsInner (prefix : List ℕ) (shape : Shape) (sequence : ℕ) (f : List ℕ) : Type 0 where
  pub size : length f ≡ shape.size
  pub marked : slice 6 12 f ≡ prefix ++ be16 sequence
  pub known : (take 6 f ≡ inner_dest) ↔ (shape.allowed ≡ true)
  pub encapsulated : (e : List ℕ) × (encapsulate f ≡ ok e) × Carries f e

abbrev pub Legal : Shape → Type 0
Legal shape = (60 ≤ shape.size) × (shape.size ≤ 1514)

pub shapes-Legal : All Legal shapes
shapes-Legal = ground arith

length-map : (f : ℕ → ℕ) (xs : List ℕ) → length (map f xs) ≡ length xs
length-map f [] = refl
length-map f (x ∷ xs) = ap suc (length-map f xs)

length-counted : (sequence size : ℕ) → length (counted sequence size) ≡ size
unfolding counted
length-counted sequence size =
    length-map (λ offset. (sequence + offset) % 256) (range 0 size) ∙ length-range 0 size

-- The body is long enough for its size.
body_of-long :
    (p : Protocol) (sequence size : ℕ) (source payload : List ℕ)
    → sequence < 65536
    → length source ≡ 6
    → 60 ≤ size
    → size ≤ 1514
    → length payload ≡ size + 13
    → (b : List ℕ) × (body_of p sequence source size payload ≡ ok b) × (size ≤ 12 + length b)
unfolding body_of
body_of-long raw_frame sequence size source payload q e lo hi n = (_, refl, omega arith)
body_of-long vlan_frame sequence size source payload q e lo hi n = (_, refl, omega arith)
body_of-long arp_frame sequence size source payload q e lo hi n = (
  _,
  refl,
  omega (
    arith,
    length-append
        (take 6 source
          ++ (replicate (6 - length source) 0 ++ (first_ip ++ (replicate 6 0 ++ second_ip))))
        payload,
  ),
)
body_of-long ipv4_frame sequence size source payload q e lo hi n =
    let k : length (take (size - 14 - 20) payload) ≡ size - 34 =
      omega (arith, length-take (size - 14 - 20) payload) in
    let c : ltb (20 + length (take (size - 14 - 20) payload)) 65536 ≡ true = ground arith in
    rw (c, lt→ltb _ _ q, checksum_fits) (_, refl, omega arith)

abbrev destination_of : Bool → List ℕ
destination_of allowed = if allowed then inner_dest else (0 ∷ 0 ∷ 0 ∷ 0x22 ∷ 0x22 ∷ 0x22 ∷ [])

length-destination_of : (allowed : Bool) → length (destination_of allowed) ≡ 6
length-destination_of true = refl
length-destination_of false = refl

known_destination : (allowed : Bool) → (destination_of allowed ≡ inner_dest) ↔ (allowed ≡ true)
known_destination true = (λ e. refl, λ e. refl)
known_destination false = (λ e. cc, λ e. cc)

-- A frame cut to its size keeps the two addresses.
cut_frame :
    (d s b : List ℕ) (size : ℕ)
    → length d ≡ 6
    → length s ≡ 6
    → 12 ≤ size
    → take size (d ++ (s ++ b)) ≡ d ++ (s ++ take (size - 12) b)
cut_frame d s b size hd hs h =
    take-append_more size (size - 6) d (s ++ b) (omega arith)
    ∙ ap (λ r. d ++ r) (take-append_more (size - 6) (size - 12) s b (omega arith))

frame-IsInner :
    (prefix : List ℕ) (shape : Shape) (sequence : ℕ) (b : List ℕ)
    → length prefix ≡ 4
    → Legal shape
    → shape.size ≤ 12 + length b
    → IsInner prefix shape sequence
        (destination_of shape.allowed ++ ((prefix ++ be16 sequence) ++ take (shape.size - 12) b))
frame-IsInner prefix shape sequence b four legal long =
    let d : List ℕ = destination_of shape.allowed in
    let s : List ℕ = prefix ++ be16 sequence in
    let rest : List ℕ = take (shape.size - 12) b in
    let hd : length d ≡ 6 = length-destination_of shape.allowed in
    let hs : length s ≡ 6 = omega (arith, length-append prefix (be16 sequence)) in
    let hr : length rest ≡ shape.size - 12 = omega (arith, length-take (shape.size - 12) b) in
    let total : length (d ++ (s ++ rest)) ≡ shape.size =
      omega (arith, length-append d (s ++ rest), length-append s rest, legal.0) in
    let (e, run, n, carries) =
      encapsulate-Carries (d ++ (s ++ rest)) (omega (arith, legal.0)) (omega (arith, legal.1)) in
    record {
      size = total;
      marked = rw (drop-append 6 d (s ++ rest) hd) (take-append 6 s rest hs);
      known = rw (take-append 6 d (s ++ rest) hd) (known_destination shape.allowed);
      encapsulated = (e, run, carries);
    }

module _ (prefix : List ℕ) (four : length prefix ≡ 4) (shape : Shape) (legal : Legal shape) where
  pub build-IsInner :
      (sequence : ℕ)
      → sequence < 65536
      → (f : List ℕ) × (build prefix shape sequence ≡ ok f) × IsInner prefix shape sequence f
  unfolding build
  build-IsInner sequence q =
      let source : List ℕ = prefix ++ be16 sequence in
      let payload : List ℕ = label ++ (be32 sequence ++ counted sequence shape.size) in
      let e : length source ≡ 6 = omega (arith, length-append prefix (be16 sequence)) in
      let n : length payload ≡ shape.size + 13 =
        omega (arith, length-counted sequence shape.size) in
      let (b, run, long) =
        body_of-long shape.protocol sequence shape.size source payload q e legal.0 legal.1 n in
      (
        destination_of shape.allowed ++ (source ++ take (shape.size - 12) b),
        rw (lt→ltb _ _ q, lt→ltb sequence 4294967296 (omega arith), run)
            (ap ok (
              cut_frame (destination_of shape.allowed) source b shape.size
                (length-destination_of shape.allowed) e (omega (arith, legal.0)))),
        frame-IsInner prefix shape sequence b four legal long,
      )
