-- ===== src/Ecmp/Affinity.antt =====
-- The hash does not see what forwarding changes.
use Prim.Native.Nat.{max, ℕ, ◌+◌, ◌-◌, ◌≤◌}
use mathlib.Core.List.{List}
use mathlib.Core.Option.{some}
use mathlib.Core.Path.{ap, refl, sym, ◌∙◌, ◌≡◌}
use native.Mathlib.Omega.{arith}
use p4_cases.Ecmp.{expected_frame, expected_host, hash_input, hashed_host, ports_of, read_ports}
use p4_cases.Ecmp.Routed.{expected_frame-IsRenewed}
use p4_cases.Ip.Forward.{IsForwarded}
use p4_cases.Ip.Recalculate.{ihl_bytes}
use p4_cases.Ip.Renewed.{IsRenewed}
use p4_cases.L2.Hosts.{mac}
use p4_cases.Prelude.Lists.{drop, get_elem?, length, take}
use p4_cases.Prelude.Result.{ok}
use p4_cases.Prelude.Slices.{drop-drop, drop-take, get_elem?-drop, get_elem?-take, take-take}
use p4_cases.Wire.Bytes.{slice}

-- What the hash and the routes read: all from byte 12 on but the TTL and the header checksum.
record Agrees (f r : List ℕ) : Type 0 where
  middle : slice 12 22 r ≡ slice 12 22 f
  protocol : slice 23 24 r ≡ slice 23 24 f
  back : drop 26 r ≡ drop 26 f

-- A slice past byte 26.
slice_back : (i j : ℕ) (f r : List ℕ) → 26 ≤ i → drop 26 r ≡ drop 26 f → slice i j r ≡ slice i j f
slice_back i j f r h e = ap (take (j - i)) (sym (past r) ∙ ap (drop (i - 26)) e ∙ past f)
  where
    past : (xs : List ℕ) → drop (i - 26) (drop 26 xs) ≡ drop i xs
    past xs = drop-drop 26 (i - 26) i xs (omega arith)

forwarded-Agrees :
    (target f g r : List ℕ) (header : ℕ)
    → IsForwarded target 22 f g
    → IsRenewed g header r
    → Agrees f r
forwarded-Agrees target f g r header fwd renewed = record {
  middle = sym (early r) ∙ ap (slice 12 22) renewed.front ∙ early g ∙ fwd.middle;
  protocol =
      sym (early_protocol r)
      ∙ ap (slice 23 24) renewed.front
      ∙ early_protocol g
      ∙ ap (take 1) fwd.rest;
  back = renewed.back ∙ sym (late g) ∙ ap (drop 3) fwd.rest ∙ late f;
}
  where
    late : (xs : List ℕ) → drop 3 (drop 23 xs) ≡ drop 26 xs
    late xs = drop-drop 23 3 26 xs refl

    early : (xs : List ℕ) → slice 12 22 (take 24 xs) ≡ slice 12 22 xs
    early xs =
        ap (take 10) (drop-take 12 24 12 xs refl) ∙ take-take 10 12 (drop 12 xs) (omega arith)

    early_protocol : (xs : List ℕ) → slice 23 24 (take 24 xs) ≡ slice 23 24 xs
    early_protocol xs =
        ap (take 1) (drop-take 23 24 1 xs refl) ∙ take-take 1 1 (drop 23 xs) (omega arith)

module _ (f r : List ℕ) (a : Agrees f r) where
  same_flags : slice 20 22 r ≡ slice 20 22 f
  same_flags = sym (inside r) ∙ ap (drop 8) a.middle ∙ inside f
    where
      inside : (xs : List ℕ) → drop 8 (slice 12 22 xs) ≡ slice 20 22 xs
      inside xs = drop-take 8 10 2 (drop 12 xs) refl ∙ ap (take 2) (drop-drop 12 8 20 xs refl)

  same_protocol : get_elem? r 23 ≡ get_elem? f 23
  same_protocol = sym (inside r) ∙ ap (λ xs. get_elem? xs 0) a.protocol ∙ inside f
    where
      inside : (xs : List ℕ) → get_elem? (slice 23 24 xs) 0 ≡ get_elem? xs 23
      inside xs = get_elem?-take 1 0 (drop 23 xs) (omega arith) ∙ get_elem?-drop 23 0 23 xs refl

  same_ihl : get_elem? r 14 ≡ get_elem? f 14
  same_ihl = sym (inside r) ∙ ap (λ xs. get_elem? xs 2) a.middle ∙ inside f
    where
      inside : (xs : List ℕ) → get_elem? (slice 12 22 xs) 2 ≡ get_elem? xs 14
      inside xs = get_elem?-take 10 2 (drop 12 xs) (omega arith) ∙ get_elem?-drop 12 2 14 xs refl

  module _ (b : ℕ) (e : get_elem? f 14 ≡ some b) (long : 12 ≤ ihl_bytes b) where
    same_read : read_ports r ≡ read_ports f
    unfolding read_ports
    same_read =
        let start : ℕ = 14 + ihl_bytes b in
        rw (same_ihl, e) (ap ok (slice_back start (start + 4) f r (omega arith) a.back))

    same_ports : ports_of r ≡ ports_of f
    unfolding ports_of
    same_ports = rw (same_flags, same_protocol, same_read) refl

    same_hash : hash_input r ≡ hash_input f
    unfolding hash_input
    same_hash = rw (same_ports, slice_back 26 34 f r (omega arith) a.back, a.protocol) refl

    same_hashed : (destination : List ℕ) → hashed_host r destination ≡ hashed_host f destination
    unfolding hashed_host
    same_hashed destination = rw same_hash refl

    same_host : expected_host r ≡ expected_host f
    unfolding expected_host
    same_host = rw (slice_back 30 34 f r (omega arith) a.back, same_hashed (slice 30 34 f)) refl

-- Every hop agrees on the flow: for a frame of at least 26 bytes whose header-length field is at least
-- 3, with a TTL of at least 1, that is routed towards host 1, 2 or 3, the host expected for the routed frame is the host expected for the frame that was sent.
pub expected_host-expected_frame :
    (f : List ℕ) (host t b : ℕ)
    → 1 ≤ host
    → host ≤ 3
    → 26 ≤ length f
    → get_elem? f 14 ≡ some b
    → 12 ≤ ihl_bytes b
    → get_elem? f 22 ≡ some (t + 1)
    → (r : List ℕ) × (expected_frame f (some host) ≡ ok r) × (expected_host r ≡ expected_host f)
expected_host-expected_frame f host t b lo hi long e14 header e22 =
    let (g, r, run, fwd, renewed) = expected_frame-IsRenewed f host t b lo hi long e14 e22 in
    let a = forwarded-Agrees (mac host) f g r (max 20 (ihl_bytes b)) fwd renewed in
    (r, run, same_host f r a b e14 header)
