-- ===== src/Ecmp/Routed.antt =====
-- The routed frame of the ECMP case.
use Prim.Native.Nat.{max, ℕ, ◌+◌, ◌≤◌}
use mathlib.Core.Bool.{true, ◌&&◌}
use mathlib.Core.List.{List}
use mathlib.Core.Option.{some}
use mathlib.Core.Path.{ap, refl, sym, ◌∙◌, ◌≡◌}
use native.Mathlib.Omega.{arith}
use p4_cases.Ecmp.{expected_frame, host_macs}
use p4_cases.Ip.Forward.{IsForwarded, next_hop-IsForwarded}
use p4_cases.Ip.Recalculate.{ihl_bytes}
use p4_cases.Ip.Renewed.{IsRenewed, recalculate_checksum-IsRenewed}
use p4_cases.L2.Hosts.{mac}
use p4_cases.Prelude.Lists.{drop, get_elem?, length}
use p4_cases.Prelude.Result.{ok}
use p4_cases.Prelude.Slices.{get_elem?-drop, get_elem?-take}
use p4_cases.Prelude.Tests.{leb}
use p4_cases.Wire.Bytes.{slice}

-- Byte 14 of a forwarded frame is the one before.
element_14 :
    (target f g : List ℕ) (b : ℕ)
    → IsForwarded target 22 f g
    → get_elem? f 14 ≡ some b
    → get_elem? g 14 ≡ some b
element_14 target f g b fwd e = sym (inside g) ∙ ap (λ xs. get_elem? xs 2) fwd.middle ∙ inside f ∙ e
  where
    inside : (xs : List ℕ) → get_elem? (slice 12 22 xs) 2 ≡ get_elem? xs 14
    inside xs = get_elem?-take 10 2 (drop 12 xs) (omega arith) ∙ get_elem?-drop 12 2 14 xs refl

-- For the hosts 1 to 3 and a frame of at least 26 bytes with a TTL of at least 1, `expected_frame`
-- returns a frame `r`: some `g` is the sent frame one hop further towards the host, with the TTL in
-- byte 22 one less, and `r` is `g` but for the checksum field, with an IPv4 header that validates.
pub expected_frame-IsRenewed :
    (f : List ℕ) (host t b : ℕ)
    → 1 ≤ host
    → host ≤ 3
    → 26 ≤ length f
    → get_elem? f 14 ≡ some b
    → get_elem? f 22 ≡ some (t + 1)
    → (g : List ℕ) × (r : List ℕ) × (expected_frame f (some host) ≡ ok r)
      × IsForwarded (mac host) 22 f g
      × IsRenewed g (max 20 (ihl_bytes b)) r
unfolding expected_frame host_macs
expected_frame-IsRenewed f host t b lo hi long e14 e22 =
    let (g, run, fwd) = next_hop-IsForwarded (mac host) 10 t f refl e22 in
    let n : 26 ≤ length g = omega (arith, fwd.same_length) in
    let (r, renew, renewed) =
      recalculate_checksum-IsRenewed g b n (element_14 (mac host) f g b fwd e14) in
    let known : (leb 1 host && leb host 3) ≡ true = ground arith in
    (g, r, rw (known, run, renew) refl, fwd, renewed)
