-- ===== src/Lpm/Hop.antt =====
-- The forwarded IPv6 frame.
use Prim.Native.Nat.{ℕ, ◌+◌, ◌≤◌}
use mathlib.Core.Bool.{false, not, true, ◌||◌}
use mathlib.Core.List.{List}
use mathlib.Core.Logic.{inl, inr}
use mathlib.Core.Option.{some}
use mathlib.Core.Path.{ap, refl, ◌∙◌, ◌≡◌}
use native.Mathlib.Omega.{arith}
use p4_cases.Ip.Forward.{IsForwarded, next_hop-IsForwarded}
use p4_cases.L2.Hosts.{mac}
use p4_cases.Lpm.{expected_frame, is_host}
use p4_cases.Prelude.Lists.{get_elem?, length}
use p4_cases.Prelude.Result.{err, ok, value_error}
use p4_cases.Prelude.Tests.{Bool-cases, leb, ltb}

-- For the hosts 1 to 3 and a frame of at least 54 bytes with a hop limit of at least 2,
-- `expected_frame` returns the frame one hop further towards the host: new addresses, the hop limit
-- in byte 21 one less, and every other byte kept.
pub expected_frame-IsForwarded :
    (f : List ℕ) (receiver t : ℕ)
    → 1 ≤ receiver
    → receiver ≤ 3
    → 54 ≤ length f
    → get_elem? f 21 ≡ some (t + 2)
    → (g : List ℕ) × (expected_frame f receiver ≡ ok g) × IsForwarded (mac receiver) 21 f g
unfolding expected_frame
expected_frame-IsForwarded f receiver t lo hi long e =
    let known : is_host receiver ≡ true = ground arith in
    let whole : ltb (length f) 54 ≡ false = ground arith in
    let alive : leb (t + 2) 1 ≡ false = ground arith in
    let e' : get_elem? f 21 ≡ some (t + 1 + 1) = e ∙ ap some (omega arith) in
    rw (known, whole, e, alive) (next_hop-IsForwarded (mac receiver) 9 (t + 1) f refl e')

-- With a hop limit of 0 or 1 `expected_frame` raises `ValueError`, whatever the rest.
pub expected_frame_expired :
    (f : List ℕ) (receiver t : ℕ)
    → t ≤ 1
    → get_elem? f 21 ≡ some t
    → expected_frame f receiver ≡ err value_error
unfolding expected_frame
expected_frame_expired f receiver t h e =
    let dead : leb t 1 ≡ true = ground arith in
    elim (Bool-cases (not (is_host receiver) || ltb (length f) 54)) [
      | inl refused ↦ rw refused refl
      | inr passed ↦ rw (passed, e, dead) refl
    ]
