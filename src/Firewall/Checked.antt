-- ===== src/Firewall/Checked.antt =====
-- What `check_delivery` of the access-list case establishes.
use Prim.Native.Nat.{ℕ, ◌+◌}
use mathlib.Core.Bool.{Bool, false, true}
use mathlib.Core.List.{List, [], ◌∷◌}
use mathlib.Core.Logic.{◌↔◌}
use mathlib.Core.Option.{Option, none, some}
use mathlib.Core.Path.{ap, refl, subst, sym, ◌∙◌, ◌≡◌}
use native.Mathlib.Omega.{arith}
use p4_cases.Delivery.{counters_equal}
use p4_cases.Delivery.Bags.{bag, counters_equal-bag}
use p4_cases.Firewall.Delivered.{
  check_captures, check_delivery, check_probes, count_observed, expected_at, get, wanted_of,
}
use p4_cases.Firewall.Vectors.{Probe}
use p4_cases.Firewall.Wanted.{
  IsWanted, IsWanted-wanted_of, Observed, Observed-count_observed, Owed, Owed-expected_at,
  count_observed-Observed, expected_at-Owed, wanted_of-IsWanted,
}
use p4_cases.Prelude.Lists.{All}
use p4_cases.Prelude.Result.{
  Error, bind_passed, key_error, ok, ok-injective, or_raise, raise_if_passed, runtime_error,
}
use p4_cases.Prelude.Tests.{==→eq, eq→==, if◌then◌else◌, ltb, ◌==◌}

-- The host has a capture, which holds, up to order, the frames that the probes owe it.
abbrev pub IsCaptured : List Probe → List (ℕ × List (List ℕ)) → ℕ → Type 0
IsCaptured probes received host =
    (frames : List (List ℕ)) × (get received host ≡ some frames)
    × (owed : List (List ℕ)) × Owed host probes owed
    × (bag frames ≡ bag owed)

-- Its receiver has a capture, in which so many frames have one of its sources as the probe wants.
abbrev pub IsObserved : List (ℕ × List (List ℕ)) → Probe → Type 0
IsObserved received probe =
    (frames : List (List ℕ)) × (get received probe.receiver ≡ some frames)
    × (n : ℕ) × Observed probe.frames frames n
    × IsWanted probe n

found_capture :
    (received : List (ℕ × List (List ℕ))) (host : ℕ) (raised : Error) (frames : List (List ℕ))
    → or_raise (get received host) raised ≡ ok frames
    → get received host ≡ some frames
found_capture received host raised frames = go (get received host)
  where
    go :
        (capture : Option (List (List ℕ)))
        → or_raise capture raised ≡ ok frames
        → capture ≡ some frames
    go none e = cc
    go (some f) e = ap some (ok-injective e)

-- A count of errors that ends at zero started there and met no error.
no_error :
    (errors : ℕ) (test : Bool) → errors + (if test then 0 else 1) ≡ 0 → (errors ≡ 0) × (test ≡ true)
no_error errors test h = (ground arith, ground arith)

check_captures_sound :
    (probes : List Probe) (received : List (ℕ × List (List ℕ))) (hosts : List ℕ) (errors n : ℕ)
    → check_captures probes received hosts errors ≡ ok n
    → n ≡ 0
    → (errors ≡ 0) × All (IsCaptured probes received) hosts
unfolding check_captures
check_captures_sound probes received [] errors n h z = (ok-injective h ∙ z, tt)
check_captures_sound probes received (host ∷ hosts) errors n h z =
    let (frames, e, rest) = bind_passed (or_raise (get received host) runtime_error) _ h in
    let test = counters_equal frames (expected_at probes host) in
    let (zero_then, all) = check_captures_sound probes received hosts _ n rest z in
    let (zero_first, same) = no_error errors test zero_then in
    (
      zero_first,
      (
        (
          frames,
          found_capture received host runtime_error frames e,
          expected_at probes host,
          expected_at-Owed host probes,
          (counters_equal-bag frames (expected_at probes host)).0 same,
        ),
        all,
      ),
    )

check_captures_complete :
    (probes : List Probe) (received : List (ℕ × List (List ℕ))) (hosts : List ℕ)
    → All (IsCaptured probes received) hosts
    → check_captures probes received hosts 0 ≡ ok 0
unfolding check_captures
check_captures_complete probes received [] h = refl
check_captures_complete probes received (host ∷ hosts) ((frames, e, owed, o, equal), h) =
    let same = equal ∙ ap bag (Owed-expected_at host probes owed o) in
    rw (e, (counters_equal-bag frames (expected_at probes host)).1 same)
      (check_captures_complete probes received hosts h)

check_probes_sound :
    (probes : List Probe) (received : List (ℕ × List (List ℕ))) (errors n : ℕ)
    → check_probes probes received errors ≡ ok n
    → n ≡ 0
    → (errors ≡ 0) × All (IsObserved received) probes
unfolding check_probes
check_probes_sound [] received errors n h z = (ok-injective h ∙ z, tt)
check_probes_sound (probe ∷ probes) received errors n h z =
    let (frames, e, rest) = bind_passed (or_raise (get received probe.receiver) key_error) _ h in
    let test = count_observed probe.frames frames == wanted_of probe in
    let (zero_then, all) = check_probes_sound probes received _ n rest z in
    let (zero_first, same) = no_error errors test zero_then in
    (
      zero_first,
      (
        (
          frames,
          found_capture received probe.receiver key_error frames e,
          count_observed probe.frames frames,
          count_observed-Observed probe.frames frames,
          subst (IsWanted probe) (sym (==→eq _ _ same)) (wanted_of-IsWanted probe),
        ),
        all,
      ),
    )

check_probes_complete :
    (probes : List Probe) (received : List (ℕ × List (List ℕ)))
    → All (IsObserved received) probes
    → check_probes probes received 0 ≡ ok 0
unfolding check_probes
check_probes_complete [] received h = refl
check_probes_complete (probe ∷ probes) received ((frames, e, n, o, wanted), h) =
    let same =
      sym (Observed-count_observed probe.frames frames n o) ∙ IsWanted-wanted_of probe n wanted in
    rw (e, eq→== _ _ same) (check_probes_complete probes received h)

-- Both hosts have a capture, and every probe is observed as it should be.
pub record IsAclDelivered (probes : List Probe) (received : List (ℕ × List (List ℕ))) : Type 0 where
  pub captured : All (IsCaptured probes received) (1 ∷ 2 ∷ [])
  pub observed : All (IsObserved received) probes

-- `check_delivery` passes exactly if both hosts have a capture with, up to order, the frames of the
-- allowed probes for them and no others, and every probe has as many frames with one of its source
-- addresses at its receiver as it should: all of them if it is allowed, and none otherwise.
pub check_delivery-IsAclDelivered :
    (probes : List Probe) (received : List (ℕ × List (List ℕ)))
    → (check_delivery probes received ≡ ok tt) ↔ IsAclDelivered probes received
unfolding check_delivery
check_delivery-IsAclDelivered probes received = (sound, complete)
  where
    sound : check_delivery probes received ≡ ok tt → IsAclDelivered probes received
    sound h =
        let (errors, e, h1) = bind_passed (check_captures probes received (1 ∷ 2 ∷ []) 0) _ h in
        let (total, e', h2) = bind_passed (check_probes probes received errors) _ h1 in
        let none_left : ltb 0 total ≡ false = raise_if_passed (ltb 0 total) runtime_error h2 in
        let z : total ≡ 0 = ground arith in
        let (first_zero, all) = check_probes_sound probes received errors total e' z in
        let (start, captures) =
          check_captures_sound probes received (1 ∷ 2 ∷ []) 0 errors e first_zero in
        record { captured = captures; observed = all }

    complete : IsAclDelivered probes received → check_delivery probes received ≡ ok tt
    complete d =
        rw
          (
            check_captures_complete probes received (1 ∷ 2 ∷ []) d.captured,
            check_probes_complete probes received d.observed,
          )
          refl
