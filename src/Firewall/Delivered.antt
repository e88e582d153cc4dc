-- ===== src/Firewall/Delivered.antt =====
-- `check_delivery` of 10_firewall_acl/topology.py. A capture is the frames of a host, if there is one;
-- of the list of errors, only its length is modelled.
use Prim.Native.Nat.{ℕ, ◌+◌}
use mathlib.Core.Bool.{Bool, false, ◌&&◌, ◌||◌}
use mathlib.Core.List.{List, [], ◌++◌, ◌∷◌}
use mathlib.Core.Option.{Option, none, some}
use p4_cases.Delivery.{counters_equal}
use p4_cases.Firewall.Vectors.{Probe}
use p4_cases.Prelude.Lists.{length}
use p4_cases.Prelude.Result.{Result, key_error, ok, or_raise, raise_if, runtime_error, ◌>>=◌}
use p4_cases.Prelude.Tests.{if◌then◌else◌, ltb, ◌==◌}
use p4_cases.Wire.Bytes.{bytes_eq, slice}

-- `received.get(host)`
unfoldable pub get : List (ℕ × List (List ℕ)) → ℕ → Option (List (List ℕ))
get [] host = none
get ((h, frames) ∷ received) host =
    let later = get received host in if h == host then some frames else later

-- `frame for probe in probes if ... for frame in probe["frames"]`
unfoldable pub expected_at : List Probe → ℕ → List (List ℕ)
expected_at [] host = []
expected_at (probe ∷ probes) host =
    let rest = expected_at probes host in
    if probe.receiver == host && probe.allowed then probe.frames ++ rest else rest

-- the first loop, over the hosts
unfoldable pub check_captures : List Probe → List (ℕ × List (List ℕ)) → List ℕ → ℕ → Result ℕ
unfolding get expected_at counters_equal
check_captures probes received [] errors = ok errors
check_captures probes received (host ∷ hosts) errors = do
  actual ← or_raise (get received host) runtime_error
  check_captures probes received hosts
      (errors + (if counters_equal actual (expected_at probes host) then 0 else 1))

-- `frame[6:12] in sources`
unfoldable pub has_source : List (List ℕ) → List ℕ → Bool
unfolding bytes_eq
has_source [] frame = false
has_source (f ∷ frames) frame =
    bytes_eq (slice 6 12 f) (slice 6 12 frame) || has_source frames frame

-- `len(observed)`
unfoldable pub count_observed : List (List ℕ) → List (List ℕ) → ℕ
unfolding has_source
count_observed sources [] = 0
count_observed sources (frame ∷ captured) =
    (if has_source sources frame then 1 else 0) + count_observed sources captured

-- `wanted`
abbrev pub wanted_of : Probe → ℕ
wanted_of probe = if probe.allowed then length probe.frames else 0

-- the second loop, over the probes
unfoldable pub check_probes : List Probe → List (ℕ × List (List ℕ)) → ℕ → Result ℕ
unfolding get count_observed
check_probes [] received errors = ok errors
check_probes (probe ∷ probes) received errors = do
  captured ← or_raise (get received probe.receiver) key_error
  check_probes probes received
      (errors + (if count_observed probe.frames captured == wanted_of probe then 0 else 1))

unfoldable pub check_delivery : List Probe → List (ℕ × List (List ℕ)) → Result (Unit {0})
unfolding check_captures check_probes
check_delivery probes received = do
  errors ← check_captures probes received (1 ∷ 2 ∷ []) 0
  errors' ← check_probes probes received errors
  raise_if (ltb 0 errors') runtime_error
