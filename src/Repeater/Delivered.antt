-- ===== src/Repeater/Delivered.antt =====
-- `check_delivery` of 02_repeater/topology.py.
use Prim.Native.Nat.{ℕ}
use mathlib.Core.List.{List, [], ◌∷◌}
use p4_cases.Delivery.{check_hosts, chosen}
use p4_cases.Prelude.Result.{Result, ok}
use p4_cases.Prelude.Tests.{◌==◌}
use p4_cases.Repeater.Probes.{Probe}

-- `[item["frame"] for item in probes if item["receiver"] == name]`
unfoldable pub frames_for : List Probe → ℕ → List (List ℕ)
unfolding chosen
frames_for probes host = chosen (λ item. item.receiver == host) (λ item. item.frame) probes

unfoldable pub check_delivery : List Probe → List (ℕ × List (List ℕ)) → Result (Unit {0})
unfolding frames_for check_hosts
check_delivery probes received =
    check_hosts (1 ∷ 2 ∷ []) (λ host. ok (frames_for probes host)) received
