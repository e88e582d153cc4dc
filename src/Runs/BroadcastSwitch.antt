-- ===== src/Runs/BroadcastSwitch.antt =====
-- The probes of three hosts.
use Prim.Native.Nat.{ℕ, ◌*◌, ◌+◌, ◌-◌}
use mathlib.Core.List.{List, [], ◌∷◌}
use mathlib.Core.Logic.{◌↔◌}
use mathlib.Core.Path.{refl, ◌≡◌}
use native.Mathlib.Omega.{arith}
use p4_cases.BroadcastSwitch.Delivered.{
  check_delivery, check_delivery-make_probes_flooded, switched,
}
use p4_cases.BroadcastSwitch.Expected.{make_probes-IsProbe_flooded}
use p4_cases.BroadcastSwitch.Probes.{Probe, make_probes}
use p4_cases.BroadcastSwitch.Verdicts.{IsProbe}
use p4_cases.Delivery.Hosts.{IsDelivered}
use p4_cases.L2.Collect.{range}
use p4_cases.L2.Frame.{IsMarker}
use p4_cases.L2.Hosts.{repeats}
use p4_cases.Prelude.Lists.{All, length}
use p4_cases.Prelude.Result.{ok}

abbrev marker : List ℕ
marker = 2 ∷ 0x77 ∷ 0x10 ∷ 0x20 ∷ []

marker-IsMarker : IsMarker marker
marker-IsMarker = record { four = refl; unicast = refl }

make_probes-IsProbe_flooded_example :
    (ps : List Probe) × (make_probes marker 3 ≡ ok ps)
    × (length ps ≡ 3 * (repeats 3 * (3 - 1) + 66))
    × All (IsProbe marker 3) ps
make_probes-IsProbe_flooded_example =
    make_probes-IsProbe_flooded marker marker-IsMarker 3 (omega arith) (omega arith)

abbrev probes : List Probe
probes = make_probes-IsProbe_flooded_example.0

abbrev replies : List (ℕ × List (List ℕ))
replies = (2, switched 3 probes 2) ∷ (1, switched 3 probes 1) ∷ (3, switched 3 probes 3) ∷ []

check_delivery-make_probes_flooded_example :
    (check_delivery probes replies 3 ≡ ok tt)
    ↔ IsDelivered (range 1 3) (λ host. ok (switched 3 probes host)) replies
check_delivery-make_probes_flooded_example =
    check_delivery-make_probes_flooded marker 3 probes replies marker-IsMarker (omega arith)
      (omega arith) (make_probes-IsProbe_flooded_example.1)
