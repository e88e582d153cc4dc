-- ===== src/Runs/Repeater.antt =====
-- The probes of one marker.
use Prim.Native.Nat.{ℕ}
use mathlib.Core.List.{List, [], ◌∷◌}
use mathlib.Core.Path.{refl, ◌≡◌}
use p4_cases.L2.Frame.{IsMarker}
use p4_cases.Prelude.Lists.{All, length}
use p4_cases.Prelude.Result.{ok}
use p4_cases.Repeater.Capture.{IsProbe, make_probes-IsProbe_repeated}
use p4_cases.Repeater.Probes.{Probe, make_probes}

abbrev marker : List ℕ
marker = 2 ∷ 0x77 ∷ 0x10 ∷ 0x20 ∷ []

marker-IsMarker : IsMarker marker
marker-IsMarker = record { four = refl; unicast = refl }

make_probes-IsProbe_repeated_example :
    (ps : List Probe) × (make_probes marker ≡ ok ps) × (length ps ≡ 174) × All (IsProbe marker) ps
make_probes-IsProbe_repeated_example = make_probes-IsProbe_repeated marker marker-IsMarker
