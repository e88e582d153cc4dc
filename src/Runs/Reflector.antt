-- ===== src/Runs/Reflector.antt =====
-- One frame reflected, and the probes of two hosts.
use Prim.Native.Nat.{ℕ, ◌*◌}
use mathlib.Core.List.{List, [], ◌∷◌}
use mathlib.Core.Logic.{◌↔◌}
use mathlib.Core.Path.{refl, ◌≡◌}
use native.Mathlib.Omega.{arith}
use p4_cases.Delivery.{check_hosts, same_hosts}
use p4_cases.Delivery.Hosts.{IsDelivered}
use p4_cases.L2.Collect.{range}
use p4_cases.L2.Frame.{IsMarker}
use p4_cases.Prelude.Lists.{All, length}
use p4_cases.Prelude.Result.{err, ok, runtime_error}
use p4_cases.Reflector.{reflect_frame}
use p4_cases.Reflector.Capture.{IsProbe, make_probes-IsProbe}
use p4_cases.Reflector.Delivered.{check_delivery, check_delivery-make_probes, sent_back}
use p4_cases.Reflector.Probes.{Probe, make_probes}
use p4_cases.Reflector.Reflection.{IsReflection, reflect_frame-reflect_frame}

abbrev frame : List ℕ
frame = 1 ∷ 2 ∷ 3 ∷ 4 ∷ 5 ∷ 6 ∷ 7 ∷ 8 ∷ 9 ∷ 10 ∷ 11 ∷ 12 ∷ 0x88 ∷ 0xb5 ∷ 42 ∷ []

reflect_frame_frame :
    reflect_frame frame
    ≡ ok (7 ∷ 8 ∷ 9 ∷ 10 ∷ 11 ∷ 12 ∷ 1 ∷ 2 ∷ 3 ∷ 4 ∷ 5 ∷ 6 ∷ 0x88 ∷ 0xb5 ∷ 42 ∷ [])
unfolding reflect_frame
reflect_frame_frame = refl

reflect_frame-reflect_frame_example :
    (g : List ℕ) × (reflect_frame frame ≡ ok g)
    × IsReflection frame g
    × (reflect_frame g ≡ ok frame)
reflect_frame-reflect_frame_example = reflect_frame-reflect_frame frame (omega arith)

abbrev marker : List ℕ
marker = 2 ∷ 0x77 ∷ 0x10 ∷ 0x20 ∷ []

marker-IsMarker : IsMarker marker
marker-IsMarker = record { four = refl; unicast = refl }

make_probes-IsProbe_example :
    (ps : List Probe) × (make_probes marker 2 ≡ ok ps)
    × (length ps ≡ 92 * 2)
    × All (IsProbe marker 2) ps
make_probes-IsProbe_example =
    make_probes-IsProbe marker marker-IsMarker 2 (omega arith) (omega arith)

abbrev probes : List Probe
probes = make_probes-IsProbe_example.0

abbrev replies : List (ℕ × List (List ℕ))
replies = (2, sent_back probes 2) ∷ (1, sent_back probes 1) ∷ []

check_delivery-make_probes_example :
    (check_delivery probes replies 2 ≡ ok tt)
    ↔ IsDelivered (range 1 2) (λ host. ok (sent_back probes host)) replies
check_delivery-make_probes_example =
    check_delivery-make_probes marker 2 probes replies marker-IsMarker (omega arith) (omega arith)
      (make_probes-IsProbe_example.1)

short_delivery : check_delivery [] ((1, []) ∷ []) 2 ≡ err runtime_error
unfolding check_delivery check_hosts same_hosts
short_delivery = refl
