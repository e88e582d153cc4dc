-- ===== src/Reflector/Delivered.antt =====
-- `check_delivery` of 01_packet_reflector/topology.py, and what it means for the probes of
-- `make_probes`.
use Prim.Native.Nat.{ℕ, ◌≤◌}
use mathlib.Core.Bool.{false}
use mathlib.Core.List.{List, [], ◌++◌, ◌∷◌}
use mathlib.Core.Logic.{inl, inr, ◌↔◌}
use mathlib.Core.Path.{fun_ext, refl, subst, sym, ◌∙◌, ◌≡◌}
use native.Mathlib.Omega.{arith}
use p4_cases.Delivery.{check_hosts, chosen}
use p4_cases.Delivery.Hosts.{IsDelivered, check_hosts-IsDelivered}
use p4_cases.L2.Collect.{range}
use p4_cases.L2.Frame.{IsMarker}
use p4_cases.Prelude.Lists.{All, drop, length, take}
use p4_cases.Prelude.Result.{Result, ok, ok-injective, ◌>>=◌}
use p4_cases.Prelude.Tests.{Bool-cases, if◌then◌else◌, ltb, ◌==◌}
use p4_cases.Reflector.{reflect_frame}
use p4_cases.Reflector.Capture.{IsProbe, make_probes-IsProbe}
use p4_cases.Reflector.Probes.{Probe, make_probes}
use p4_cases.Wire.Bytes.{slice}

-- `[reflect_frame(item["frame"]) for item in probes if item["receiver"] == name]`
unfoldable pub reflections : List Probe → ℕ → Result (List (List ℕ))
unfolding reflect_frame
reflections [] host = ok []
reflections (item ∷ probes) host =
    let rest = reflections probes host in
    if item.receiver == host
    then (do frame ← reflect_frame item.frame; frames ← rest; ok (frame ∷ frames))
    else rest

unfoldable pub check_delivery : List Probe → List (ℕ × List (List ℕ)) → ℕ → Result (Unit {0})
unfolding reflections check_hosts range
check_delivery probes received n_hosts = check_hosts (range 1 n_hosts) (reflections probes) received

-- A frame with its two addresses exchanged.
abbrev pub mirror : List ℕ → List ℕ
mirror frame = slice 6 12 frame ++ (take 6 frame ++ drop 12 frame)

-- What a reflector sends back to a host: the mirrors of the frames that the host has sent.
pub sent_back : List Probe → ℕ → List (List ℕ)
sent_back probes host = chosen (λ p. p.sender == host) (λ p. mirror p.frame) probes

reflections_run :
    (prefix : List ℕ) (n host : ℕ) (ps : List Probe)
    → All (IsProbe prefix n) ps
    → reflections ps host ≡ ok (sent_back ps host)
unfolding reflections reflect_frame sent_back chosen
reflections_run prefix n host [] h = refl
reflections_run prefix n host (p ∷ ps) (g, rest) =
    let long : ltb (length p.frame) 14 ≡ false = let m = g.minimum in ground arith in
    let same = g.reflected in
    elim (Bool-cases (p.sender == host)) [
      | inl e ↦ rw (same, e, long, reflections_run prefix n host ps rest) refl
      | inr e ↦ rw (same, e) (reflections_run prefix n host ps rest)
    ]

-- For the probes that `make_probes` returns for 1 to 254 hosts, `check_delivery` passes exactly if
-- every host and no other has a reply and each reply holds, up to order, the mirrors of the frames that its host
-- has sent: the behaviour of a switch that reflects every frame to its ingress with the addresses
-- exchanged.
pub check_delivery-make_probes :
    (prefix : List ℕ) (n : ℕ) (ps : List Probe) (received : List (ℕ × List (List ℕ)))
    → IsMarker prefix
    → 1 ≤ n
    → n ≤ 254
    → make_probes prefix n ≡ ok ps
    → (check_delivery ps received n ≡ ok tt)
      ↔ IsDelivered (range 1 n) (λ host. ok (sent_back ps host)) received
unfolding check_delivery
check_delivery-make_probes prefix n ps received m lo hi h =
    let (qs, e, l, all) = make_probes-IsProbe prefix m n lo hi in
    let same : qs ≡ ps = ok-injective (sym e ∙ h) in
    let good : All (IsProbe prefix n) ps = subst (All (IsProbe prefix n)) same all in
    let f : reflections ps ≡ (λ host. ok (sent_back ps host)) =
      fun_ext (λ host. reflections_run prefix n host ps good) in
    rw f (check_hosts-IsDelivered (range 1 n) (λ host. ok (sent_back ps host)) received)
