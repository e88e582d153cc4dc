-- ===== src/Runs/Lpm.antt =====
-- Addresses of the case, and one forwarded frame.
use Prim.Native.Nat.{ℕ}
use mathlib.Core.List.{List, [], ◌++◌, ◌∷◌}
use mathlib.Core.Logic.{inr}
use mathlib.Core.Option.{some}
use mathlib.Core.Path.{refl, ◌≡◌}
use native.Mathlib.Omega.{arith}
use p4_cases.Ip.Forward.{IsForwarded}
use p4_cases.Ip.Transport.{filler}
use p4_cases.L2.Hosts.{mac}
use p4_cases.Lpm.{expected_frame, expected_host, first_subnet, host_route, network}
use p4_cases.Lpm.Built.{IsSegment}
use p4_cases.Lpm.Frames.{Request, host_address, label, make_frame, request}
use p4_cases.Lpm.Hop.{expected_frame-IsForwarded}
use p4_cases.Lpm.Longest.{IsLongest, expected_host-IsLongest, routes}
use p4_cases.Lpm.Packets.{IsPacket, make_frame-IsPacket}
use p4_cases.Lpm.Probes.{Probe, peer}
use p4_cases.Lpm.Run.{make_probes}
use p4_cases.Prelude.Lists.{length, replicate, take}
use p4_cases.Prelude.Result.{Result, err, for_each, ok}
use p4_cases.Wire.Bytes.{be16, bytes_eq}
use p4_cases.Wire.Checksum.{checksum}

abbrev between : List ℕ
between = network 3 ++ (replicate 7 0 ++ (0x43 ∷ []))

expected_host_exact : expected_host host_route ≡ some 2
unfolding expected_host first_subnet bytes_eq
expected_host_exact = refl

expected_host_subnet : expected_host between ≡ some 3
unfolding expected_host first_subnet bytes_eq
expected_host_subnet = refl

expected_host-IsLongest_example : IsLongest between routes (expected_host between)
expected_host-IsLongest_example = expected_host-IsLongest between refl

abbrev frame : ℕ → List ℕ
frame hops = replicate 21 9 ++ (hops ∷ replicate 40 9)

expected_frame-IsForwarded_example :
    (g : List ℕ) × (expected_frame (frame 64) 2 ≡ ok g) × IsForwarded (mac 2) 21 (frame 64) g
expected_frame-IsForwarded_example =
    expected_frame-IsForwarded (frame 64) 2 62 (omega arith) (omega arith) (omega arith) refl

count_of : Result (List Probe) → ℕ
count_of (ok probes) = length probes
count_of (err raised) = 0

make_probes_count : count_of (make_probes (2 ∷ 2 ∷ 3 ∷ 4 ∷ [])) ≡ 228
unfolding make_probes count_of for_each filler checksum expected_host
make_probes_count = refl

abbrev marker : List ℕ
marker = 2 ∷ 0x77 ∷ 0x10 ∷ 0x20 ∷ []

abbrev first_request : Request
first_request = record (request marker 7 1 peer) { protocol = 58 }

make_frame-IsPacket_example :
    (t : List ℕ) × (frame : List ℕ) × (make_frame first_request ≡ ok frame)
    × IsSegment (host_address 1).packed peer.packed (take 24 (label (be16 7))) 58 t
    × IsPacket first_request t frame
make_frame-IsPacket_example =
    make_frame-IsPacket first_request (record { four = refl; unicast = refl }) refl refl refl refl
      (omega arith) (inr (inr refl)) (omega arith)
