-- ===== src/Runs/Ecmp.antt =====
-- The hash of known data, and one routed frame.
use Prim.Native.Nat.{max, ℕ}
use mathlib.Core.List.{List, [], ◌++◌, ◌∷◌}
use mathlib.Core.Logic.{inl}
use mathlib.Core.Option.{some}
use mathlib.Core.Path.{refl, ◌≡◌}
use native.Mathlib.Omega.{arith}
use p4_cases.Ecmp.{expected_frame, expected_host}
use p4_cases.Ecmp.Affinity.{expected_host-expected_frame}
use p4_cases.Ecmp.Built.{IsRequest, make_frame-IsSealed, payload}
use p4_cases.Ecmp.Frames.{Request, make_frame, request}
use p4_cases.Ecmp.Probes.{Probe}
use p4_cases.Ecmp.Routed.{expected_frame-IsRenewed}
use p4_cases.Ecmp.Run.{make_probes}
use p4_cases.Ip.Built.{IsSegment}
use p4_cases.Ip.Forward.{IsForwarded}
use p4_cases.Ip.Recalculate.{ihl_bytes}
use p4_cases.Ip.Renewed.{IsRenewed}
use p4_cases.Ip.Sealed.{IsSealed}
use p4_cases.Ip.Transport.{filler}
use p4_cases.L2.Hosts.{mac}
use p4_cases.Prelude.Lists.{length, replicate}
use p4_cases.Prelude.Result.{Result, err, for_each, ok}
use p4_cases.Wire.Checksum.{checksum}
use p4_cases.Wire.Crc.{crc16, crc_loop, crc_rounds}
use p4_cases.Wire.Pack.{dotted_packed}

-- The check value of CRC-16/ARC: the digits 1 to 9 give 0xbb3d.
crc16_digits : crc16 (0x31 ∷ 0x32 ∷ 0x33 ∷ 0x34 ∷ 0x35 ∷ 0x36 ∷ 0x37 ∷ 0x38 ∷ 0x39 ∷ []) ≡ 0xbb3d
unfolding crc16 crc_loop crc_rounds
crc16_digits = refl

abbrev frame : List ℕ
frame =
    replicate 14 9
    ++ (0x45
        ∷ (replicate 7 0 ++ (64 ∷ 17 ∷ (replicate 6 3 ++ (10 ∷ 0 ∷ 0 ∷ 100 ∷ replicate 26 5)))))

expected_frame-IsRenewed_example :
    (g : List ℕ) × (r : List ℕ) × (expected_frame frame (some 2) ≡ ok r)
    × IsForwarded (mac 2) 22 frame g
    × IsRenewed g (max 20 (ihl_bytes 0x45)) r
expected_frame-IsRenewed_example =
    expected_frame-IsRenewed frame 2 63 0x45 (omega arith) (omega arith) (omega arith) refl refl

expected_host-expected_frame_example :
    (r : List ℕ) × (expected_frame frame (some 2) ≡ ok r) × (expected_host r ≡ expected_host frame)
expected_host-expected_frame_example =
    expected_host-expected_frame frame 2 63 0x45 (omega arith) (omega arith) (omega arith) refl
      (omega arith) refl

count_of : Result (List Probe) → ℕ
count_of (ok probes) = length probes
count_of (err raised) = 0

-- The probes of two flows.
make_probes_count : count_of (make_probes (1 ∷ 2 ∷ 3 ∷ []) 2) ≡ 135
unfolding make_probes count_of for_each dotted_packed filler checksum expected_host
make_probes_count = refl

abbrev first_request : Request
first_request =
    record (request (10 ∷ 0 ∷ 0 ∷ 1 ∷ []) (record { a = 10; b = 0; c = 0; d = 2 }) 1 7) {
      protocol = 6;
      tcp_options = replicate 4 1;
    }

first_request-IsRequest : IsRequest first_request
first_request-IsRequest = record {
  good = refl;
  address = (omega arith, omega arith, omega arith, omega arith);
  number = omega arith;
  short = omega arith;
  ports = (omega arith, omega arith);
  fields = (omega arith, omega arith, omega arith);
}

make_frame-IsSealed_example :
    (t : List ℕ) × (frame : List ℕ) × (make_frame first_request ≡ ok frame)
    × IsSegment 6
        (10 ∷ 0 ∷ 0 ∷ 1 ∷ [])
        (10 ∷ 0 ∷ 0 ∷ 2 ∷ [])
        (replicate 4 1)
        (payload first_request)
        1000
        5000
        7
        t
    × IsSealed
        (mac 1 ++ (mac 1 ++ (0x08 ∷ 0x00 ∷ [])))
        []
        t
        (10 ∷ 0 ∷ 0 ∷ 1 ∷ [])
        (10 ∷ 0 ∷ 0 ∷ 2 ∷ [])
        7
        0
        64
        6
        frame
make_frame-IsSealed_example =
    make_frame-IsSealed first_request first_request-IsRequest refl (inl refl)
