-- ===== src/Runs/Firewall.antt =====
-- The vectors of one run, and one packet.
use Prim.Native.Nat.{ℕ}
use mathlib.Core.Bool.{false, true}
use mathlib.Core.List.{List, [], ◌++◌, ◌∷◌}
use mathlib.Core.Logic.{◌↔◌}
use mathlib.Core.Path.{refl, ◌≡◌}
use native.Mathlib.Omega.{arith}
use p4_cases.Firewall.{Request, make_frame, no_fault, udp}
use p4_cases.Firewall.Checked.{IsAclDelivered, check_delivery-IsAclDelivered}
use p4_cases.Firewall.Delivered.{check_delivery, expected_at}
use p4_cases.Firewall.Packets.{IsAclFrame, IsRequest, make_frame-IsAclFrame}
use p4_cases.Firewall.Vectors.{Probe, dst_ip_of, src_ip_of, test_vectors}
use p4_cases.L2.Hosts.{mac}
use p4_cases.Prelude.Lists.{length, replicate, take}
use p4_cases.Prelude.Result.{Result, for_each, ok, ◌>>=◌}
use p4_cases.Wire.Bytes.{be16, ljust}
use p4_cases.Wire.Checksum.{checksum}

abbrev marker : List ℕ
marker = 2 ∷ 0x77 ∷ 0x10 ∷ 0x20 ∷ []

-- What a switch that obeys the labels delivers to a host.
obedient : List Probe → List (ℕ × List (List ℕ))
unfolding expected_at
obedient probes = (2, expected_at probes 2) ∷ (1, expected_at probes 1) ∷ []

-- A run of the vectors with that switch.
run : Result (ℕ × Result (Unit {0}))
unfolding test_vectors obedient check_delivery
run = test_vectors marker >>= λ probes.
    ok (length probes, check_delivery (take 8 probes) (obedient (take 8 probes)))

run_passes : run ≡ ok (40, ok tt)
unfolding run test_vectors obedient check_delivery for_each checksum
run_passes = refl

abbrev first_request : Request
first_request = record {
  src_mac = marker ++ be16 1;
  dst_mac = mac 2;
  src_ip = src_ip_of 1;
  dst_ip = dst_ip_of 2;
  protocol = udp;
  dport = 1234;
  options = replicate 4 1;
  sequence = 1;
  fault = no_fault;
  flags = 2;
  offset = 0;
}

first_request-IsRequest : IsRequest first_request
first_request-IsRequest = record {
  ip = λ e. cc;
  unspoiled = refl;
  sound_options = (omega arith, refl);
  from = (omega arith, omega arith, omega arith, omega arith);
  to = (omega arith, omega arith, omega arith, omega arith);
  low_sequence = omega arith;
  low_port = omega arith;
  fragment = omega arith;
}

make_frame-IsAclFrame_example :
    (header : List ℕ) × (transport : List ℕ) × (make_frame first_request
      ≡ ok (ljust 60 0 ((mac 2 ++ (marker ++ be16 1)) ++ (0x08 ∷ 0x00 ∷ (header ++ transport)))))
    × IsAclFrame first_request header transport
make_frame-IsAclFrame_example = make_frame-IsAclFrame first_request first_request-IsRequest

-- An allowed probe and one that is denied, with different sources.
abbrev pair : List Probe
pair =
    record { name = "sent"; sender = 1; receiver = 2; allowed = true; frames = replicate 14 7 ∷ [] }
    ∷ record {
      name = "denied";
      sender = 2;
      receiver = 1;
      allowed = false;
      frames = replicate 14 9 ∷ [];
    }
    ∷ []

check_delivery-IsAclDelivered_example :
    (check_delivery pair (obedient pair) ≡ ok tt) ↔ IsAclDelivered pair (obedient pair)
check_delivery-IsAclDelivered_example = check_delivery-IsAclDelivered pair (obedient pair)
