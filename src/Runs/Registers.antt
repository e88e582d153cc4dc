-- ===== src/Runs/Registers.antt =====
-- A register close to its modulus, and one counted frame.
use Prim.Native.Nat.{suc, zero, ℕ, ◌%◌}
use mathlib.Core.Bool.{Bool, false, true}
use mathlib.Core.List.{List, [], ◌++◌, ◌∷◌}
use mathlib.Core.Logic.{inr}
use mathlib.Core.Option.{some}
use mathlib.Core.Path.{refl, ◌≡◌}
use native.Mathlib.Omega.{arith}
use p4_cases.Ip.Built.{IsSegment, address_bytes}
use p4_cases.Ip.Sealed.{IsSealed}
use p4_cases.Ip.Transport.{filler}
use p4_cases.L2.Collect.{range}
use p4_cases.Prelude.Lists.{All, length, length-replicate, replicate}
use p4_cases.Prelude.Result.{Result, err, for_each, ok}
use p4_cases.Prelude.Tests.{◌==◌}
use p4_cases.Registers.{Probe, check_counts, counted_slots, flow_slot}
use p4_cases.Registers.Built.{IsRequest, ethernet, make_frame-IsSealed_marked, payload}
use p4_cases.Registers.Checked.{check_counts-counted, check_counts_sound}
use p4_cases.Registers.Counting.{IsCounter, counted}
use p4_cases.Registers.Excluded.{add_excluded}
use p4_cases.Registers.Frames.{Request, host_ip, make_frame, request}
use p4_cases.Registers.Ports.{filter, first_two, ports_for_slot, ports_for_slot-first_two, slot_of}
use p4_cases.Wire.Bytes.{slice}
use p4_cases.Wire.Checksum.{checksum}
use p4_cases.Wire.Crc.{crc16}
use p4_cases.Wire.Pack.{Dotted, dotted_packed}

abbrev frame : List ℕ
frame =
    replicate 14 9
    ++ (0x45 ∷ (replicate 11 0 ++ (10 ∷ 0 ∷ 0 ∷ 1 ∷ 10 ∷ 0 ∷ 0 ∷ 2 ∷ replicate 10 5)))

abbrev full : List ℕ
full = replicate 1024 4294967295

full-IsCounter : (n : ℕ) → All IsCounter (replicate n 4294967295)
full-IsCounter zero = tt
full-IsCounter (suc n) = (omega arith, full-IsCounter n)

abbrev probe : Bool → Probe
probe counted = record {
  name = "probe";
  frame = frame;
  sender = 1;
  receiver = 2;
  allowed = true;
  counted = counted;
}

abbrev probes : List Probe
probes = probe true ∷ probe false ∷ []

abbrev slot : ℕ
slot = crc16 (slice 26 38 frame) % 1024

one_slot : counted_slots probes ≡ ok (slot ∷ [])
unfolding counted_slots flow_slot
one_slot = refl

check_counts-counted_example : check_counts full (counted (slot ∷ []) full) probes ≡ ok tt
check_counts-counted_example =
    check_counts-counted full (slot ∷ []) probes (length-replicate {A = ℕ} 1024 4294967295)
      (full-IsCounter 1024) one_slot (omega arith)

check_counts_sound_example :
    (slots : List ℕ) × (counted_slots probes ≡ ok slots)
    × (counted (slot ∷ []) full ≡ counted slots full)
check_counts_sound_example =
    check_counts_sound full (counted (slot ∷ []) full) probes check_counts-counted_example

abbrev marker : List ℕ
marker = 2 ∷ 0x77 ∷ 0x10 ∷ 0x20 ∷ []

batch_size : Result (ℕ × List Probe) → ℕ
batch_size (ok (sequence, batch)) = length batch
batch_size (err raised) = 0

excluded_size : batch_size (for_each (add_excluded marker) (1 ∷ 2 ∷ []) (0, [])) ≡ 48
unfolding add_excluded batch_size for_each dotted_packed filler checksum make_frame
excluded_size = refl

abbrev from : Dotted
from = host_ip 1

abbrev to : Dotted
to = host_ip 2

ports_for_slot-first_two_example :
    ports_for_slot from to 1023
    ≡ first_two (filter (λ port. slot_of from to port == 1023) (range 10000 55536))
ports_for_slot-first_two_example =
    ports_for_slot-first_two from to 1023 (omega arith, omega arith, omega arith, omega arith)
      (omega arith, omega arith, omega arith, omega arith) (omega arith)

abbrev first_request : Request
first_request = record (request marker 7 1) { options = replicate 4 1; source = some from }

first_request-IsRequest : IsRequest first_request
first_request-IsRequest = record {
  good = refl;
  source_fits = (omega arith, omega arith, omega arith, omega arith);
  target_fits = (omega arith, omega arith, omega arith, omega arith);
  number = omega arith;
  datagram = omega arith;
  ports = (omega arith, omega arith);
  fields = (omega arith, omega arith, omega arith);
}

make_frame-IsSealed_marked_example :
    (t : List ℕ) × (frame : List ℕ) × (make_frame first_request ≡ ok frame)
    × IsSegment 17 (address_bytes from) (address_bytes to) [] (payload first_request) 1111 2222 7 t
    × IsSealed
        (ethernet first_request)
        (replicate 4 1)
        t
        (address_bytes from)
        (address_bytes to)
        7
        0
        64
        17
        frame
make_frame-IsSealed_marked_example =
    make_frame-IsSealed_marked first_request first_request-IsRequest refl (inr (refl, refl))
