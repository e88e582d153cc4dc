-- ===== src/Reflector.antt =====
-- 01_packet_reflector/packets.py: complete Ethernet frames and their MAC-swapped reflections.
pub mod Reflection
pub mod Probes
pub mod Capture
pub mod Delivered
use p4_cases.L2.Datagram
use p4_cases.L2.Frame
use Prim.Native.Nat.{ℕ, ◌≤◌}
use mathlib.Core.Bool.{not, ◌&&◌}
use mathlib.Core.List.{List, [], ◌++◌, ◌∷◌}
use mathlib.Core.Path.{◌≡◌}
use native.Mathlib.Omega.{arith}
use p4_cases.Prelude.Lists.{drop, length, take}
use p4_cases.Prelude.Result.{Result, ok, raise_if, value_error, ◌>>◌}
use p4_cases.Prelude.Tests.{leb, ltb}
use p4_cases.Wire.Bytes.{slice}
use p4_cases.Wire.Pack.{Dotted}

-- `validate_host_count`
unfoldable pub validate_host_count : ℕ → Result (Unit {0})
validate_host_count number = raise_if (not (leb 1 number && leb number 254)) value_error

unfoldable pub host_ip : ℕ → Result Dotted
unfolding validate_host_count
host_ip number = do validate_host_count number; ok (record { a = 10; b = 0; c = 0; d = number })

-- `bytes.fromhex(host_mac(number).replace(":", ""))`: the text is modelled by its six bytes
unfoldable pub host_mac : ℕ → Result (List ℕ)
unfolding validate_host_count
host_mac number = do validate_host_count number; ok (0 ∷ 0 ∷ 0 ∷ 0 ∷ 0 ∷ number ∷ [])

unfoldable pub ipv4_udp : ℕ → ℕ → ℕ → ℕ → Result (List ℕ)
ipv4_udp = Datagram.ipv4_udp host_ip

unfoldable pub make_frame : List ℕ → ℕ → List ℕ → ℕ → List ℕ → Result (List ℕ)
make_frame = Frame.make_frame 65536

-- `frame[6:12] + frame[:6] + frame[12:]`
unfoldable pub reflect_frame : List ℕ → Result (List ℕ)
reflect_frame frame = do
  raise_if (ltb (length frame) 14) value_error
  ok (slice 6 12 frame ++ (take 6 frame ++ drop 12 frame))

pub host_valid : (n : ℕ) → 1 ≤ n → n ≤ 254 → validate_host_count n ≡ ok tt
unfolding validate_host_count
host_valid n lo hi = ground arith
