-- ===== src/Repeater.antt =====
-- 02_repeater/packets.py: complete frames that the repeater must forward unmodified.
pub mod Probes
pub mod Capture
pub mod Delivered
use p4_cases.L2.Datagram
use p4_cases.L2.Frame
use Prim.Native.Nat.{ℕ}
use mathlib.Core.Bool.{not, ◌||◌}
use mathlib.Core.List.{List}
use p4_cases.Prelude.Result.{Result, ok, raise_if, value_error, ◌>>◌}
use p4_cases.Prelude.Tests.{◌==◌}
use p4_cases.Wire.Pack.{Dotted}

-- `number not in (1, 2)`
unfoldable pub host_ip : ℕ → Result Dotted
host_ip number = do
  raise_if (not (number == 1 || number == 2)) value_error
  ok (record { a = 10; b = 0; c = 0; d = number })

unfoldable pub ipv4_udp : ℕ → ℕ → ℕ → ℕ → Result (List ℕ)
ipv4_udp = Datagram.ipv4_udp host_ip

unfoldable pub make_frame : List ℕ → ℕ → List ℕ → ℕ → List ℕ → Result (List ℕ)
make_frame = Frame.make_frame 65536
