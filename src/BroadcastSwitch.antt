-- ===== src/BroadcastSwitch.antt =====
-- 04_l2_broadcast_switch/packets.py: known unicast and complete flooded frames for every ingress.
pub mod Probes
pub mod Verdicts
pub mod Expected
pub mod Delivered
use p4_cases.L2.Datagram
use p4_cases.L2.Frame
use p4_cases.L2.Hosts
use Prim.Native.Nat.{ℕ}
use mathlib.Core.List.{List}
use p4_cases.Prelude.Result.{Result}
use p4_cases.Wire.Pack.{Dotted}

unfoldable pub host_ip : ℕ → Result Dotted
host_ip = Hosts.host_ip 128

unfoldable pub host_mac : ℕ → Result (List ℕ)
host_mac = Hosts.host_mac 128

unfoldable pub ipv4_udp : ℕ → ℕ → ℕ → ℕ → Result (List ℕ)
unfolding host_ip
ipv4_udp = Datagram.ipv4_udp host_ip

unfoldable pub make_frame : List ℕ → ℕ → List ℕ → ℕ → List ℕ → Result (List ℕ)
make_frame = Frame.make_frame 4294967296
