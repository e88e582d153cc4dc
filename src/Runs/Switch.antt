-- ===== src/Runs/Switch.antt =====
-- Two switches, one start that fails, and its command line.
use Prim.Native.Nat.{ℕ, ◌+◌}
use Prim.Native.String.{String}
use mathlib.Core.Bool.{false, true}
use mathlib.Core.List.{List, [], ◌∷◌}
use mathlib.Core.Logic.{◌↔◌}
use mathlib.Core.Option.{none, some}
use mathlib.Core.Path.{refl, ◌≡◌}
use native.Mathlib.Omega.{arith}
use p4_cases.Prelude.Lists.{get_elem?}
use p4_cases.Prelude.Tests.{if◌then◌else◌, ◌==◌}
use p4_cases.Prelude.Text.{decimal}
use p4_cases.Switch.{
  Arguments, Switch, World, command, iface_args, new_switch, reset_port_allocators, start,
  wait_tcp_open,
}
use p4_cases.Switch.Ports.{AreApart, created, new_switch-AreApart}
use p4_cases.Switch.Started.{LeavesClean, Opens, start-LeavesClean, wait_tcp_open-Opens}

abbrev arguments : String → Arguments
arguments name = record {
  name = name;
  device_id = 1;
  grpc_port = none;
  thrift_port = none;
  cpu_port = some 510;
  sw_path = "bmv2";
  log_file = "log";
  pcap_dir = none;
}

abbrev two : List Arguments
two = arguments "s1" ∷ arguments "s2" ∷ []

abbrev nth : ℕ → Switch
nth i = record {
  name = if i == 0 then "s1" else "s2";
  device_id = 1;
  grpc_port = 9559 + i;
  thrift_port = 9090 + i;
  cpu_port = some 510;
  sw_path = "bmv2";
  log_file = "log";
  pcap_dir = none;
  running = false;
}

second : get_elem? (created two reset_port_allocators) 1 ≡ some (nth 1)
unfolding created new_switch
second = refl

first : get_elem? (created two reset_port_allocators) 0 ≡ some (nth 0)
unfolding created new_switch
first = refl

new_switch-AreApart_example : AreApart 0 1 (nth 0) (nth 1)
new_switch-AreApart_example =
    new_switch-AreApart two 0 1 (nth 0) (nth 1) ((refl, refl), ((refl, refl), tt)) (omega arith)
      first second

command_line :
    command (nth 0) ((0, "lo") ∷ (1, "s1-eth1") ∷ [])
    ≡ "bmv2" ∷ "--no-p4" ∷ "--log-file" ∷ "log" ∷ "--log-flush" ∷ "--device-id" ∷ "1"
      ∷ "--thrift-port" ∷ "9090" ∷ "-i" ∷ "1@s1-eth1" ∷ "--" ∷ "--grpc-server-addr" ∷ "0.0.0.0:9559"
      ∷ "--cpu-port" ∷ "510" ∷ []
unfolding command iface_args decimal
command_line = refl

-- The process exits before the port opens.
abbrev world : World
world = record {
  path_exists = true;
  in_use = λ port. false;
  makedirs_raises = none;
  launch_raises = none;
  wait_raises = none;
  rounds =
      record { exited = false; connects = false; exited_then = false }
      ∷ record { exited = true; connects = false; exited_then = true }
      ∷ [];
}

start-LeavesClean_example : LeavesClean world (nth 0) (start world [] (nth 0))
start-LeavesClean_example = start-LeavesClean world [] (nth 0) refl

wait_tcp_open-Opens_example : (wait_tcp_open world.rounds ≡ true) ↔ Opens world.rounds
wait_tcp_open-Opens_example = wait_tcp_open-Opens world.rounds
