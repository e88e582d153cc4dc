-- ===== src/Lib.antt =====
-- Packet construction and prediction of the P4 cases.
--
-- The repository holds fourteen P4 cases. Each has a module `packets.py` (or code in its
-- `topology.py`) that builds labelled test packets and predicts what the switch does with them; the
-- topology sends them through Mininet and compares the captures with the prediction. This library
-- models the packet modules, in Python, as total functions on byte lists, and with them the checks of
-- the captures of cases 01 to 04 and 10, the check of the register case, and the controller and switch
-- processes of common/runtime.py and common/p4switch.py.
--
-- Parts and files:
-- Prelude: tests on native numbers, lists measured by native numbers, errors as values (one
--   constructor of `Error` for each class of exception; messages are not modelled), loops that raise.
-- Wire: byte strings, slices and slice assignment, `struct.pack`, and `checksum`, the Internet
--   checksum that ten packet modules repeat. Its carry loop is recursion on accessibility of `<`.
-- L2: what 01_packet_reflector/packets.py, 02_repeater/packets.py,
--   03_l2_forwarding_switch/packets.py and 04_l2_broadcast_switch/packets.py share: `ipv4_udp`,
--   `ipv6_udp`, `make_frame`, the kinds of content of `add`, host addresses. Where the files differ
--   (the text of `host_ip`, the bound on identifications) the difference is a parameter.
-- Delivery: what `check_delivery` of 01_packet_reflector/topology.py, 02_repeater/topology.py,
--   03_l2_forwarding_switch/topology.py and 04_l2_broadcast_switch/topology.py share: the comparison of
--   captures and expected frames as counters (`Bags`, over lists of frames up to order) and of all hosts.
-- Reflector, Repeater, StaticSwitch, BroadcastSwitch: these four cases, `make_probes` in full, and in
--   `Delivered` their `check_delivery`.
-- Ip: `recalculate_checksum` of 06_int/packets.py, 09_ecmp_hash/packets.py and
--   12_register_flow_counter/packets.py, the address rewrite of cases 09 and 14, and the transport
--   (`Transport`) and the IPv4 packet (`seal`) that `make_frame` of cases 09 and 12 builds.
-- Int: 06_int/packets.py in full (`Options`, `Parse`, `Frames` has `make_frame`, `Forwarded` has
--   `check_forwarded`, `Words` what the options mean, `Probes` has `make_probes`).
-- Vxlan: 11_vxlan_encap/packets.py in full.
-- Ecmp: 09_ecmp_hash/packets.py in full (`Frames` has `make_frame`, `Probes` and `Run` have
--   `make_probes`).
-- Registers: 12_register_flow_counter/packets.py in full (`Ports` has `ports_for_slot`, `Frames` has
--   `make_frame`, `Batches` and `Excluded` have `make_batches`) and `check_counts` of
--   12_register_flow_counter/topology.py.
-- Switch: common/p4switch.py, the ports, the command line, `start`, `stop` and `_wait_tcp_open` of
--   `P4RuntimeSwitch` (the calls that they make, in order).
-- Runtime: common/runtime.py, the line queue of `Controller` (a run is a sequence of the critical
--   sections of the reader thread and of `readline`, the data type `Reaches`), `wait_ready` (`Ready`),
--   `stop_process`, `send` and `Controller.close` (`Processes`), and `NetworkRuntime.close` (the calls
--   that they make, in order).
-- Firewall: 10_firewall_acl/packets.py in full, and `test_vectors` and `check_delivery` of
--   10_firewall_acl/topology.py.
-- Lpm: 14_ipv6_lpm/packets.py in full (`Frames` has `make_frame`, `Probes` and `Run` have
--   `make_probes`).
-- Runs: concrete runs, and each theorem at a concrete input.
--
-- Choices of the model. A host `h3` is its number; the text of an address is its numbers
-- (`Dotted`); arguments that Python checks with `type(...) is int` have that type here. No loop of
-- the code needs fuel; only `decimal`, for f-strings, counts down from n + 1, which is enough digits.
-- The names of probes are strings, built as the code builds them. Keyword arguments of `add` for
-- `make_frame` are a change of the record of its arguments. A capture is the bytes of its frames.
--
-- Not modelled: raw sockets, the system calls on processes, Mininet and the command-line arguments of
-- the topologies, which are I/O; the checks of the captures of cases 05 to 09 and 11 to 14 in their
-- topology.py; the P4 programs, the Go controllers and the shell scripts, which are other languages.
pub mod Prelude
pub mod Wire
pub mod L2
pub mod Reflector
pub mod Repeater
pub mod StaticSwitch
pub mod BroadcastSwitch
pub mod Ip
pub mod Delivery
pub mod Int
pub mod Vxlan
pub mod Lpm
pub mod Firewall
pub mod Ecmp
pub mod Registers
pub mod Switch
pub mod Runtime
pub mod Runs
