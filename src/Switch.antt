-- ===== src/Switch.antt =====
-- common/p4switch.py: the ports, the command line and the life of the process of a `P4RuntimeSwitch`.
-- The calls that have an effect are a list, and what they meet is the record `World`.
pub mod Ports
pub mod Started
use Prim.Native.Nat.{suc, zero, ℕ, ◌+◌}
use Prim.Native.String.{String}
use mathlib.Core.Bool.{Bool, false, not, true, ◌||◌}
use mathlib.Core.List.{List, [], ◌++◌, ◌∷◌}
use mathlib.Core.Option.{Option, none, some}
use p4_cases.Prelude.Result.{Error, Result, err, ok, runtime_error}
use p4_cases.Prelude.Tests.{if◌then◌else◌, ◌==◌}
use p4_cases.Prelude.Text.{decimal, ◌<>◌}

abbrev pub default_grpc_base_port : ℕ
default_grpc_base_port = 9559

abbrev pub default_thrift_base_port : ℕ
default_thrift_base_port = 9090

-- the class attributes `next_grpc_port` and `next_thrift_port`
pub record Allocators : Type 0 where
  pub next_grpc_port : ℕ
  pub next_thrift_port : ℕ

abbrev pub reset_port_allocators : Allocators
reset_port_allocators = record {
  next_grpc_port = default_grpc_base_port;
  next_thrift_port = default_thrift_base_port;
}

unfoldable pub alloc_grpc_port : Allocators → ℕ × Allocators
alloc_grpc_port a = (
  a.next_grpc_port,
  record { next_grpc_port = a.next_grpc_port + 1; next_thrift_port = a.next_thrift_port },
)

unfoldable pub alloc_thrift_port : Allocators → ℕ × Allocators
alloc_thrift_port a = (
  a.next_thrift_port,
  record { next_grpc_port = a.next_grpc_port; next_thrift_port = a.next_thrift_port + 1 },
)

-- `port or self._alloc_port()`: a port of zero counts as none
abbrev pub port_or : Option ℕ → (Allocators → ℕ × Allocators) → Allocators → ℕ × Allocators
port_or none alloc a = alloc a
port_or (some zero) alloc a = alloc a
port_or (some (suc port)) alloc a = (suc port, a)

-- the arguments of the constructor that matter here; the paths with their defaults filled in
pub record Arguments : Type 0 where
  pub name : String
  pub device_id : ℕ
  pub grpc_port : Option ℕ
  pub thrift_port : Option ℕ
  pub cpu_port : Option ℕ
  pub sw_path : String
  pub log_file : String
  pub pcap_dir : Option String

-- `running` is `self.proc is not None`
pub record Switch : Type 0 where
  pub name : String
  pub device_id : ℕ
  pub grpc_port : ℕ
  pub thrift_port : ℕ
  pub cpu_port : Option ℕ
  pub sw_path : String
  pub log_file : String
  pub pcap_dir : Option String
  pub running : Bool

-- `__init__`
unfoldable pub new_switch : Arguments → Allocators → Switch × Allocators
unfolding alloc_grpc_port alloc_thrift_port
new_switch args a =
    let (grpc, a') = port_or args.grpc_port alloc_grpc_port a in
    let (thrift, a'') = port_or args.thrift_port alloc_thrift_port a' in
    (
      record {
        name = args.name;
        device_id = args.device_id;
        grpc_port = grpc;
        thrift_port = thrift;
        cpu_port = args.cpu_port;
        sw_path = args.sw_path;
        log_file = args.log_file;
        pcap_dir = args.pcap_dir;
        running = false;
      },
      a'',
    )

-- `iface_args`, over the interfaces by their ports; port 0 is the loopback
unfoldable pub iface_args : List (ℕ × String) → List String
unfolding decimal
iface_args [] = []
iface_args ((port, name) ∷ intfs) =
    let rest = iface_args intfs in
    if port == 0 then rest else "-i" ∷ (decimal port <> ("@" <> name)) ∷ rest

-- `if self.pcap_dir`: an empty text counts as none, which a caller does not pass
abbrev pub pcap_args : Option String → List String
pcap_args none = []
pcap_args (some dir) = "--pcap" ∷ dir ∷ []

abbrev pub cpu_args : Option ℕ → List String
cpu_args none = []
cpu_args (some port) = "--cpu-port" ∷ decimal port ∷ []

-- `cmd`
unfoldable pub command : Switch → List (ℕ × String) → List String
unfolding iface_args decimal
command s intfs =
    (s.sw_path
      ∷ "--no-p4"
      ∷ "--log-file"
      ∷ s.log_file
      ∷ "--log-flush"
      ∷ "--device-id"
      ∷ decimal s.device_id
      ∷ "--thrift-port"
      ∷ decimal s.thrift_port
      ∷ iface_args intfs)
    ++ (pcap_args s.pcap_dir
        ++ ("--"
            ∷ "--grpc-server-addr"
            ∷ ("0.0.0.0:" <> decimal s.grpc_port)
            ∷ cpu_args s.cpu_port))

-- One round of the loop in `_wait_tcp_open`: whether the process has exited, whether the connection
-- succeeds, and whether the process has exited then.
pub record Round : Type 0 where
  pub exited : Bool
  pub connects : Bool
  pub exited_then : Bool

-- `_wait_tcp_open`, by its rounds before the deadline
unfoldable pub wait_tcp_open : List Round → Bool
wait_tcp_open [] = false
wait_tcp_open (r ∷ rounds) =
    let later = wait_tcp_open rounds in
    if r.exited then false else if r.connects then not r.exited_then else later

-- What `start` meets: the file, the ports in use, the exceptions that `os.makedirs`, the launch and
-- the wait raise, if any, and the rounds of the wait. An interrupt during the wait is `system_exit`.
pub record World : Type 0 where
  pub path_exists : Bool
  pub in_use : ℕ → Bool
  pub makedirs_raises : Option Error
  pub launch_raises : Option Error
  pub wait_raises : Option Error
  pub rounds : List Round

-- An entry for each call with an effect.
pub data Call : Type 0 where
  makedirs : String → Call
  launch : List String → Call
  stop_process stop_interfaces : Call

abbrev pub with_running : Bool → Switch → Switch
with_running running s = record s { running = running }

-- `stop`
unfoldable pub stop : Switch → List Call × Switch
stop s = (
  (if s.running then stop_process ∷ stop_interfaces ∷ [] else stop_interfaces ∷ []),
  with_running false s,
)

-- The outcome of `start`: what it returns or raises, the calls it made, and the switch.
abbrev pub Outcome : Type 0
Outcome = Result (Unit {0}) × (List Call × Switch)

-- the handler of `start`: it stops and raises the exception again
abbrev pub failed : Error → List Call → Switch → Outcome
failed raised calls s = let (more, s') = stop s in (err raised, (calls ++ more, s'))

-- after the launch: the exception of the wait, or what the wait returns
abbrev pub waited : Option Error → Bool → List Call → Switch → Outcome
waited (some raised) open_then calls s = failed raised calls s
waited none true calls s = (ok tt, (calls, s))
waited none false calls s = failed runtime_error calls s

-- the `try` block: a process that was not launched is not known to the switch
unfoldable pub launched : World → List String → List Call → Switch → Outcome
unfolding wait_tcp_open stop
launched w args calls s = elim w.launch_raises [
  | some raised ↦ failed raised calls s
  | none ↦
      waited w.wait_raises (wait_tcp_open w.rounds) (calls ++ (launch args ∷ []))
        (with_running true s)
]

-- `os.makedirs`, if there is a directory, stands before the `try`
abbrev pub with_directory : Option String → Option Error → Switch → (List Call → Outcome) → Outcome
with_directory none raises s next = next []
with_directory (some dir) none s next = next (makedirs dir ∷ [])
with_directory (some dir) (some raised) s next = (err raised, ([], s))

-- `start`
unfoldable pub start : World → List (ℕ × String) → Switch → Outcome
unfolding command launched
start w intfs s =
    if not w.path_exists || (w.in_use s.grpc_port || w.in_use s.thrift_port)
    then (err runtime_error, ([], s))
    else with_directory s.pcap_dir w.makedirs_raises s
        (λ calls. launched w (command s intfs) calls s)
