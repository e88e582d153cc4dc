-- ===== src/Registers.antt =====
-- 12_register_flow_counter: the slot of a flow (packets.py) and the check of the register against the
-- packets that were sent (topology.py).
pub mod Counting
pub mod Checked
pub mod Ports
pub mod Frames
pub mod Built
pub mod Batches
pub mod Excluded
use Prim.Native.Nat.{ℕ, ◌%◌, ◌+◌, ◌-◌}
use Prim.Native.String.{String}
use mathlib.Core.Bool.{Bool, not, true, ◌&&◌, ◌||◌}
use mathlib.Core.List.{List, [], ◌++◌, ◌∷◌}
use p4_cases.Ip.Recalculate.{ihl_bytes}
use p4_cases.L2.Collect.{range}
use p4_cases.Prelude.Lists.{length}
use p4_cases.Prelude.Result.{Result, ok, raise_if, runtime_error, ◌>>=◌, ◌>>◌}
use p4_cases.Prelude.Tests.{if◌then◌else◌, ltb, ◌==◌}
use p4_cases.Wire.Bytes.{byte_at, slice}
use p4_cases.Wire.Crc.{crc16}
use p4_cases.Wire.Pack.{Dotted, dotted_packed, pack, u16}

abbrev pub register_size : ℕ
register_size = 1024

abbrev pub counter_modulus : ℕ
counter_modulus = 4294967296

-- a probe of `make_batches`
pub record Probe : Type 0 where
  pub name : String
  pub frame : List ℕ
  pub sender : ℕ
  pub receiver : ℕ
  pub allowed : Bool
  pub counted : Bool

unfoldable pub flow_slot : List ℕ → Result ℕ
unfolding crc16
flow_slot frame = do
  b ← byte_at frame 14
  let start = 14 + ihl_bytes b
  ok (crc16 (slice 26 34 frame ++ slice start (start + 4) frame) % register_size)

-- the addresses by their four numbers
unfoldable pub hash_slot : Dotted → Dotted → ℕ → ℕ → Result ℕ
unfolding crc16 dotted_packed pack
hash_slot source destination sport dport = do
  from ← dotted_packed source
  to ← dotted_packed destination
  ports ← pack (u16 sport ∷ u16 dport ∷ [])
  ok (crc16 (from ++ (to ++ ports)) % register_size)

-- `0 <= value < COUNTER_MODULUS` for every value
unfoldable pub all_counters : List ℕ → Bool
all_counters [] = true
all_counters (value ∷ values) = ltb value counter_modulus && all_counters values

unfoldable pub validate_snapshot : List ℕ → Result (Unit {0})
unfolding all_counters
validate_snapshot values =
    raise_if (not (length values == register_size) || not (all_counters values)) runtime_error

-- `flow_slot(item["frame"]) for item in probes if item["counted"]`
unfoldable pub counted_slots : List Probe → Result (List ℕ)
unfolding flow_slot
counted_slots [] = ok []
counted_slots (item ∷ probes) =
    let rest = counted_slots probes in
    if item.counted then (do slot ← flow_slot item.frame; slots ← rest; ok (slot ∷ slots)) else rest

-- `Counter(slots)[slot]`
unfoldable pub counter : List ℕ → ℕ → ℕ
counter [] slot = 0
counter (s ∷ slots) slot = (if s == slot then 1 else 0) + counter slots slot

-- one round of the loop of `check_counts`; `before[slot]` is below the modulus, so that adding it
-- once keeps the difference positive
unfoldable pub check_slot : List ℕ → List ℕ → List ℕ → ℕ → Result (Unit {0})
unfolding counter
check_slot before after slots slot = do
  new ← byte_at after slot
  old ← byte_at before slot
  raise_if (not ((new + counter_modulus - old) % counter_modulus == counter slots slot))
      runtime_error

-- `for slot in range(...)`
unfoldable pub check_slots : List ℕ → List ℕ → List ℕ → List ℕ → Result (Unit {0})
unfolding check_slot
check_slots before after slots [] = ok tt
check_slots before after slots (slot ∷ rest) =
    check_slot before after slots slot >> check_slots before after slots rest

unfoldable pub check_counts : List ℕ → List ℕ → List Probe → Result (Unit {0})
unfolding validate_snapshot counted_slots check_slots
check_counts before after probes = do
  validate_snapshot before
  validate_snapshot after
  slots ← counted_slots probes
  check_slots before after slots (range 0 register_size)
