-- ===== src/Wire/Crc.antt =====
-- `crc16`, the same text in 09_ecmp_hash/packets.py and 12_register_flow_counter/packets.py.
use Prim.Native.Nat.{bit_xor, suc, zero, ℕ, ◌%◌, ◌/◌}
use mathlib.Core.List.{List, [], ◌∷◌}
use p4_cases.Prelude.Tests.{if◌then◌else◌, ◌==◌}

-- one round of `result = (result >> 1) ^ (0xA001 if result & 1 else 0)`
abbrev pub crc_shift : ℕ → ℕ
crc_shift result = bit_xor (result / 2) (if result % 2 == 1 then 0xa001 else 0)

-- `for _ in range(n)`
unfoldable pub crc_rounds : ℕ → ℕ → ℕ
crc_rounds zero result = result
crc_rounds (suc n) result = crc_rounds n (crc_shift result)

unfoldable pub crc_loop : List ℕ → ℕ → ℕ
unfolding crc_rounds
crc_loop [] result = result
crc_loop (byte ∷ rest) result = crc_loop rest (crc_rounds 8 (bit_xor result byte))

unfoldable pub crc16 : List ℕ → ℕ
unfolding crc_loop
crc16 data' = crc_loop data' 0
