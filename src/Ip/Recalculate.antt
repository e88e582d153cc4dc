-- ===== src/Ip/Recalculate.antt =====
-- `recalculate_checksum`, the same text in the cases 06, 09 and 12.
-- `data[i]` where a length test before it has shown that it is there
use Prim.Native.Nat.{max, suc, zero, ℕ, ◌%◌, ◌*◌, ◌+◌}
use mathlib.Core.List.{List, [], ◌∷◌}
use p4_cases.Prelude.Result.{Result, ok, ◌>>=◌}
use p4_cases.Wire.Bytes.{be16, byte_at, slice, splice}
use p4_cases.Wire.Checksum.{checksum}

abbrev pub octet : List ℕ → ℕ → ℕ
octet [] i = 0
octet (x ∷ xs) zero = x
octet (x ∷ xs) (suc i) = octet xs i

-- `(byte & 15) * 4`
abbrev pub ihl_bytes : ℕ → ℕ
ihl_bytes b = b % 16 * 4

unfoldable pub recalculate_checksum : List ℕ → Result (List ℕ)
recalculate_checksum frame = do
  b ← byte_at frame 14
  let end = 14 + max 20 (ihl_bytes b)
  let zeroed = splice 24 26 (0 ∷ 0 ∷ []) frame
  ok (splice 24 26 (be16 (checksum (slice 14 end zeroed))) zeroed)
