-- ===== src/Wire/Checksum.antt =====
-- `checksum`, the Internet checksum that every packets.py defines in the same words.
-- `struct.unpack(f"!{len(data) // 2}H", data)`
pub mod Sums
pub mod Validity
use Prim.Native.Nat.{ℕ, ◌%◌, ◌*◌, ◌+◌, ◌-◌, ◌/◌, ◌<◌}
use mathlib.Core.List.{List, [], ◌++◌, ◌∷◌}
use mathlib.Core.Logic.{dite}
use mathlib.Core.WellFounded.{Acc}
use native.Mathlib.Decide.{dec_lt}
use native.Mathlib.Omega.{arith}
use p4_cases.Prelude.Lists.{length}
use p4_cases.Prelude.Order.{lt_wf}
use p4_cases.Prelude.Tests.{if◌then◌else◌, ◌==◌}

unfoldable pub words : List ℕ → List ℕ
words [] = []
words (a ∷ []) = []
words (a ∷ b ∷ rest) = (a * 256 + b) ∷ words rest

unfoldable pub sum : List ℕ → ℕ
sum [] = 0
sum (x ∷ xs) = x + sum xs

-- `if len(data) % 2: data += b"\0"`
unfoldable pub pad_even : List ℕ → List ℕ
pad_even data' = if length data' % 2 == 0 then data' else data' ++ 0 ∷ []

-- `while total >> 16: total = (total & 0xFFFF) + (total >> 16)`; the total falls in each round
unfoldable pub carry_loop : (total : ℕ) → Acc ◌<◌ total → ℕ
carry_loop total (Acc.intro _ smaller) =
    dite (dec_lt 0 (total / 65536))
      (λ more. carry_loop (total % 65536 + total / 65536) (smaller _ (omega arith))) (λ _. total)

unfoldable pub carry : ℕ → ℕ
unfolding carry_loop lt_wf dec_lt
carry total = carry_loop total (lt_wf.apply total)

-- `(~total) & 0xFFFF`, for a total below 2 ^ 16
unfoldable pub checksum : List ℕ → ℕ
unfolding words sum pad_even carry
checksum data' = 65535 - carry (sum (words (pad_even data')))
