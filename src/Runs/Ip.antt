-- ===== src/Runs/Ip.antt =====
-- A frame of 34 bytes without IPv4 options.
use Prim.Native.Nat.{max, ℕ}
use mathlib.Core.List.{List, ◌++◌, ◌∷◌}
use mathlib.Core.Path.{refl, ◌≡◌}
use native.Mathlib.Omega.{arith}
use p4_cases.Ip.Recalculate.{ihl_bytes, recalculate_checksum}
use p4_cases.Ip.Renewed.{IsRenewed, recalculate_checksum-IsRenewed}
use p4_cases.Prelude.Lists.{replicate}
use p4_cases.Prelude.Result.{ok}

abbrev frame : List ℕ
frame = replicate 12 0 ++ (8 ∷ 0 ∷ 0x45 ∷ replicate 19 7)

recalculate_checksum-IsRenewed_example :
    (r : List ℕ) × (recalculate_checksum frame ≡ ok r) × IsRenewed frame (max 20 (ihl_bytes 0x45)) r
recalculate_checksum-IsRenewed_example =
    recalculate_checksum-IsRenewed frame 0x45 (omega arith) refl
