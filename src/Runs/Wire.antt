-- ===== src/Runs/Wire.antt =====
-- Checksums of small data.
use Prim.Native.Nat.{ℕ, ◌-◌}
use mathlib.Core.List.{List, [], ◌++◌, ◌∷◌}
use mathlib.Core.Logic.{◌≢◌}
use mathlib.Core.Path.{refl, ◌≡◌}
use native.Mathlib.Omega.{arith}
use p4_cases.Prelude.Order.{lt_wf}
use p4_cases.Wire.Bytes.{be16}
use p4_cases.Wire.Checksum.{carry, carry_loop, checksum}
use p4_cases.Wire.Checksum.Sums.{checksum-residue, residue, word_sum}
use p4_cases.Wire.Checksum.Validity.{checksum-put_checksum, checksum-word_changed, put_checksum}

-- The header of RFC 1071's worked example.
rfc_words : checksum (0x00 ∷ 0x01 ∷ 0xf2 ∷ 0x03 ∷ 0xf4 ∷ 0xf5 ∷ 0xf6 ∷ 0xf7 ∷ []) ≡ 0x220d
unfolding checksum carry carry_loop lt_wf
rfc_words = refl

checksum_odd : checksum (1 ∷ []) ≡ 0xfeff
unfolding checksum carry carry_loop lt_wf
checksum_odd = refl

abbrev front : List ℕ
front = 0x45 ∷ 0x2a ∷ []

abbrev back : List ℕ
back = 10 ∷ 0 ∷ 0 ∷ 1 ∷ []

checksum-put_checksum_example : checksum (put_checksum 2 (front ++ (be16 0 ++ back))) ≡ 0
checksum-put_checksum_example = checksum-put_checksum 2 front back refl refl

checksum-residue_example : checksum front ≡ 65535 - residue (word_sum front)
checksum-residue_example = checksum-residue front

valid_one : checksum ([] ++ (be16 1 ++ be16 0xfffe)) ≡ 0
unfolding checksum carry carry_loop lt_wf
valid_one = refl

checksum-word_changed_example : checksum ([] ++ (be16 2 ++ be16 0xfffe)) ≢ 0
checksum-word_changed_example =
    checksum-word_changed [] (be16 0xfffe) refl 1 2 valid_one (omega arith) (omega arith)
      (λ e. absurd (omega arith)) (λ e. absurd (omega arith)) (λ e. absurd (omega arith))
