-- ===== src/Wire/Checksum/Validity.antt =====
-- A checksum written into a zeroed field makes the whole validate, and a changed word is noticed.
-- `data[:i] + struct.pack("!H", checksum(data)) + data[i + 2:]`; a checksum always fits its field
use Prim.Native.Nat.{ℕ, ◌%◌, ◌+◌, ◌<◌}
use mathlib.Core.Bool.{true}
use mathlib.Core.List.{List, [], append_assoc, ◌++◌, ◌∷◌}
use mathlib.Core.Logic.{inl, inr, ◌≢◌, ◌⊎◌}
use mathlib.Core.Path.{ap, sym, ◌∙◌, ◌≡◌}
use native.Mathlib.Omega.{arith}
use p4_cases.Prelude.Lists.{drop, drop-append, length, length-append, take, take-append}
use p4_cases.Prelude.Tests.{if◌then◌else◌, ltb, lt→ltb, ◌==◌}
use p4_cases.Wire.Bytes.{be16}
use p4_cases.Wire.Checksum.{checksum}
use p4_cases.Wire.Checksum.Sums.{checksum-le, checksum-residue, word_sum, word_sum-field}

unfoldable pub put_checksum : ℕ → List ℕ → List ℕ
put_checksum i data' = take i data' ++ (be16 (checksum data') ++ drop (i + 2) data')

-- `checksum(data) or 0xFFFF`: UDP writes 65535 for a checksum of zero
unfoldable pub nonzero : ℕ → ℕ
nonzero v = if v == 0 then 65535 else v

-- Both values fit a 16-bit field.
pub checksum_fits : (xs : List ℕ) → ltb (checksum xs) 65536 ≡ true
checksum_fits xs = lt→ltb _ _ (omega (arith, checksum-le xs))

pub nonzero_fits : (xs : List ℕ) → ltb (nonzero (checksum xs)) 65536 ≡ true
unfolding nonzero
nonzero_fits xs = ground (arith, checksum-le xs)

module _ (xs ys : List ℕ) (even : length xs % 2 ≡ 0) where
  -- The word sum of the data with its checksum field zeroed.
  zeroed-sum : word_sum (xs ++ (be16 0 ++ ys)) ≡ word_sum xs + word_sum ys
  zeroed-sum = omega (arith, word_sum-field xs ys 0 even)

  pub checksum-checksum : checksum (xs ++ (be16 (checksum (xs ++ (be16 0 ++ ys))) ++ ys)) ≡ 0
  checksum-checksum = ground (
    arith,
    zeroed-sum,
    checksum-residue (xs ++ (be16 0 ++ ys)),
    checksum-residue (xs ++ (be16 (checksum (xs ++ (be16 0 ++ ys))) ++ ys)),
    word_sum-field xs ys (checksum (xs ++ (be16 0 ++ ys))) even,
  )

  pub checksum-nonzero :
      checksum (xs ++ (be16 (nonzero (checksum (xs ++ (be16 0 ++ ys)))) ++ ys)) ≡ 0
  unfolding nonzero
  checksum-nonzero = ground (
    arith,
    zeroed-sum,
    checksum-residue (xs ++ (be16 0 ++ ys)),
    checksum-residue (xs ++ (be16 (nonzero (checksum (xs ++ (be16 0 ++ ys)))) ++ ys)),
    word_sum-field xs ys (nonzero (checksum (xs ++ (be16 0 ++ ys)))) even,
  )

  -- Two data that differ in one word, other than by 0 against 65535, do not both validate.
  pub checksum-word_changed :
      (v w : ℕ)
      → checksum (xs ++ (be16 v ++ ys)) ≡ 0
      → v < 65536
      → w < 65536
      → v ≢ w
      → ¬ (v ≡ w + 65535)
      → ¬ (w ≡ v + 65535)
      → checksum (xs ++ (be16 w ++ ys)) ≢ 0
  checksum-word_changed v w valid hv hw ne n0 n1 e = ground (
    arith,
    checksum-residue (xs ++ (be16 v ++ ys)),
    checksum-residue (xs ++ (be16 w ++ ys)),
    word_sum-field xs ys v even,
    word_sum-field xs ys w even,
  )

drop-append_two :
    (i a b : ℕ) (xs ys : List ℕ) → length xs ≡ i → drop (i + 2) (xs ++ a ∷ b ∷ ys) ≡ ys
drop-append_two i a b xs ys h =
    rw (← append_assoc xs (a ∷ b ∷ []) ys)
      (drop-append (i + 2) (xs ++ a ∷ b ∷ []) ys (omega (arith, length-append xs (a ∷ b ∷ []))))

-- `put_checksum` at an even offset whose two bytes are zero makes the whole data validate: its
-- checksum is then zero.
pub checksum-put_checksum :
    (i : ℕ) (xs ys : List ℕ)
    → length xs ≡ i
    → i % 2 ≡ 0
    → checksum (put_checksum i (xs ++ (be16 0 ++ ys))) ≡ 0
unfolding put_checksum
checksum-put_checksum i xs ys h even =
    rw (take-append i xs (be16 0 ++ ys) h, drop-append_two i 0 0 xs ys h)
      (checksum-checksum xs ys (rw h even))

-- Data whose checksum field, behind a front part, holds the checksum of the zeroed data, in the one
-- or the other form, validate.
pub checksum-filled :
    (front xs ys : List ℕ) (v : ℕ)
    → length (front ++ xs) % 2 ≡ 0
    → (v ≡ nonzero (checksum (front ++ (xs ++ (be16 0 ++ ys)))))
      ⊎ (v ≡ checksum (front ++ (xs ++ (be16 0 ++ ys))))
    → checksum (front ++ (xs ++ (be16 v ++ ys))) ≡ 0
checksum-filled front xs ys v even kind =
    let regroup : (w : ℕ)
        → checksum ((front ++ xs) ++ (be16 w ++ ys)) ≡ checksum (front ++ (xs ++ (be16 w ++ ys))) =
      λ w. ap checksum (append_assoc front xs (be16 w ++ ys)) in
    let zeroed = regroup 0 in
    elim kind [
      | inl e ↦ rw (e, ← zeroed) (sym (regroup _) ∙ checksum-nonzero (front ++ xs) ys even)
      | inr e ↦ rw (e, ← zeroed) (sym (regroup _) ∙ checksum-checksum (front ++ xs) ys even)
    ]
