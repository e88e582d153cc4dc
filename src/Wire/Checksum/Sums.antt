-- ===== src/Wire/Checksum/Sums.antt =====
-- The end-around carry has a closed form, and the sum of the 16-bit words splits at even offsets.
-- What the loop of `checksum` leaves: 0 for 0, else the residue mod 65535 in 1..65535.
use Prim.Native.Nat.{ℕ, ◌%◌, ◌*◌, ◌+◌, ◌-◌, ◌/◌, ◌<◌, ◌≤◌}
use mathlib.Core.List.{List, [], ◌++◌, ◌∷◌}
use mathlib.Core.Path.{◌≡◌}
use mathlib.Core.WellFounded.{Acc}
use native.Mathlib.Omega.{arith}
use p4_cases.Prelude.Lists.{length}
use p4_cases.Prelude.Order.{lt_wf}
use p4_cases.Prelude.Tests.{if◌then◌else◌, ◌==◌}
use p4_cases.Wire.Bytes.{be16}
use p4_cases.Wire.Checksum.{carry, carry_loop, checksum, pad_even, sum, words}

abbrev pub residue : ℕ → ℕ
residue t = if t == 0 then 0 else (t - 1) % 65535 + 1

residue_step : (t : ℕ) → residue (t % 65536 + t / 65536) ≡ residue t
residue_step t = ground arith

carry_loop-residue : (t : ℕ) (w : Acc ◌<◌ t) → carry_loop t w ≡ residue t
unfolding carry_loop
carry_loop-residue t (Acc.intro _ smaller) = grind (
  arith,
  residue_step t,
  λ (p : t % 65536 + t / 65536 < t).
      carry_loop-residue (t % 65536 + t / 65536) (smaller (t % 65536 + t / 65536) p),
)

pub carry-residue : (t : ℕ) → carry t ≡ residue t
unfolding carry
carry-residue t = carry_loop-residue t (lt_wf.apply t)

pub carry-le : (t : ℕ) → carry t ≤ 65535
carry-le t = rw carry-residue (ground arith)

-- The sum that `checksum` folds.
pub word_sum : List ℕ → ℕ
word_sum data' = sum (words (pad_even data'))

-- `checksum` is 65535 less the residue mod 65535 of the sum of the 16-bit words, where the residue of
-- zero is 0 and of any other multiple of 65535 is 65535.
pub checksum-residue : (xs : List ℕ) → checksum xs ≡ 65535 - residue (word_sum xs)
unfolding word_sum checksum
checksum-residue xs = rw (carry-residue (sum (words (pad_even xs))))

pub checksum-le : (xs : List ℕ) → checksum xs ≤ 65535
checksum-le xs = omega (arith, checksum-residue xs)

pad_even-cons : (a b : ℕ) (xs : List ℕ) → pad_even (a ∷ b ∷ xs) ≡ a ∷ b ∷ pad_even xs
unfolding pad_even
pad_even-cons a b xs = ground arith

pub word_sum-cons : (a b : ℕ) (xs : List ℕ) → word_sum (a ∷ b ∷ xs) ≡ a * 256 + b + word_sum xs
unfolding word_sum words sum
word_sum-cons a b xs = rw pad_even-cons

pub word_sum-append :
    (xs ys : List ℕ) → length xs % 2 ≡ 0 → word_sum (xs ++ ys) ≡ word_sum xs + word_sum ys
word_sum-append [] ys h = unfold word_sum words sum pad_even in omega arith
word_sum-append (a ∷ []) ys h = absurd (omega arith)
word_sum-append (a ∷ b ∷ xs) ys h =
    omega (
      arith,
      word_sum-cons a b (xs ++ ys),
      word_sum-cons a b xs,
      word_sum-append xs ys (omega arith),
    )

-- A 16-bit field at an even offset counts as its value.
pub word_sum-field :
    (xs ys : List ℕ) (v : ℕ)
    → length xs % 2 ≡ 0
    → word_sum (xs ++ (be16 v ++ ys)) ≡ word_sum xs + v + word_sum ys
word_sum-field xs ys v h =
    omega (arith, word_sum-append xs (be16 v ++ ys) h, word_sum-cons (v / 256) (v % 256) ys)
