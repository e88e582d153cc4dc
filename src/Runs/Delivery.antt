-- ===== src/Runs/Delivery.antt =====
-- Two captures compared.
use Prim.Native.Nat.{ℕ}
use mathlib.Core.Bool.{false, true}
use mathlib.Core.List.{List, [], ◌∷◌}
use mathlib.Core.Path.{refl, ◌≡◌}
use p4_cases.Delivery.{counters_equal}

abbrev first : List ℕ
first = 1 ∷ 2 ∷ []

abbrev second : List ℕ
second = 3 ∷ []

counters_equal_swapped : counters_equal (first ∷ second ∷ []) (second ∷ first ∷ []) ≡ true
unfolding counters_equal
counters_equal_swapped = refl

counters_equal_twice : counters_equal (first ∷ first ∷ []) (first ∷ second ∷ []) ≡ false
unfolding counters_equal
counters_equal_twice = refl
