-- ===== src/L2/Collect.antt =====
-- The loops of `make_probes`, which append to `probes` and may raise.
use Prim.Native.Nat.{suc, zero, ℕ, ◌*◌, ◌+◌, ◌-◌, ◌<◌, ◌≤◌}
use mathlib.Core.List.{List, [], ◌++◌, ◌∷◌}
use mathlib.Core.Logic.{inl, inr}
use mathlib.Core.Path.{ap, refl, ◌≡◌}
use native.Mathlib.Omega.{arith}
use p4_cases.Prelude.Lists.{All, All-append, length, length-append}
use p4_cases.Prelude.Result.{Result, for_each, ok, ◌>>=◌}
use p4_cases.Prelude.Tests.{Bool-cases, if◌then◌else◌, ◌==◌}

abbrev pub weigh : {A : Type 0} → (A → ℕ) → List A → ℕ
weigh w [] = 0
weigh w (x ∷ xs) = w x + weigh w xs

module _ {P : Type 0} (Good : P → Type 0) where
  -- `r` returns a list with `n` good probes.
  abbrev pub Collects : ℕ → Result (List P) → Type 0
  Collects n r = (s : List P) × (r ≡ ok s) × (length s ≡ n) × All Good s

  pub Collects-ok : (s : List P) → All Good s → Collects (length s) (ok s)
  Collects-ok s h = (s, refl, refl, h)

  pub Collects-append :
      (s : List P) (p : P) (n : ℕ)
      → suc (length s) ≡ n
      → All Good s
      → Good p
      → Collects n (ok (s ++ p ∷ []))
  Collects-append s p n e hs hp = (
    s ++ p ∷ [],
    refl,
    omega (arith, length-append s (p ∷ [])),
    All-append Good s (p ∷ []) hs (hp, tt),
  )

  pub Collects-bind :
      (m n : ℕ) (r : Result (List P)) (f : List P → Result (List P))
      → Collects m r
      → ((s : List P) → length s ≡ m → All Good s → Collects n (f s))
      → Collects n (r >>= f)
  Collects-bind m n r f (s, e, l, g) next = rw e (next s l g)

  -- Each round of a loop adds `k` probes, as long as there are at most `bound`.
  pub Collects-for_each :
      {A : Type 0} (Valid : A → Type 0) (k bound : ℕ) (f : A → List P → Result (List P))
      → ((x : A) (s : List P)
          → Valid x
          → All Good s
          → length s + k ≤ bound
          → Collects (length s + k) (f x s))
      → (xs : List A) (s : List P) (n : ℕ) → All Valid xs
      → All Good s
      → length s + k * length xs ≡ n
      → n ≤ bound
      → Collects n (for_each f xs s)
  unfolding for_each
  Collects-for_each Valid k bound f step [] s n v g e h = (s, refl, omega arith, g)
  Collects-for_each Valid k bound f step (x ∷ xs) s n (vx, vxs) g e h =
      Collects-bind (length s + k) n (f x s) (λ s'. for_each f xs s') (step x s vx g (omega arith))
        λ s' l g'. Collects-for_each Valid k bound f step xs s' n vxs g' (omega arith) h

  -- The same where the number of probes depends on the round.
  pub Collects-weighted :
      {A : Type 0} (Valid : A → Type 0) (w : A → ℕ) (bound : ℕ) (f : A → List P → Result (List P))
      → ((x : A) (s : List P)
          → Valid x
          → All Good s
          → length s + w x ≤ bound
          → Collects (length s + w x) (f x s))
      → (xs : List A) (s : List P) (n : ℕ) → All Valid xs
      → All Good s
      → length s + weigh w xs ≡ n
      → n ≤ bound
      → Collects n (for_each f xs s)
  unfolding for_each
  Collects-weighted Valid w bound f step [] s n v g e h = (s, refl, omega arith, g)
  Collects-weighted Valid w bound f step (x ∷ xs) s n (vx, vxs) g e h =
      Collects-bind (length s + w x) n (f x s) (λ s'. for_each f xs s')
        (step x s vx g (omega arith))
        λ s' l g'. Collects-weighted Valid w bound f step xs s' n vxs g' (omega arith) h

-- `range(first, first + n)`
unfoldable pub range : ℕ → ℕ → List ℕ
range first zero = []
range first (suc n) = first ∷ range (first + 1) n

pub length-range : (first n : ℕ) → length (range first n) ≡ n
unfolding range
length-range first zero = refl
length-range first (suc n) = ap suc (length-range (first + 1) n)

pub range-bounds :
    (first n last : ℕ) → first + n ≤ last → All (λ i. (first ≤ i) × (i < last)) (range first n)
unfolding range
range-bounds first zero last h = tt
range-bounds first (suc n) last h = (
  (omega arith, omega arith),
  weaken (range (first + 1) n) (range-bounds (first + 1) n last (omega arith)),
)
  where
    weaken :
        (xs : List ℕ)
        → All (λ i. (first + 1 ≤ i) × (i < last)) xs
        → All (λ i. (first ≤ i) × (i < last)) xs
    weaken [] a = tt
    weaken (x ∷ xs) a = ((omega arith, a.0.1), weaken xs a.1)

-- All numbers of a range but one, each with the same weight.
abbrev pub skipping : ℕ → ℕ → ℕ → ℕ
skipping sender k i = if i == sender then 0 else k

weigh_outside :
    (sender k first n : ℕ) → sender < first → weigh (skipping sender k) (range first n) ≡ k * n
unfolding range
weigh_outside sender k first zero h = omega arith
weigh_outside sender k first (suc n) h =
    ground (arith, weigh_outside sender k (first + 1) n (omega arith))

pub weigh-skipping :
    (sender k first n : ℕ)
    → first ≤ sender
    → sender < first + n
    → weigh (skipping sender k) (range first n) + k ≡ k * n
unfolding range
weigh-skipping sender k first zero lo hi = absurd (omega arith)
weigh-skipping sender k first (suc n) lo hi = elim (Bool-cases (first == sender)) [
  | inl e ↦ rw e (omega (arith, weigh_outside sender k (first + 1) n (ground arith)))
  | inr e ↦ rw e (omega (arith, weigh-skipping sender k (first + 1) n (ground arith) (omega arith)))
]

-- The weight of the others, without the subtraction of the one.
pub weight_of_others : (k n w : ℕ) → 1 ≤ n → w + k ≡ k * n → w ≡ k * (n - 1)
weight_of_others k zero w lo e = absurd (omega arith)
weight_of_others k (suc n) w lo e = let p : suc n - 1 ≡ n = omega arith in rw p (omega arith)

pub mul_le : (a b c d : ℕ) → a ≤ c → b ≤ d → a * b ≤ c * d
mul_le a b c d p q = grind arith
