-- ===== src/Prelude/Slices.antt =====
-- Slices of slices, and their elements. Positions are related by hypotheses, not by sums in the
-- statement.
use Prim.Native.Nat.{suc, zero, ℕ, ◌+◌, ◌<◌, ◌≤◌}
use mathlib.Core.List.{List, [], ◌++◌, ◌∷◌}
use mathlib.Core.Option.{some-injective}
use mathlib.Core.Path.{ap, ap₂, refl, sym, ◌∙◌, ◌≡◌}
use native.Mathlib.Omega.{arith}
use p4_cases.Prelude.Lists.{drop, get_elem?, length, take}

module _ {ℓ} {A : Type ℓ} where
  drop_nil : (n : ℕ) → drop {A = A} n [] ≡ []
  drop_nil zero = refl
  drop_nil (suc n) = refl

  take_nil : (n : ℕ) → take {A = A} n [] ≡ []
  take_nil zero = refl
  take_nil (suc n) = refl

  pub drop-drop : (m n k : ℕ) (xs : List A) → k ≡ m + n → drop n (drop m xs) ≡ drop k xs
  drop-drop zero n k xs e = let p : n ≡ k = omega arith in ap (λ j. drop j xs) p
  drop-drop (suc m) n k [] e = drop_nil n ∙ sym (drop_nil k)
  drop-drop (suc m) n zero (x ∷ xs) e = absurd (omega arith)
  drop-drop (suc m) n (suc k) (x ∷ xs) e = drop-drop m n k xs (omega arith)

  pub take-take : (m n : ℕ) (xs : List A) → m ≤ n → take m (take n xs) ≡ take m xs
  take-take zero n xs h = refl
  take-take (suc m) zero xs h = absurd (omega arith)
  take-take (suc m) (suc n) [] h = refl
  take-take (suc m) (suc n) (x ∷ xs) h = ap (λ ys. x ∷ ys) (take-take m n xs (omega arith))

  pub drop-take : (i n k : ℕ) (xs : List A) → n ≡ i + k → drop i (take n xs) ≡ take k (drop i xs)
  drop-take zero n k xs e = let p : n ≡ k = omega arith in ap (λ j. take j xs) p
  drop-take (suc i) zero k xs e = absurd (omega arith)
  drop-take (suc i) (suc n) k [] e = sym (take_nil k)
  drop-take (suc i) (suc n) k (x ∷ xs) e = drop-take i n k xs (omega arith)

  pub get_elem?-drop :
      (i k n : ℕ) (xs : List A) → n ≡ i + k → get_elem? (drop i xs) k ≡ get_elem? xs n
  get_elem?-drop zero k n xs e = let p : k ≡ n = omega arith in ap (λ j. get_elem? xs j) p
  get_elem?-drop (suc i) k n [] e = refl
  get_elem?-drop (suc i) k zero (x ∷ xs) e = absurd (omega arith)
  get_elem?-drop (suc i) k (suc n) (x ∷ xs) e = get_elem?-drop i k n xs (omega arith)

  pub get_elem?-take : (n k : ℕ) (xs : List A) → k < n → get_elem? (take n xs) k ≡ get_elem? xs k
  get_elem?-take zero k xs h = absurd (omega arith)
  get_elem?-take (suc n) k [] h = refl
  get_elem?-take (suc n) zero (x ∷ xs) h = refl
  get_elem?-take (suc n) (suc k) (x ∷ xs) h = get_elem?-take n k xs (omega arith)

  -- Lists of one length with the same elements.
  pub get_elem?_ext :
      (xs ys : List A)
      → length xs ≡ length ys
      → ((i : ℕ) → i < length xs → get_elem? xs i ≡ get_elem? ys i)
      → xs ≡ ys
  get_elem?_ext [] [] n h = refl
  get_elem?_ext [] (y ∷ ys) n h = absurd (omega arith)
  get_elem?_ext (x ∷ xs) [] n h = absurd (omega arith)
  get_elem?_ext (x ∷ xs) (y ∷ ys) n h =
      ap₂ (λ a rest. a ∷ rest) (some-injective x y (h 0 (omega arith)))
        (get_elem?_ext xs ys (omega arith) (λ i l. h (suc i) (omega arith)))

  pub get_elem?-append :
      (xs ys : List A) (i k : ℕ) → i ≡ length xs + k → get_elem? (xs ++ ys) i ≡ get_elem? ys k
  get_elem?-append [] ys i k e = let p : i ≡ k = omega arith in ap (λ j. get_elem? ys j) p
  get_elem?-append (x ∷ xs) ys zero k e = absurd (omega arith)
  get_elem?-append (x ∷ xs) ys (suc i) k e = get_elem?-append xs ys i k (omega arith)

  -- A slice within the first list of a concatenation.
  pub slice-append_less :
      (i n : ℕ) (xs ys : List A)
      → i + n ≤ length xs
      → take n (drop i (xs ++ ys)) ≡ take n (drop i xs)
  slice-append_less zero zero xs ys h = refl
  slice-append_less zero (suc n) [] ys h = absurd (omega arith)
  slice-append_less zero (suc n) (x ∷ xs) ys h =
      ap (λ r. x ∷ r) (slice-append_less zero n xs ys (omega arith))
  slice-append_less (suc i) n [] ys h = absurd (omega arith)
  slice-append_less (suc i) n (x ∷ xs) ys h = slice-append_less i n xs ys (omega arith)

  -- A slice within a prefix.
  pub slice-take :
      (i n k m : ℕ) (xs : List A)
      → m ≡ i + k
      → n ≤ k
      → take n (drop i (take m xs)) ≡ take n (drop i xs)
  slice-take i n k m xs e h = ap (take n) (drop-take i m k xs e) ∙ take-take n k (drop i xs) h
