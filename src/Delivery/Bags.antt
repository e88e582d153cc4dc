-- ===== src/Delivery/Bags.antt =====
-- Counters compare lists of frames up to order.
use mathlib.Core.Quot
use Prim.Native.Nat.{ℕ, ◌+◌, ◌≤◌}
use mathlib.Core.Bool.{true}
use mathlib.Core.List.{List, [], ◌++◌, ◌∷◌}
use mathlib.Core.Logic.{inl, inr, ◌↔◌}
use mathlib.Core.Path.{ap, refl, subst, ◌≡◌}
use mathlib.Core.Quot.{Quot}
use native.Mathlib.Omega.{arith}
use p4_cases.Delivery.{agree_on, counter, counters_equal}
use p4_cases.Prelude.Tests.{
  &&-true, &&-true_left, &&-true_right, ==→eq, Bool-cases, eq→==, ltb, ltb→lt,
}
use p4_cases.Wire.Bytes.{bytes_eq, bytes_eq→eq}

-- The two lists hold the same frames, each as often.
abbrev pub SameFrames : List (List ℕ) → List (List ℕ) → Type 0
SameFrames xs ys = (frame : List ℕ) → counter xs frame ≡ counter ys frame

-- Lists of frames up to order.
abbrev pub Bag : Type 0
Bag = Quot SameFrames

abbrev pub bag : List (List ℕ) → Bag
bag = Quot.mk

copies : List ℕ → Bag → ℕ
copies frame = Quot.lift (hlevel) (λ xs. counter xs frame) (λ xs ys h. h frame)

pub bag-SameFrames : (xs ys : List (List ℕ)) → bag xs ≡ bag ys → SameFrames xs ys
unfolding copies
bag-SameFrames xs ys e frame = ap (copies frame) e

pub SameFrames-bag : (xs ys : List (List ℕ)) → SameFrames xs ys → bag xs ≡ bag ys
SameFrames-bag xs ys h = Quot.sound h

pub counter-append :
    (xs ys : List (List ℕ)) (frame : List ℕ)
    → counter (xs ++ ys) frame ≡ counter xs frame + counter ys frame
unfolding counter
counter-append [] ys frame = omega arith
counter-append (x ∷ xs) ys frame = omega (arith, counter-append xs ys frame)

agree_on-occurs :
    (frames xs ys : List (List ℕ)) (frame : List ℕ)
    → agree_on frames xs ys ≡ true
    → 1 ≤ counter frames frame
    → counter xs frame ≡ counter ys frame
unfolding agree_on counter
agree_on-occurs [] xs ys frame h l = absurd (omega arith)
agree_on-occurs (f ∷ frames) xs ys frame h l = elim (Bool-cases (bytes_eq f frame)) [
  | inl e ↦
      subst (λ g. counter xs g ≡ counter ys g) (bytes_eq→eq f frame e)
        (==→eq _ _ (&&-true_left _ _ h))
  | inr e ↦
      let m = rw e at l in
      let l' : 1 ≤ counter frames frame = omega (arith, m) in
      agree_on-occurs frames xs ys frame (&&-true_right _ _ h) l'
]

agree_on-SameFrames :
    (frames xs ys : List (List ℕ)) → SameFrames xs ys → agree_on frames xs ys ≡ true
unfolding agree_on
agree_on-SameFrames [] xs ys h = refl
agree_on-SameFrames (f ∷ frames) xs ys h =
    &&-true _ _ (eq→== _ _ (h f)) (agree_on-SameFrames frames xs ys h)

counters_equal-SameFrames : (xs ys : List (List ℕ)) → counters_equal xs ys ≡ true → SameFrames xs ys
unfolding counters_equal
counters_equal-SameFrames xs ys h frame =
    let sum = counter-append xs ys frame in
    elim (Bool-cases (ltb 0 (counter (xs ++ ys) frame))) [
      | inl some_copy ↦ agree_on-occurs (xs ++ ys) xs ys frame h (ltb→lt _ _ some_copy)
      | inr none_left ↦ let z : counter (xs ++ ys) frame ≡ 0 = ground arith in omega (arith, sum, z)
    ]

-- Two lists of frames have equal counters exactly if they are the same list up to order.
pub counters_equal-bag : (xs ys : List (List ℕ)) → (counters_equal xs ys ≡ true) ↔ (bag xs ≡ bag ys)
counters_equal-bag xs ys = (
  λ h. SameFrames-bag xs ys (counters_equal-SameFrames xs ys h),
  λ e. unfold counters_equal in agree_on-SameFrames (xs ++ ys) xs ys (bag-SameFrames xs ys e),
)
