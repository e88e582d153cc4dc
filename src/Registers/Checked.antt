-- ===== src/Registers/Checked.antt =====
-- `check_counts` accepts what 32-bit counters hold after the counted packets, and only that.
use Prim.Native.Nat.{suc, zero, ℕ, ◌%◌, ◌+◌, ◌-◌, ◌<◌, ◌≤◌}
use mathlib.Core.Bool.{not, true}
use mathlib.Core.List.{List, [], ◌∷◌}
use mathlib.Core.Logic.{inl, inr}
use mathlib.Core.Option.{some}
use mathlib.Core.Path.{ap, refl, subst, sym, ◌∙◌, ◌≡◌}
use native.Mathlib.Omega.{arith}
use p4_cases.L2.Collect.{range}
use p4_cases.Prelude.Lists.{All, All-get_elem?, get_elem?, get_elem?_total, length}
use p4_cases.Prelude.Result.{bind_passed, ok, raise_if, raise_if_passed, runtime_error}
use p4_cases.Prelude.Slices.{get_elem?_ext}
use p4_cases.Prelude.Tests.{==→eq, Bool-cases, ◌==◌}
use p4_cases.Registers.{
  Probe, check_counts, check_slot, check_slots, counted_slots, counter, validate_snapshot,
}
use p4_cases.Registers.Counting.{
  IsCounter, check_slot_run, counted, counted-IsCounter, get_elem?-counted, length-counted,
  validate_run, validate_sound,
}

All-range :
    (P : ℕ → Type 0) (first n i : ℕ) → All P (range first n) → first ≤ i → i < first + n → P i
unfolding range
All-range P first zero i h lo hi = absurd (omega arith)
All-range P first (suc n) i h lo hi = elim (Bool-cases (first == i)) [
  | inl e ↦ subst P (==→eq _ _ e) h.0
  | inr e ↦ All-range P (first + 1) n i h.1 (ground arith) (omega arith)
]

range-below : (first n last : ℕ) → first + n ≤ last → All (λ i. i < last) (range first n)
unfolding range
range-below first zero last h = tt
range-below first (suc n) last h = (omega arith, range-below (first + 1) n last (omega arith))

check_slots_run :
    (before slots is : List ℕ)
    → All IsCounter before
    → length slots < 4294967296
    → All (λ i. i < length before) is
    → check_slots before (counted slots before) slots is ≡ ok tt
unfolding check_slots
check_slots_run before slots [] h few l = refl
check_slots_run before slots (i ∷ is) h few l =
    let (v, e) = get_elem?_total before i l.0 in
    rw (check_slot_run before slots i v (All-get_elem? IsCounter before i v h e) few e)
      (check_slots_run before slots is h few l.1)

-- A register that counts every counted packet in its slot, modulo 2 ^ 32, passes `check_counts`, for
-- a snapshot of 1024 32-bit values, probes whose slots can be computed and fewer than 2 ^ 32 of them.
pub check_counts-counted :
    (before slots : List ℕ) (probes : List Probe)
    → length before ≡ 1024
    → All IsCounter before
    → counted_slots probes ≡ ok slots
    → length slots < 4294967296
    → check_counts before (counted slots before) probes ≡ ok tt
unfolding check_counts
check_counts-counted before slots probes n h e few =
    let after : List ℕ = counted slots before in
    let n' : length after ≡ 1024 = length-counted slots before ∙ n in
    rw (validate_run before n h, validate_run after n' (counted-IsCounter slots before h), e)
      (check_slots_run before slots (range 0 1024) h few
        (range-below 0 1024 (length before) (omega arith)))

check_slot_sound :
    (before after slots : List ℕ) (i : ℕ)
    → All IsCounter before
    → All IsCounter after
    → i < length before
    → i < length after
    → check_slot before after slots i ≡ ok tt
    → get_elem? after i ≡ get_elem? (counted slots before) i
unfolding check_slot
check_slot_sound before after slots i hb ha lb la h =
    let (new, en) = get_elem?_total after i la in
    let (old, eo) = get_elem?_total before i lb in
    let c : ℕ = counter slots i in
    let q : raise_if (not ((new + 4294967296 - old) % 4294967296 == c)) runtime_error ≡ ok tt =
      rw (en, eo) at h in
    let passed = raise_if_passed _ _ q in
    let same : ((new + 4294967296 - old) % 4294967296 == c) ≡ true = ground arith in
    let delta = ==→eq _ _ same in
    let bo = All-get_elem? IsCounter before i old hb eo in
    let bn = All-get_elem? IsCounter after i new ha en in
    let value : new ≡ (old + c) % 4294967296 = omega arith in
    en ∙ ap some value ∙ sym (get_elem?-counted slots i old before bo eo)

check_slots_sound :
    (before after slots is : List ℕ)
    → All IsCounter before
    → All IsCounter after
    → All (λ i. i < length before) is
    → All (λ i. i < length after) is
    → check_slots before after slots is ≡ ok tt
    → All (λ i. get_elem? after i ≡ get_elem? (counted slots before) i) is
unfolding check_slots
check_slots_sound before after slots [] hb ha lb la h = tt
check_slots_sound before after slots (i ∷ is) hb ha lb la h =
    let (u, first, later) = bind_passed (check_slot before after slots i) _ h in
    (
      check_slot_sound before after slots i hb ha lb.0 la.0 first,
      check_slots_sound before after slots is hb ha lb.1 la.1 later,
    )

-- Where `check_counts` passes, the slots of the counted probes can be computed and the new snapshot is
-- the old one after exactly one increment modulo 2 ^ 32 of the slot of each counted probe.
pub check_counts_sound :
    (before after : List ℕ) (probes : List Probe)
    → check_counts before after probes ≡ ok tt
    → (slots : List ℕ) × (counted_slots probes ≡ ok slots) × (after ≡ counted slots before)
unfolding check_counts
check_counts_sound before after probes h =
    let (u, first, h1) = bind_passed (validate_snapshot before) _ h in
    let (v, second, h2) = bind_passed (validate_snapshot after) _ h1 in
    let (slots, third, h3) = bind_passed (counted_slots probes) _ h2 in
    let (nb, hb) = validate_sound before first in
    let (na, ha) = validate_sound after second in
    let all =
      check_slots_sound before after slots (range 0 1024) hb ha
        (range-below 0 1024 (length before) (omega arith))
        (range-below 0 1024 (length after) (omega arith)) h3 in
    (
      slots,
      third,
      get_elem?_ext after (counted slots before) (na ∙ sym (length-counted slots before ∙ nb))
          (λ i l.
            All-range (λ j. get_elem? after j ≡ get_elem? (counted slots before) j) 0 1024 i all
              (omega arith) (omega arith)),
    )
