-- ===== src/Registers/Counting.antt =====
-- `check_counts` accepts what 32-bit counters hold after the counted packets, and only that.
use Prim.Native.Nat.{suc, zero, ℕ, ◌%◌, ◌+◌, ◌-◌, ◌<◌, ◌≤◌}
use mathlib.Core.Bool.{true}
use mathlib.Core.List.{List, [], ◌∷◌}
use mathlib.Core.Option.{none-ne-some, some, some-injective}
use mathlib.Core.Path.{ap, refl, ◌∙◌, ◌≡◌}
use native.Mathlib.Omega.{arith}
use p4_cases.Prelude.Lists.{All, get_elem?, length}
use p4_cases.Prelude.Result.{ok, raise_if_passed}
use p4_cases.Prelude.Tests.{
  &&-true_left, &&-true_right, ==→eq, eq→==, if◌then◌else◌, ltb→lt, lt→ltb, ◌==◌,
}
use p4_cases.Registers.{all_counters, check_slot, counter, validate_snapshot}

-- A register cell incremented modulo 2 ^ 32.
abbrev pub bump : ℕ → List ℕ → List ℕ
bump slot [] = []
bump zero (v ∷ vs) = (v + 1) % 4294967296 ∷ vs
bump (suc slot) (v ∷ vs) = v ∷ bump slot vs

-- The register after packets in the given slots.
abbrev pub counted : List ℕ → List ℕ → List ℕ
counted [] values = values
counted (slot ∷ slots) values = counted slots (bump slot values)

abbrev pub IsCounter : ℕ → Type 0
IsCounter v = v < 4294967296

length-bump : (slot : ℕ) (vs : List ℕ) → length (bump slot vs) ≡ length vs
length-bump slot [] = refl
length-bump zero (v ∷ vs) = refl
length-bump (suc slot) (v ∷ vs) = ap suc (length-bump slot vs)

bump-IsCounter : (slot : ℕ) (vs : List ℕ) → All IsCounter vs → All IsCounter (bump slot vs)
bump-IsCounter slot [] h = tt
bump-IsCounter zero (v ∷ vs) h = (omega arith, h.1)
bump-IsCounter (suc slot) (v ∷ vs) h = (h.0, bump-IsCounter slot vs h.1)

pub length-counted : (slots vs : List ℕ) → length (counted slots vs) ≡ length vs
length-counted [] vs = refl
length-counted (slot ∷ slots) vs = length-counted slots (bump slot vs) ∙ length-bump slot vs

pub counted-IsCounter : (slots vs : List ℕ) → All IsCounter vs → All IsCounter (counted slots vs)
counted-IsCounter [] vs h = h
counted-IsCounter (slot ∷ slots) vs h =
    counted-IsCounter slots (bump slot vs) (bump-IsCounter slot vs h)

get_elem?-bump :
    (slot i v : ℕ) (vs : List ℕ)
    → v < 4294967296
    → get_elem? vs i ≡ some v
    → get_elem? (bump slot vs) i ≡ some ((v + (if slot == i then 1 else 0)) % 4294967296)
get_elem?-bump slot i v [] h e = absurd (none-ne-some _ e)
get_elem?-bump zero zero v (x ∷ vs) h e =
    ap (λ t. some ((t + 1) % 4294967296)) (some-injective x v e)
get_elem?-bump zero (suc i) v (x ∷ vs) h e =
    let p : v ≡ (v + (if 0 == suc i then 1 else 0)) % 4294967296 = ground arith in e ∙ ap some p
get_elem?-bump (suc slot) zero v (x ∷ vs) h e =
    let p : v ≡ (v + (if suc slot == 0 then 1 else 0)) % 4294967296 = ground arith in e ∙ ap some p
get_elem?-bump (suc slot) (suc i) v (x ∷ vs) h e =
    let p : (if slot == i then 1 else 0) ≡ (if suc slot == suc i then 1 else 0) = ground arith in
    get_elem?-bump slot i v vs h e ∙ ap (λ t. some ((v + t) % 4294967296)) p

pub get_elem?-counted :
    (slots : List ℕ) (i v : ℕ) (vs : List ℕ)
    → v < 4294967296
    → get_elem? vs i ≡ some v
    → get_elem? (counted slots vs) i ≡ some ((v + counter slots i) % 4294967296)
unfolding counter
get_elem?-counted [] i v vs h e = let p : v ≡ (v + 0) % 4294967296 = omega arith in e ∙ ap some p
get_elem?-counted (slot ∷ slots) i v vs h e =
    let d : ℕ = if slot == i then 1 else 0 in
    let p : ((v + d) % 4294967296 + counter slots i) % 4294967296
        ≡ (v + (d + counter slots i)) % 4294967296 =
      omega arith in
    get_elem?-counted slots i ((v + d) % 4294967296) (bump slot vs) (omega arith)
      (get_elem?-bump slot i v vs h e)
    ∙ ap some p

pub counter-le : (slots : List ℕ) (i : ℕ) → counter slots i ≤ length slots
unfolding counter
counter-le [] i = omega arith
counter-le (slot ∷ slots) i = ground (arith, counter-le slots i)

all_counters_run : (vs : List ℕ) → All IsCounter vs → all_counters vs ≡ true
unfolding all_counters
all_counters_run [] h = refl
all_counters_run (v ∷ vs) h = rw (lt→ltb _ _ h.0) (all_counters_run vs h.1)

all_counters-All : (vs : List ℕ) → all_counters vs ≡ true → All IsCounter vs
unfolding all_counters
all_counters-All [] h = tt
all_counters-All (v ∷ vs) h =
    (ltb→lt _ _ (&&-true_left _ _ h), all_counters-All vs (&&-true_right _ _ h))

pub validate_run :
    (vs : List ℕ) → length vs ≡ 1024 → All IsCounter vs → validate_snapshot vs ≡ ok tt
unfolding validate_snapshot
validate_run vs n h =
    let p : (length vs == 1024) ≡ true = eq→== _ _ n in rw (p, all_counters_run vs h) refl

pub validate_sound :
    (vs : List ℕ) → validate_snapshot vs ≡ ok tt → (length vs ≡ 1024) × All IsCounter vs
unfolding validate_snapshot
validate_sound vs h =
    let p = raise_if_passed _ _ h in
    let n : (length vs == 1024) ≡ true = ground arith in
    let a : all_counters vs ≡ true = ground arith in (==→eq _ _ n, all_counters-All vs a)

-- A slot of a register that has counted.
pub check_slot_run :
    (before slots : List ℕ) (i v : ℕ)
    → v < 4294967296
    → length slots < 4294967296
    → get_elem? before i ≡ some v
    → check_slot before (counted slots before) slots i ≡ ok tt
unfolding check_slot
check_slot_run before slots i v h few e =
    let c : ℕ = counter slots i in
    let small : c < 4294967296 = omega (arith, counter-le slots i) in
    let p : (((v + c) % 4294967296 + 4294967296 - v) % 4294967296 == c) ≡ true =
      eq→== _ _ (omega arith) in
    rw (get_elem?-counted slots i v before h e, e, p) refl
