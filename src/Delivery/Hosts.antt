-- ===== src/Delivery/Hosts.antt =====
-- What `check_hosts` establishes.
use Prim.Native.Nat.{suc, zero, ℕ}
use mathlib.Core.Bool.{not, true}
use mathlib.Core.List.{List, [], ◌∷◌}
use mathlib.Core.Logic.{inl, inr, ◌↔◌}
use mathlib.Core.Option.{none-ne-some, some, some-injective}
use mathlib.Core.Path.{ap, refl, ◌≡◌}
use native.Mathlib.Omega.{arith}
use p4_cases.Delivery.{
  check_hosts, check_items, counters_equal, has_all, has_host, keys, same_hosts,
}
use p4_cases.Delivery.Bags.{bag, counters_equal-bag}
use p4_cases.Prelude.Lists.{All, get_elem?}
use p4_cases.Prelude.Result.{Result, bind_passed, guard_passed, ok, runtime_error}
use p4_cases.Prelude.Tests.{&&-true, &&-true_left, &&-true_right, ==→eq, Bool-cases, eq→==, ◌==◌}

-- Up to order, a reply holds the frames that are expected at its host.
abbrev pub IsExpected : (ℕ → Result (List (List ℕ))) → ℕ × List (List ℕ) → Type 0
IsExpected expected (host, frames) =
    (wanted : List (List ℕ)) × (expected host ≡ ok wanted) × (bag frames ≡ bag wanted)

abbrev pub IsKey : List (ℕ × List (List ℕ)) → ℕ → Type 0
IsKey received host =
    (frames : List (List ℕ)) × (i : ℕ) × (get_elem? received i ≡ some (host, frames))

-- Every host has a reply, every reply is from one of the hosts, and all have what is expected.
pub record IsDelivered (hosts : List ℕ) (expected : ℕ → Result (List (List ℕ)))
    (received : List (ℕ × List (List ℕ))) : Type 0 where
  pub replies : All (IsKey received) hosts
  pub known : All (λ e. (i : ℕ) × (get_elem? hosts i ≡ some e.0)) received
  pub contents : All (IsExpected expected) received

check_items-All :
    (expected : ℕ → Result (List (List ℕ))) (received : List (ℕ × List (List ℕ)))
    → check_items expected received ≡ ok tt
    → All (IsExpected expected) received
unfolding check_items
check_items-All expected [] h = tt
check_items-All expected ((host, frames) ∷ received) h =
    let (wanted, e, h1) = bind_passed (expected host) _ h in
    let (same, h2) = guard_passed (not (counters_equal frames wanted)) runtime_error _ h1 in
    let equal : counters_equal frames wanted ≡ true = ground arith in
    ((wanted, e, (counters_equal-bag frames wanted).0 equal), check_items-All expected received h2)

pub All-check_items :
    (expected : ℕ → Result (List (List ℕ))) (received : List (ℕ × List (List ℕ)))
    → All (IsExpected expected) received
    → check_items expected received ≡ ok tt
unfolding check_items
All-check_items expected [] h = refl
All-check_items expected ((host, frames) ∷ received) ((wanted, e, b), rest) =
    rw (e, (counters_equal-bag frames wanted).1 b) (All-check_items expected received rest)

has_host-member :
    (hosts : List ℕ) (host : ℕ)
    → has_host hosts host ≡ true
    → (i : ℕ) × (get_elem? hosts i ≡ some host)
unfolding has_host
has_host-member [] host h = cc
has_host-member (x ∷ hosts) host h = elim (Bool-cases (x == host)) [
  | inl e ↦ (0, ap some (==→eq x host e))
  | inr e ↦ let (i, p) = has_host-member hosts host (rw e at h) in (suc i, p)
]

member-has_host :
    (hosts : List ℕ) (host i : ℕ) → get_elem? hosts i ≡ some host → has_host hosts host ≡ true
unfolding has_host
member-has_host [] host i h = absurd (none-ne-some _ h)
member-has_host (x ∷ hosts) host zero h = rw (eq→== x host (some-injective x host h)) refl
member-has_host (x ∷ hosts) host (suc i) h = ground (arith, member-has_host hosts host i h)

-- The first list has every element of the second, by position.
abbrev Contains : List ℕ → List ℕ → Type 0
Contains hosts wanted = All (λ h. (i : ℕ) × (get_elem? hosts i ≡ some h)) wanted

has_all-Contains : (hosts wanted : List ℕ) → has_all hosts wanted ≡ true → Contains hosts wanted
unfolding has_all
has_all-Contains hosts [] h = tt
has_all-Contains hosts (w ∷ wanted) h = (
  has_host-member hosts w (&&-true_left _ _ h),
  has_all-Contains hosts wanted (&&-true_right _ _ h),
)

Contains-has_all : (hosts wanted : List ℕ) → Contains hosts wanted → has_all hosts wanted ≡ true
unfolding has_all
Contains-has_all hosts [] h = refl
Contains-has_all hosts (w ∷ wanted) ((i, e), rest) =
    &&-true _ _ (member-has_host hosts w i e) (Contains-has_all hosts wanted rest)

keys-IsKey :
    (received : List (ℕ × List (List ℕ))) (host i : ℕ)
    → get_elem? (keys received) i ≡ some host
    → IsKey received host
unfolding keys
keys-IsKey [] host i h = absurd (none-ne-some _ h)
keys-IsKey ((h0, frames) ∷ received) host zero h =
    (frames, 0, ap (λ x. some (x, frames)) (some-injective h0 host h))
keys-IsKey ((h0, frames) ∷ received) host (suc i) h =
    let (fs, j, e) = keys-IsKey received host i h in (fs, suc j, e)

IsKey-keys :
    (received : List (ℕ × List (List ℕ))) (host : ℕ) (frames : List (List ℕ)) (i : ℕ)
    → get_elem? received i ≡ some (host, frames)
    → get_elem? (keys received) i ≡ some host
unfolding keys
IsKey-keys [] host frames i h = absurd (none-ne-some _ h)
IsKey-keys ((h0, fs) ∷ received) host frames zero h =
    ap (λ x. some x) (ap (λ e. e.0) (some-injective _ _ h))
IsKey-keys ((h0, fs) ∷ received) host frames (suc i) h = IsKey-keys received host frames i h

All-map {ℓ κ μ} :
    {A : Type ℓ} (P : A → Type κ) (Q : A → Type μ)
    → ((x : A) → P x → Q x)
    → (xs : List A) → All P xs
    → All Q xs
All-map P Q f [] h = tt
All-map P Q f (x ∷ xs) h = (f x h.0, All-map P Q f xs h.1)

Contains-known :
    (hosts : List ℕ) (received : List (ℕ × List (List ℕ)))
    → Contains hosts (keys received)
    → All (λ e. (i : ℕ) × (get_elem? hosts i ≡ some e.0)) received
unfolding keys
Contains-known hosts [] h = tt
Contains-known hosts (e ∷ received) h = (h.0, Contains-known hosts received h.1)

known-Contains :
    (hosts : List ℕ) (received : List (ℕ × List (List ℕ)))
    → All (λ e. (i : ℕ) × (get_elem? hosts i ≡ some e.0)) received
    → Contains hosts (keys received)
unfolding keys
known-Contains hosts [] h = tt
known-Contains hosts (e ∷ received) h = (h.0, known-Contains hosts received h.1)

module _ (hosts : List ℕ) (expected : ℕ → Result (List (List ℕ)))
    (received : List (ℕ × List (List ℕ))) where
  check_hosts_sound :
      check_hosts hosts expected received ≡ ok tt → IsDelivered hosts expected received
  unfolding check_hosts same_hosts
  check_hosts_sound h =
      let (same, h1) = guard_passed (not (same_hosts hosts received)) runtime_error _ h in
      let both : same_hosts hosts received ≡ true = ground arith in
      let all = has_all-Contains hosts (keys received) (&&-true_left _ _ both) in
      let back = has_all-Contains (keys received) hosts (&&-true_right _ _ both) in
      record {
        replies = All-map _ _ (λ host m. keys-IsKey received host m.0 m.1) hosts back;
        known = Contains-known hosts received all;
        contents = check_items-All expected received h1;
      }

  pub IsDelivered-check_hosts :
      IsDelivered hosts expected received → check_hosts hosts expected received ≡ ok tt
  unfolding check_hosts same_hosts
  IsDelivered-check_hosts d =
      let all = Contains-has_all hosts (keys received) (known-Contains hosts received d.known) in
      let back =
        Contains-has_all (keys received) hosts
          (All-map _ _ (λ host m. (m.1, IsKey-keys received host m.0 m.1 m.2)) hosts d.replies) in
      rw (all, back) (All-check_items expected received d.contents)

-- `check_hosts` passes exactly if every host has a reply, every reply is from one of the hosts, and
-- every reply holds, up to order, the frames that are expected at its host.
pub check_hosts-IsDelivered :
    (hosts : List ℕ) (expected : ℕ → Result (List (List ℕ))) (received : List (ℕ × List (List ℕ)))
    → (check_hosts hosts expected received ≡ ok tt) ↔ IsDelivered hosts expected received
check_hosts-IsDelivered hosts expected received =
    (check_hosts_sound hosts expected received, IsDelivered-check_hosts hosts expected received)
