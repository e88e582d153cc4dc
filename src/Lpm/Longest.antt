-- ===== src/Lpm/Longest.antt =====
-- `expected_host` is longest-prefix matching over the four routes of the case.
use Prim.Native.Nat.{ℕ, ◌≤◌}
use mathlib.Core.Bool.{false, true}
use mathlib.Core.List.{List, [], ◌∷◌}
use mathlib.Core.Logic.{inl, inr, ◌≢◌}
use mathlib.Core.Option.{Option, none, some}
use mathlib.Core.Path.{refl, subst, sym, ◌∙◌, ◌≡◌}
use native.Mathlib.Omega.{arith}
use p4_cases.Lpm.{expected_host, first_subnet, host_route, network}
use p4_cases.Prelude.Lists.{All, get_elem?, length, take, take_all}
use p4_cases.Prelude.Tests.{Bool-cases}
use p4_cases.Wire.Bytes.{bytes_eq, bytes_eq_refl, bytes_eq→eq}

-- A route to a host: the bytes that an address must begin with.
pub record Route : Type 0 where
  pub start : List ℕ
  pub host : ℕ

abbrev pub routes : List Route
routes =
    record { start = network 1; host = 1 }
    ∷ record { start = network 2; host = 2 }
    ∷ record { start = network 3; host = 3 }
    ∷ record { start = host_route; host = 2 }
    ∷ []

abbrev pub Matches : List ℕ → Route → Type 0
Matches address r = take (length r.start) address ≡ r.start

-- `host` is where the longest matching route of `rs` leads; `none` if no route matches.
abbrev pub IsLongest : List ℕ → List Route → Option ℕ → Type 0
IsLongest address rs none = All (λ r. ¬ (Matches address r)) rs
IsLongest address rs (some host) =
    (best : Route) × ((i : ℕ) × (get_elem? rs i ≡ some best))
    × (best.host ≡ host)
    × (Matches address best)
    × All (λ r. Matches address r → length r.start ≤ length best.start) rs

bytes_eq-ne : (xs ys : List ℕ) → bytes_eq xs ys ≡ false → xs ≢ ys
bytes_eq-ne xs ys h e =
    let same : bytes_eq xs ys ≡ true = subst (λ zs. bytes_eq xs zs ≡ true) e (bytes_eq_refl xs) in
    cc

-- A route of eight bytes is the longest where the host route does not match.
subnet-IsLongest :
    (address : List ℕ) (i number : ℕ)
    → get_elem? routes i ≡ some (record { start = network number; host = number })
    → take 8 address ≡ network number
    → take 16 address ≢ host_route
    → IsLongest address routes (some number)
subnet-IsLongest address i number e h other = (
  record { start = network number; host = number },
  (i, e),
  refl,
  h,
  (λ m. omega arith, (λ m. omega arith, (λ m. omega arith, (λ m. absurd (other m), tt)))),
)

-- For an address of sixteen bytes `expected_host` is the host of the longest of the three /64 routes
-- and the /128 route that match the address, and `none` exactly if none of them does.
pub expected_host-IsLongest :
    (address : List ℕ) → length address ≡ 16 → IsLongest address routes (expected_host address)
unfolding expected_host first_subnet
expected_host-IsLongest address n =
    let whole : take 16 address ≡ address = take_all 16 address (omega arith) in
    elim (Bool-cases (bytes_eq address host_route)) [
      | inl p ↦ rw p (
        record { start = host_route; host = 2 },
        (3, refl),
        refl,
        whole ∙ bytes_eq→eq address host_route p,
        (λ m. omega arith, (λ m. omega arith, (λ m. omega arith, (λ m. omega arith, tt)))),
      )
      | inr p ↦
          let other : take 16 address ≢ host_route =
            λ e. bytes_eq-ne address host_route p (sym whole ∙ e) in
          elim (Bool-cases (bytes_eq (take 8 address) (network 1))) [
            | inl a ↦ rw (p, a) (subnet-IsLongest address 0 1 refl (bytes_eq→eq _ _ a) other)
            | inr a ↦ elim (Bool-cases (bytes_eq (take 8 address) (network 2))) [
              | inl b ↦ rw (p, a, b) (subnet-IsLongest address 1 2 refl (bytes_eq→eq _ _ b) other)
              | inr b ↦ elim (Bool-cases (bytes_eq (take 8 address) (network 3))) [
                | inl c ↦
                    rw (p, a, b, c) (subnet-IsLongest address 2 3 refl (bytes_eq→eq _ _ c) other)
                | inr c ↦
                    rw (p, a, b, c)
                      (bytes_eq-ne _ _ a, (bytes_eq-ne _ _ b, (bytes_eq-ne _ _ c, (other, tt))))
              ]
            ]
          ]
    ]
