-- ===== src/Switch/Ports.antt =====
-- The ports of the switches that are created one after the other.
use Prim.Native.Nat.{suc, zero, ℕ, ◌+◌, ◌<◌, ◌≤◌}
use mathlib.Core.List.{List, [], ◌∷◌}
use mathlib.Core.Logic.{◌≢◌}
use mathlib.Core.Option.{none, none-ne-some, some, some-injective}
use mathlib.Core.Path.{ap, refl, subst, sym, ◌∙◌, ◌≡◌}
use native.Mathlib.Omega.{arith}
use p4_cases.Prelude.Lists.{All, get_elem?, length}
use p4_cases.Switch.{Allocators, Arguments, Switch, new_switch, reset_port_allocators}

-- A construction without ports of its own.
abbrev pub Plain : Arguments → Type 0
Plain args = (args.grpc_port ≡ none) × (args.thrift_port ≡ none)

-- The switches of a sequence of constructions.
unfoldable pub created : List Arguments → Allocators → List Switch
unfolding new_switch
created [] a = []
created (args ∷ more) a = let (s, a') = new_switch args a in s ∷ created more a'

advanced : ℕ → Allocators → Allocators
advanced n a = record {
  next_grpc_port = a.next_grpc_port + n;
  next_thrift_port = a.next_thrift_port + n;
}

new_switch_run :
    (args : Arguments) (a : Allocators)
    → Plain args
    → ((new_switch args a).0.grpc_port ≡ a.next_grpc_port)
      × ((new_switch args a).0.thrift_port ≡ a.next_thrift_port)
      × ((new_switch args a).1 ≡ advanced 1 a)
unfolding new_switch advanced
new_switch_run args a (g, t) = (rw g refl, rw (g, t) refl, rw (g, t) refl)

created-ports :
    (all : List Arguments) (a : Allocators) (i : ℕ) (s : Switch)
    → All Plain all
    → get_elem? (created all a) i ≡ some s
    → (s.grpc_port ≡ a.next_grpc_port + i) × (s.thrift_port ≡ a.next_thrift_port + i)
unfolding created advanced
created-ports [] a i s h e = absurd (none-ne-some s e)
created-ports (args ∷ all) a zero s (g, h) e =
    let (p, q, next) = new_switch_run args a g in
    let same = some-injective _ s e in
    (
      ap (λ x. x.grpc_port) (sym same) ∙ p ∙ omega arith,
      ap (λ x. x.thrift_port) (sym same) ∙ q ∙ omega arith,
    )
created-ports (args ∷ all) a (suc i) s (g, h) e =
    let (p, q, next) = new_switch_run args a g in
    let moved : get_elem? (created all (advanced 1 a)) i ≡ some s =
      subst (λ b. get_elem? (created all b) i ≡ some s) next e in
    let (p', q') = created-ports all (advanced 1 a) i s h moved in (omega arith, omega arith)

length-created : (all : List Arguments) (a : Allocators) → length (created all a) ≡ length all
unfolding created
length-created [] a = refl
length-created (args ∷ all) a = ap suc (length-created all _)

get_elem?-length {ℓ} :
    {A : Type ℓ} (xs : List A) (i : ℕ) (x : A) → get_elem? xs i ≡ some x → i < length xs
get_elem?-length [] i x e = absurd (none-ne-some x e)
get_elem?-length (y ∷ xs) zero x e = omega arith
get_elem?-length (y ∷ xs) (suc i) x e = omega (arith, get_elem?-length xs i x e)

-- The ports of two switches.
pub record AreApart (i j : ℕ) (s t : Switch) : Type 0 where
  pub in_range :
      (9559 ≤ s.grpc_port) × (s.grpc_port < 65536) × (9090 ≤ s.thrift_port) × (s.thrift_port < 9559)
  pub kinds : s.grpc_port ≢ t.thrift_port
  pub others : i ≢ j → (s.grpc_port ≢ t.grpc_port) × (s.thrift_port ≢ t.thrift_port)

-- Of at most 469 switches that are created after a reset, without ports of their own, any two have
-- different ports, the gRPC ports differ from the Thrift ports, and all are in their ranges.
pub new_switch-AreApart :
    (all : List Arguments) (i j : ℕ) (s t : Switch)
    → All Plain all
    → length all ≤ 469
    → get_elem? (created all reset_port_allocators) i ≡ some s
    → get_elem? (created all reset_port_allocators) j ≡ some t
    → AreApart i j s t
new_switch-AreApart all i j s t plain few ei ej =
    let n = length-created all reset_port_allocators in
    let a = get_elem?-length (created all reset_port_allocators) i s ei in
    let b = get_elem?-length (created all reset_port_allocators) j t ej in
    let (p, q) = created-ports all reset_port_allocators i s plain ei in
    let (p', q') = created-ports all reset_port_allocators j t plain ej in
    record {
      in_range = (omega arith, omega arith, omega arith, omega arith);
      kinds = λ e. omega arith;
      others = λ d. ((λ e. d (omega arith)), (λ e. d (omega arith)));
    }
