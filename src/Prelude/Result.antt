-- ===== src/Prelude/Result.antt =====
-- Python's exceptions as values: one error for each class that the modelled code raises. The
-- messages are not modelled.
use mathlib.Core.Bool.{Bool, false, true}
use mathlib.Core.List.{List, [], ◌∷◌}
use mathlib.Core.Option.{Option, none, some}
use mathlib.Core.Path.{refl, ◌≡◌}
use native.Mathlib.Omega.{arith}

pub data Error : Type 0 where
  value_error struct_error overflow_error index_error key_error runtime_error : Error
  os_error system_exit : Error

-- What a call returns, or the exception it raises.
pub data Result {ℓ} (A : Type ℓ) : Type ℓ where
  err : Error → Result A
  ok : A → Result A

infixl 5 ◌>>=◌ ◌>>◌
abbrev pub ◌>>=◌ {ℓ κ} :
    {Value : Type ℓ} {Next : Type κ} → Result Value → (Value → Result Next) → Result Next
err raised >>= next = err raised
ok value >>= next = next value

abbrev pub ◌>>◌ {ℓ} : {B : Type ℓ} → Result (Unit {0}) → Result B → Result B
m >> k = m >>= λ _. k

-- `if b: raise e`
abbrev pub raise_if : Bool → Error → Result (Unit {0})
raise_if true e = err e
raise_if false e = ok tt

-- An index or a key that is not there raises `e`.
abbrev pub or_raise {ℓ} : {A : Type ℓ} → Option A → Error → Result A
or_raise none e = err e
or_raise (some a) e = ok a

pub raise_if_passed : (test : Bool) (raised : Error) → raise_if test raised ≡ ok tt → test ≡ false
raise_if_passed test raised h = ground arith

pub guard_passed {ℓ} :
    {Value : Type ℓ} (test : Bool) (raised : Error) (next : Result Value) {b : Value}
    → (raise_if test raised >> next) ≡ ok b
    → (test ≡ false) × (next ≡ ok b)
guard_passed true raised next h = cc
guard_passed false raised next h = (refl, h)

pub ok-injective {ℓ} : {Value : Type ℓ} {a b : Value} → ok a ≡ ok b → a ≡ b
ok-injective h = cc

-- What a sequence returned came from its first part.
pub bind_passed {ℓ κ} :
    {Value : Type ℓ} {Next : Type κ} (first : Result Value) (next : Value → Result Next) {b : Next}
    → (first >>= next) ≡ ok b
    → (value : Value) × (first ≡ ok value) × (next value ≡ ok b)
bind_passed (err raised) next h = cc
bind_passed (ok value) next h = (value, refl, h)

-- `for x in xs: state = f(x, state)`, where the body may raise.
unfoldable pub for_each {ℓ κ} :
    {A : Type ℓ} {S : Type κ} → (A → S → Result S) → List A → S → Result S
for_each f [] s = ok s
for_each f (x ∷ xs) s = f x s >>= λ s'. for_each f xs s'
