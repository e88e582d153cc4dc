-- ===== src/Wire/Bytes.antt =====
-- Python's `bytes`: a list of numbers below 256, with slices, slice assignment and padding.
use Prim.Native.Nat.{max, suc, zero, ℕ, ◌%◌, ◌*◌, ◌+◌, ◌-◌, ◌/◌, ◌<◌, ◌≤◌}
use mathlib.Core.Bool.{Bool, false, true, ◌&&◌}
use mathlib.Core.List.{List, [], ◌++◌, ◌∷◌}
use mathlib.Core.Path.{ap, refl, ◌≡◌}
use native.Mathlib.Omega.{arith}
use p4_cases.Prelude.Lists.{
  All, drop, get_elem?, length, length-append, length-replicate, replicate, take,
}
use p4_cases.Prelude.Result.{Result, index_error, or_raise}
use p4_cases.Prelude.Tests.{◌==◌}

abbrev pub Bytes : Type 0
Bytes = List ℕ

abbrev pub IsByte : ℕ → Type 0
IsByte b = b < 256

-- `data[i:j]`, for `i <= j`
abbrev pub slice : ℕ → ℕ → List ℕ → List ℕ
slice i j data' = take (j - i) (drop i data')

-- `data[i:j] = value` on a `bytearray`; past the end it appends
abbrev pub splice : ℕ → ℕ → List ℕ → List ℕ → List ℕ
splice i j value data' = take i data' ++ (value ++ drop j data')

-- `data.ljust(n, fill)`
unfoldable pub ljust : ℕ → ℕ → List ℕ → List ℕ
ljust n fill data' = data' ++ replicate (n - length data') fill

-- `data[i]`
abbrev pub byte_at : List ℕ → ℕ → Result ℕ
byte_at data' i = or_raise (get_elem? data' i) index_error

-- `int.from_bytes(data, "big")`
unfoldable pub from_bytes : List ℕ → ℕ → ℕ
from_bytes [] acc = acc
from_bytes (b ∷ bs) acc = from_bytes bs (acc * 256 + b)

-- the two bytes of a number below 2 ^ 16
abbrev pub be16 : ℕ → List ℕ
be16 n = n / 256 ∷ n % 256 ∷ []

-- `n.to_bytes(3, "big")`, for a number below 2 ^ 24
abbrev pub be24 : ℕ → List ℕ
be24 n = n / 65536 ∷ n / 256 % 256 ∷ n % 256 ∷ []

abbrev pub be32 : ℕ → List ℕ
be32 n = n / 16777216 ∷ n / 65536 % 256 ∷ n / 256 % 256 ∷ n % 256 ∷ []

-- `bytes(range(n))`, counted from `i`
unfoldable pub byte_range : ℕ → ℕ → List ℕ
byte_range zero i = []
byte_range (suc n) i = i ∷ byte_range n (i + 1)

-- equality of two byte strings
unfoldable pub bytes_eq : List ℕ → List ℕ → Bool
bytes_eq [] [] = true
bytes_eq [] (y ∷ ys) = false
bytes_eq (x ∷ xs) [] = false
bytes_eq (x ∷ xs) (y ∷ ys) = x == y && bytes_eq xs ys

pub length-byte_range : (n i : ℕ) → length (byte_range n i) ≡ n
unfolding byte_range
length-byte_range zero i = refl
length-byte_range (suc n) i = ap suc (length-byte_range n (i + 1))

pub byte_range-IsByte : (n i : ℕ) → n + i ≤ 256 → All IsByte (byte_range n i)
unfolding byte_range
byte_range-IsByte zero i h = tt
byte_range-IsByte (suc n) i h = (omega arith, byte_range-IsByte n (i + 1) (omega arith))

pub length-ljust : (n fill : ℕ) (xs : List ℕ) → length (ljust n fill xs) ≡ max n (length xs)
unfolding ljust
length-ljust n fill xs = omega (
  arith,
  length-append xs (replicate (n - length xs) fill),
  length-replicate (n - length xs) fill,
)

pub bytes_eq→eq : (xs ys : List ℕ) → bytes_eq xs ys ≡ true → xs ≡ ys
unfolding bytes_eq
bytes_eq→eq [] [] h = refl
bytes_eq→eq [] (y ∷ ys) h = cc
bytes_eq→eq (x ∷ xs) [] h = cc
bytes_eq→eq (x ∷ xs) (y ∷ ys) h = ground (arith, bytes_eq→eq xs ys)

pub bytes_eq_refl : (xs : List ℕ) → bytes_eq xs xs ≡ true
unfolding bytes_eq
bytes_eq_refl [] = refl
bytes_eq_refl (x ∷ xs) = ground (arith, bytes_eq_refl xs)
