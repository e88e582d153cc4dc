-- ===== src/Prelude/Text.antt =====
-- The parts of an f-string: decimal numbers and concatenation.
use Prim.Native.String
use Prim.Native.Nat.{suc, zero, ℕ, ◌%◌, ◌+◌, ◌/◌}
use Prim.Native.String.{String}
use p4_cases.Prelude.Tests.{if◌then◌else◌, ltb}

infixr 66 ◌<>◌
abbrev pub ◌<>◌ : String → String → String
s <> t = String.◌++◌ s t

digit : ℕ → String
digit zero = "0"
digit (suc zero) = "1"
digit (suc (suc zero)) = "2"
digit (suc (suc (suc zero))) = "3"
digit (suc (suc (suc (suc zero)))) = "4"
digit (suc (suc (suc (suc (suc zero))))) = "5"
digit (suc (suc (suc (suc (suc (suc zero)))))) = "6"
digit (suc (suc (suc (suc (suc (suc (suc zero))))))) = "7"
digit (suc (suc (suc (suc (suc (suc (suc (suc zero)))))))) = "8"
digit n = "9"

-- a number below 10 ^ fuel
decimal_fuel : ℕ → ℕ → String
decimal_fuel zero n = ""
decimal_fuel (suc fuel) n =
    let front = decimal_fuel fuel (n / 10) in if ltb n 10 then digit n else front <> digit (n % 10)

-- `f"{n}"`; a number below n + 1 has at most n + 1 digits
unfoldable pub decimal : ℕ → String
unfolding digit decimal_fuel
decimal n = decimal_fuel (n + 1) n
