-- ===== src/Wire/Pack.antt =====
-- `struct.pack` with a big-endian format, and the packed form of addresses.
-- One item of a format: `B`, `H`, `I`, `ns`, or pad bytes `nx`.
use Prim.Native.Nat.{ℕ, ◌-◌, ◌<◌}
use mathlib.Core.Bool.{Bool, true, ◌&&◌}
use mathlib.Core.List.{List, [], ◌++◌, ◌∷◌}
use mathlib.Core.Path.{◌≡◌}
use native.Mathlib.Omega.{arith}
use p4_cases.Prelude.Lists.{length, replicate, take}
use p4_cases.Prelude.Result.{Result, err, ok, overflow_error, struct_error, value_error}
use p4_cases.Prelude.Tests.{if◌then◌else◌, ltb}
use p4_cases.Wire.Bytes.{be16, be32}

pub data Field : Type 0 where
  u8 u16 u32 : ℕ → Field
  raw : ℕ → List ℕ → Field
  pad : ℕ → Field

-- `struct.error` where a number does not fit its item
abbrev pub fits : List Field → Bool
fits [] = true
fits (u8 n ∷ fs) = ltb n 256 && fits fs
fits (u16 n ∷ fs) = ltb n 65536 && fits fs
fits (u32 n ∷ fs) = ltb n 4294967296 && fits fs
fits (raw n bs ∷ fs) = fits fs
fits (pad n ∷ fs) = fits fs

abbrev pub layout : List Field → List ℕ
layout [] = []
layout (u8 n ∷ fs) = n ∷ layout fs
layout (u16 n ∷ fs) = be16 n ++ layout fs
layout (u32 n ∷ fs) = be32 n ++ layout fs
layout (raw n bs ∷ fs) = take n bs ++ (replicate (n - length bs) 0 ++ layout fs)
layout (pad n ∷ fs) = replicate n 0 ++ layout fs

unfoldable pub pack : List Field → Result (List ℕ)
pack fs = if fits fs then ok (layout fs) else err struct_error

-- `n.to_bytes(k, "big")` for k = 2, 3, 4
unfoldable pub to_bytes2 : ℕ → Result (List ℕ)
to_bytes2 n = if ltb n 65536 then ok (be16 n) else err overflow_error

unfoldable pub to_bytes4 : ℕ → Result (List ℕ)
to_bytes4 n = if ltb n 4294967296 then ok (be32 n) else err overflow_error

-- `ipaddress.IPv4Address(f"{a}.{b}.{c}.{d}").packed`: the text is modelled by its four numbers
unfoldable pub ipv4_packed : ℕ → ℕ → ℕ → ℕ → Result (List ℕ)
ipv4_packed a b c d =
    if ltb a 256 && (ltb b 256 && (ltb c 256 && ltb d 256))
    then ok (a ∷ b ∷ c ∷ d ∷ [])
    else err value_error

-- the text of an IPv4 address, by its four numbers
pub record Dotted : Type 0 where
  pub a : ℕ
  pub b : ℕ
  pub c : ℕ
  pub d : ℕ

-- `ipaddress.IPv4Address(text).packed`
unfoldable pub dotted_packed : Dotted → Result (List ℕ)
unfolding ipv4_packed
dotted_packed ip = ipv4_packed ip.a ip.b ip.c ip.d

-- `ipaddress.IPv6Address(f"{a:x}:{b:x}:{c:x}::{d:x}").packed`, `b"\0" * 8` between `c` and `d`
unfoldable pub ipv6_packed : ℕ → ℕ → ℕ → ℕ → Result (List ℕ)
ipv6_packed a b c d =
    if ltb a 65536 && (ltb b 65536 && (ltb c 65536 && ltb d 65536))
    then ok (be16 a ++ (be16 b ++ (be16 c ++ (replicate 8 0 ++ be16 d))))
    else err value_error

pub pack_ok : (fs : List Field) → fits fs ≡ true → pack fs ≡ ok (layout fs)
unfolding pack
pack_ok fs h = rw h

pub to_bytes2_ok : (n : ℕ) → n < 65536 → to_bytes2 n ≡ ok (be16 n)
unfolding to_bytes2
to_bytes2_ok n h = ground arith

pub to_bytes4_ok : (n : ℕ) → n < 4294967296 → to_bytes4 n ≡ ok (be32 n)
unfolding to_bytes4
to_bytes4_ok n h = ground arith

pub ipv4_packed_ok :
    (a b c d : ℕ)
    → a < 256
    → b < 256
    → c < 256
    → d < 256
    → ipv4_packed a b c d ≡ ok (a ∷ b ∷ c ∷ d ∷ [])
unfolding ipv4_packed
ipv4_packed_ok a b c d ha hb hc hd = ground arith

pub ipv6_packed_ok :
    (a b c d : ℕ)
    → a < 65536
    → b < 65536
    → c < 65536
    → d < 65536
    → ipv6_packed a b c d ≡ ok (be16 a ++ (be16 b ++ (be16 c ++ (replicate 8 0 ++ be16 d))))
unfolding ipv6_packed
ipv6_packed_ok a b c d ha hb hc hd = ground arith
