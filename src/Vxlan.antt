-- ===== src/Vxlan.antt =====
-- 11_vxlan_encap/packets.py: inner frames and their IPv4 VXLAN encapsulation.
pub mod Outer
pub mod Probes
pub mod Inner
pub mod Run
use Prim.Native.Nat.{ℕ, ◌+◌}
use mathlib.Core.Bool.{◌||◌}
use mathlib.Core.List.{List, [], ◌++◌, ◌∷◌}
use p4_cases.Prelude.Lists.{drop, length, take}
use p4_cases.Prelude.Result.{Result, ok, raise_if, value_error, ◌>>=◌, ◌>>◌}
use p4_cases.Prelude.Tests.{ltb}
use p4_cases.Wire.Bytes.{be24}
use p4_cases.Wire.Checksum.{checksum}
use p4_cases.Wire.Pack.{pack, raw, u16, u8}

abbrev pub inner_dest : List ℕ
inner_dest = 0 ∷ 0 ∷ 0 ∷ 0x11 ∷ 0x11 ∷ 0x11 ∷ []

abbrev pub outer_dest : List ℕ
outer_dest = 0 ∷ 0 ∷ 0 ∷ 0 ∷ 0 ∷ 2 ∷ []

abbrev pub outer_source : List ℕ
outer_source = 0 ∷ 0 ∷ 0 ∷ 0xde ∷ 0xad ∷ 0x01 ∷ []

abbrev pub outer_ip_source : List ℕ
outer_ip_source = 192 ∷ 168 ∷ 1 ∷ 1 ∷ []

abbrev pub outer_ip_dest : List ℕ
outer_ip_dest = 192 ∷ 168 ∷ 1 ∷ 2 ∷ []

-- `b"\x08\0\0\0" + (5000).to_bytes(3, "big") + b"\0"`
abbrev pub vxlan : List ℕ
vxlan = 8 ∷ 0 ∷ 0 ∷ 0 ∷ (be24 5000 ++ (0 ∷ []))

unfoldable pub encapsulate : List ℕ → Result (List ℕ)
unfolding pack
encapsulate inner = do
  raise_if (ltb (length inner) 14 || ltb 65499 (length inner)) value_error
  outer_ip ← pack (
      u8 0x45
      ∷ u8 0
      ∷ u16 (36 + length inner)
      ∷ u16 0
      ∷ u16 0
      ∷ u8 64
      ∷ u8 17
      ∷ u16 0
      ∷ raw 4 outer_ip_source
      ∷ raw 4 outer_ip_dest
      ∷ [])
  value ← pack (u16 (checksum outer_ip) ∷ [])
  outer_udp ← pack (u16 12345 ∷ u16 4789 ∷ u16 (16 + length inner) ∷ u16 0 ∷ [])
  ok (
      (outer_dest ++ (outer_source ++ (8 ∷ 0 ∷ [])))
      ++ ((take 10 outer_ip ++ (value ++ drop 12 outer_ip)) ++ (outer_udp ++ (vxlan ++ inner))))
