-- ===== src/L2/Hosts.antt =====
-- Host numbers, with the largest as a parameter: 254 in cases 01 and 03, 128 in case 04.
use Prim.Native.Nat.{ℕ, ◌+◌, ◌≤◌}
use Prim.Native.String.{String}
use mathlib.Core.Bool.{not, ◌&&◌}
use mathlib.Core.List.{List, [], ◌++◌, ◌∷◌}
use mathlib.Core.Logic.{◌≢◌}
use mathlib.Core.Path.{refl, ◌≡◌}
use native.Mathlib.Omega.{arith}
use p4_cases.L2.Content.{
  Kind, arp, bad_ipv4_checksum, empty, hop_zero, ipv4, ipv6, mtu, opaque, qinq, ttl_one, ttl_zero,
  vlan,
}
use p4_cases.Prelude.Lists.{All, drop, length, replicate, take}
use p4_cases.Prelude.Result.{Result, ok, raise_if, value_error, ◌>>◌}
use p4_cases.Prelude.Tests.{if◌then◌else◌, leb}
use p4_cases.Wire.Pack.{Dotted}

unfoldable pub validate_host_count : ℕ → ℕ → Result (Unit {0})
validate_host_count most number = raise_if (not (leb 1 number && leb number most)) value_error

unfoldable pub host_ip : ℕ → ℕ → Result Dotted
unfolding validate_host_count
host_ip most number = do
  validate_host_count most number
  ok (record { a = 10; b = 0; c = 0; d = number })

-- the six bytes of a host's address
abbrev pub mac : ℕ → List ℕ
mac n = 0 ∷ 0 ∷ 0 ∷ 0 ∷ 0 ∷ n ∷ []

-- `bytes.fromhex(host_mac(number).replace(":", ""))`: the text is modelled by its six bytes
unfoldable pub host_mac : ℕ → ℕ → Result (List ℕ)
unfolding validate_host_count
host_mac most number = do validate_host_count most number; ok (mac number)

module _ (most n : ℕ) (lo : 1 ≤ n) (hi : n ≤ most) where
  pub validate_run : validate_host_count most n ≡ ok tt
  unfolding validate_host_count
  validate_run = ground arith

  pub host_ip_run : host_ip most n ≡ ok (record { a = 10; b = 0; c = 0; d = n })
  unfolding host_ip
  host_ip_run = ground arith

  pub host_mac_run : host_mac most n ≡ ok (mac n)
  unfolding host_mac
  host_mac_run = ground arith

-- A destination that is no host's address.
abbrev pub IsUnknown : List ℕ → Type 0
IsUnknown destination = (h : ℕ) → 1 ≤ h → destination ≢ mac h

-- The destinations that no switch has learned, by the address of the next host, `target`:
-- `bytes((2,)) + target[1:]`, `target[:2] + b"\x01" + target[3:]`,
-- `target[:4] + b"\x01" + target[5:]`, zero, broadcast and two groups.
abbrev pub unknown : List ℕ → List (List ℕ)
unknown target =
    (2 ∷ drop 1 target)
    ∷ (take 2 target ++ (1 ∷ drop 3 target))
    ∷ (take 4 target ++ (1 ∷ drop 5 target))
    ∷ replicate 6 0
    ∷ []

abbrev pub groups : List (List ℕ)
groups =
    replicate 6 255
    ∷ (0x01 ∷ 0x00 ∷ 0x5e ∷ 0x00 ∷ 0x00 ∷ 0x01 ∷ [])
    ∷ (0x33 ∷ 0x33 ∷ 0x00 ∷ 0x00 ∷ 0x00 ∷ 0x01 ∷ [])
    ∷ []

abbrev pub IsForeign : List ℕ → Type 0
IsForeign destination = (length destination ≡ 6) × IsUnknown destination

pub unmatched-IsForeign : (n : ℕ) → All IsForeign (unknown (mac n) ++ groups)
unmatched-IsForeign n = (
  (refl, λ h lo e. ground arith),
  (
    (refl, λ h lo e. ground arith),
    (
      (refl, λ h lo e. ground arith),
      (
        (refl, λ h lo e. ground arith),
        (
          (refl, λ h lo e. ground arith),
          ((refl, λ h lo e. ground arith), ((refl, λ h lo e. ground arith), tt)),
        ),
      ),
    ),
  ),
)

-- The kinds but `opaque`, with their labels.
abbrev pub content_kinds : List (Kind × String)
content_kinds =
    (ipv4, "ipv4")
    ∷ (ttl_zero, "ttl-zero")
    ∷ (ttl_one, "ttl-one")
    ∷ (bad_ipv4_checksum, "bad-ipv4-checksum")
    ∷ (ipv6, "ipv6")
    ∷ (hop_zero, "hop-zero")
    ∷ (arp, "arp")
    ∷ (vlan, "vlan")
    ∷ (qinq, "qinq")
    ∷ (empty, "empty")
    ∷ (mtu, "mtu")
    ∷ []

abbrev pub same_port_kinds : List (Kind × String)
same_port_kinds = (opaque, "opaque") ∷ (ipv4, "ipv4") ∷ (ipv6, "ipv6") ∷ (vlan, "vlan") ∷ []

-- `3 if n_hosts <= 4 else 1`
abbrev pub repeats : ℕ → ℕ
repeats n_hosts = if leb n_hosts 4 then 3 else 1

-- `enumerate(xs)`, counted from `i`
abbrev pub enumerate : {A : Type 0} → ℕ → List A → List (ℕ × A)
enumerate i [] = []
enumerate i (x ∷ xs) = (i, x) ∷ enumerate (i + 1) xs
