-- ===== src/BroadcastSwitch/Verdicts.antt =====
-- The expectation in each probe is the one that flooding unknown destinations gives.
use Prim.Native.Nat.{suc, zero, ℕ, ◌+◌, ◌≤◌}
use mathlib.Core.Bool.{false, not, true, ◌&&◌}
use mathlib.Core.List.{List, [], ◌∷◌}
use mathlib.Core.Logic.{inl, inr, ◌⊎◌}
use mathlib.Core.Path.{refl, ◌≡◌}
use native.Mathlib.Omega.{arith}
use p4_cases.BroadcastSwitch.Probes.{Probe, others, receivers_of}
use p4_cases.L2.Collect.{range}
use p4_cases.L2.Frame.{IsWire}
use p4_cases.L2.Hosts.{IsUnknown, mac}
use p4_cases.Prelude.Lists.{take}
use p4_cases.Prelude.Tests.{if◌then◌else◌, leb, ltb, ◌==◌}

abbrev pub count : ℕ → List ℕ → ℕ
count a [] = 0
count a (x ∷ xs) = (if x == a then 1 else 0) + count a xs

-- Forwarding among `n_hosts` hosts: a frame to the address of a host goes to that host alone, but not
-- back to the sender; a frame to any other address goes once to every host but the sender. The address
-- of a frame is that of one of the hosts or of no host at all.
pub record Verdict (n_hosts sender : ℕ) (destination receivers : List ℕ) : Type 0 where
  pub known :
      (h : ℕ)
      → 1 ≤ h
      → h ≤ n_hosts
      → destination ≡ mac h
      → receivers ≡ (if h == sender then [] else h ∷ [])
  pub flooded :
      IsUnknown destination
      → (r : ℕ)
      → count r receivers ≡ (if leb 1 r && (leb r n_hosts && not (r == sender)) then 1 else 0)
  pub total : ((h : ℕ) × (1 ≤ h) × (h ≤ n_hosts) × (destination ≡ mac h)) ⊎ IsUnknown destination

pub record IsProbe (prefix : List ℕ) (n_hosts : ℕ) (p : Probe) : Type 0 where
  pub from_host : (1 ≤ p.sender) × (p.sender ≤ n_hosts)
  pub wire : IsWire prefix p.frame
  pub verdict : Verdict n_hosts p.sender (take 6 p.frame) p.receivers

count-others :
    (sender r first n : ℕ)
    → count r (others sender (range first n))
      ≡ (if leb first r && (ltb r (first + n) && not (r == sender)) then 1 else 0)
unfolding others range
count-others sender r first zero = ground arith
count-others sender r first (suc n) = ground (arith, count-others sender r (first + 1) n)

module _ (n_hosts sender receiver : ℕ) (r_lo : 1 ≤ receiver) where
  pub unicast-Verdict :
      receiver ≤ n_hosts
      → Verdict n_hosts sender (mac receiver) (receivers_of n_hosts sender receiver false)
  unfolding receivers_of
  unicast-Verdict r_hi = record {
    known = λ h lo hi q. let e : receiver ≡ h = ground arith in rw e;
    flooded = λ u r. absurd (u receiver r_lo refl);
    total = inl (receiver, r_lo, r_hi, refl);
  }

  pub flood-Verdict :
      (destination : List ℕ)
      → IsUnknown destination
      → Verdict n_hosts sender destination (receivers_of n_hosts sender receiver true)
  unfolding receivers_of
  flood-Verdict destination u = record {
    known = λ h lo hi q. absurd (u h lo q);
    flooded = λ _ r. ground (arith, count-others sender r 1 n_hosts);
    total = inr u;
  }
