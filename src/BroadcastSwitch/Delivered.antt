-- ===== src/BroadcastSwitch/Delivered.antt =====
-- `check_delivery` of 04_l2_broadcast_switch/topology.py, and what it means for the probes of
-- `make_probes`.
use Prim.Native.Nat.{suc, zero, ℕ, ◌+◌, ◌<◌, ◌≤◌}
use mathlib.Core.Bool.{Bool, false, not, true, ◌&&◌, ◌||◌}
use mathlib.Core.List.{List, [], ◌∷◌}
use mathlib.Core.Logic.{inl, inr, ◌↔◌}
use mathlib.Core.Path.{ap, fun_ext, refl, subst, sym, ◌∙◌, ◌≡◌}
use native.Mathlib.Omega.{arith}
use p4_cases.BroadcastSwitch.Expected.{make_probes-IsProbe_flooded}
use p4_cases.BroadcastSwitch.Probes.{Probe, make_probes}
use p4_cases.BroadcastSwitch.Verdicts.{IsProbe, Verdict, count}
use p4_cases.Delivery.{check_hosts, chosen, has_host}
use p4_cases.Delivery.Hosts.{IsDelivered, check_hosts-IsDelivered}
use p4_cases.L2.Collect.{range}
use p4_cases.L2.Frame.{IsMarker}
use p4_cases.L2.Hosts.{IsUnknown, mac}
use p4_cases.Prelude.Lists.{All, take}
use p4_cases.Prelude.Result.{Result, ok, ok-injective}
use p4_cases.Prelude.Tests.{Bool-cases, if◌then◌else◌, leb, ltb, ◌==◌}
use p4_cases.Wire.Bytes.{bytes_eq, bytes_eq→eq}

-- `[item["frame"] for item in probes if name in item["receivers"]]`
unfoldable pub frames_for : List Probe → ℕ → List (List ℕ)
unfolding chosen has_host
frames_for probes host = chosen (λ item. has_host item.receivers host) (λ item. item.frame) probes

unfoldable pub check_delivery : List Probe → List (ℕ × List (List ℕ)) → ℕ → Result (Unit {0})
unfolding frames_for check_hosts range
check_delivery probes received n_hosts =
    check_hosts (range 1 n_hosts) (λ host. ok (frames_for probes host)) received

-- Some of the hosts has the address.
abbrev pub is_known : List ℕ → List ℕ → Bool
is_known destination [] = false
is_known destination (h ∷ hosts) = bytes_eq destination (mac h) || is_known destination hosts

-- A switch with `n` hosts sends a frame to `host`: one with the address of a host only there, any
-- other everywhere, and none back to where it came from.
abbrev pub broadcasts : ℕ → ℕ → List ℕ → ℕ → Bool
broadcasts n ingress destination host =
    (leb 1 host && leb host n)
    && (not (host == ingress)
        && (bytes_eq destination (mac host) || not (is_known destination (range 1 n))))

-- What that switch sends to a host.
pub switched : ℕ → List Probe → ℕ → List (List ℕ)
switched n probes host =
    chosen (λ p. broadcasts n p.sender (take 6 p.frame) host) (λ p. p.frame) probes

bytes_eq-mac : (a b : ℕ) → bytes_eq (mac a) (mac b) ≡ (a == b)
unfolding bytes_eq
bytes_eq-mac a b = ground arith

bytes_eq-unknown :
    (destination : List ℕ) (h : ℕ)
    → IsUnknown destination
    → 1 ≤ h
    → bytes_eq destination (mac h) ≡ false
bytes_eq-unknown destination h u lo = elim (Bool-cases (bytes_eq destination (mac h))) [
  | inl e ↦ absurd (u h lo (bytes_eq→eq destination (mac h) e))
  | inr e ↦ e
]

known-range : (r first n : ℕ) → first ≤ r → r < first + n → is_known (mac r) (range first n) ≡ true
unfolding range
known-range r first zero lo hi = absurd (omega arith)
known-range r first (suc n) lo hi = rw (bytes_eq-mac r first) (elim (Bool-cases (r == first)) [
  | inl e ↦ rw e refl
  | inr e ↦ rw (e, known-range r (first + 1) n (ground arith) (omega arith)) refl
])

unknown-range :
    (destination : List ℕ) (first n : ℕ)
    → IsUnknown destination
    → 1 ≤ first
    → is_known destination (range first n) ≡ false
unfolding range
unknown-range destination first zero u lo = refl
unknown-range destination first (suc n) u lo =
    rw
      (
        bytes_eq-unknown destination first u lo,
        unknown-range destination (first + 1) n u (omega arith),
      )
      refl

has_host-count : (hosts : List ℕ) (host : ℕ) → has_host hosts host ≡ ltb 0 (count host hosts)
unfolding has_host
has_host-count [] host = refl
has_host-count (h ∷ hosts) host = ground (arith, has_host-count hosts host)

unicast_receivers :
    (n sender r host : ℕ)
    → 1 ≤ r
    → r ≤ n
    → has_host (if r == sender then [] else r ∷ []) host
      ≡ ((leb 1 host && leb host n) && (not (host == sender) && ((r == host) || false)))
unfolding has_host
unicast_receivers n sender r host lo hi = elim (Bool-cases (r == sender)) [
  | inl e ↦ rw e (ground arith)
  | inr e ↦ rw e (ground arith)
]

flooded_receivers :
    (n sender host : ℕ) (other : Bool)
    → ltb 0 (if leb 1 host && (leb host n && not (host == sender)) then 1 else 0)
      ≡ ((leb 1 host && leb host n) && (not (host == sender) && (other || not false)))
flooded_receivers n sender host true = ground arith
flooded_receivers n sender host false = ground arith

Verdict-broadcasts :
    (n sender host : ℕ) (destination receivers : List ℕ)
    → Verdict n sender destination receivers
    → has_host receivers host ≡ broadcasts n sender destination host
Verdict-broadcasts n sender host destination receivers v = elim v.total [
  | inl (r, lo, hi, e) ↦
      rw (v.known r lo hi e, e, bytes_eq-mac r host, known-range r 1 n lo (omega arith))
        (unicast_receivers n sender r host lo hi)
  | inr u ↦
      let copies = v.flooded u host in
      let nobody = unknown-range destination 1 n u (omega arith) in
      rw (has_host-count receivers host, copies, nobody)
        (flooded_receivers n sender host (bytes_eq destination (mac host)))
]

frames_for_run :
    (prefix : List ℕ) (n host : ℕ) (ps : List Probe)
    → All (IsProbe prefix n) ps
    → frames_for ps host ≡ switched n ps host
unfolding frames_for switched chosen
frames_for_run prefix n host [] h = refl
frames_for_run prefix n host (p ∷ ps) (g, rest) =
    rw
      (
        Verdict-broadcasts n p.sender host (take 6 p.frame) p.receivers g.verdict,
        frames_for_run prefix n host ps rest,
      )
      refl

-- For the probes that `make_probes` returns for 1 to 128 hosts, `check_delivery` passes exactly if
-- every host and no other has a reply and each reply holds, up to order, the frames that a flooding switch sends
-- there: a frame with the address of a host only to that host, any other frame to all of them, and
-- none back to its sender.
pub check_delivery-make_probes_flooded :
    (prefix : List ℕ) (n : ℕ) (ps : List Probe) (received : List (ℕ × List (List ℕ)))
    → IsMarker prefix
    → 1 ≤ n
    → n ≤ 128
    → make_probes prefix n ≡ ok ps
    → (check_delivery ps received n ≡ ok tt)
      ↔ IsDelivered (range 1 n) (λ host. ok (switched n ps host)) received
unfolding check_delivery
check_delivery-make_probes_flooded prefix n ps received m lo hi h =
    let (qs, e, l, all) = make_probes-IsProbe_flooded prefix m n lo hi in
    let same : qs ≡ ps = ok-injective (sym e ∙ h) in
    let good : All (IsProbe prefix n) ps = subst (All (IsProbe prefix n)) same all in
    let f : (λ host. ok (frames_for ps host)) ≡ (λ host. ok (switched n ps host)) =
      fun_ext (λ host. ap ok (frames_for_run prefix n host ps good)) in
    rw f (check_hosts-IsDelivered (range 1 n) (λ host. ok (switched n ps host)) received)
