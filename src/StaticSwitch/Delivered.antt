-- ===== src/StaticSwitch/Delivered.antt =====
-- `check_delivery` of 03_l2_forwarding_switch/topology.py, and what it means for the probes of
-- `make_probes`.
use Prim.Native.Nat.{ℕ, ◌≤◌}
use mathlib.Core.Bool.{Bool, false, not, true, ◌&&◌}
use mathlib.Core.List.{List, [], ◌∷◌}
use mathlib.Core.Logic.{inl, inr, ◌↔◌, ◌≢◌}
use mathlib.Core.Option.{Option, none, some}
use mathlib.Core.Path.{ap, fun_ext, refl, subst, sym, ◌∙◌, ◌≡◌}
use native.Mathlib.Omega.{arith}
use p4_cases.Delivery.{check_hosts, chosen}
use p4_cases.Delivery.Hosts.{IsDelivered, check_hosts-IsDelivered}
use p4_cases.L2.Collect.{range}
use p4_cases.L2.Frame.{IsMarker}
use p4_cases.L2.Hosts.{mac}
use p4_cases.Prelude.Lists.{All, take}
use p4_cases.Prelude.Result.{Result, ok, ok-injective}
use p4_cases.Prelude.Tests.{Bool-cases, leb, ◌==◌}
use p4_cases.StaticSwitch.Probes.{Probe, make_probes}
use p4_cases.StaticSwitch.Verdicts.{IsProbe, Verdict, is_some, make_probes-IsProbe_forwarded}
use p4_cases.Wire.Bytes.{bytes_eq, bytes_eq→eq}

-- `item["receiver"] == name`, where the receiver may be `None`
abbrev pub is_receiver : Option ℕ → ℕ → Bool
is_receiver none host = false
is_receiver (some receiver) host = receiver == host

unfoldable pub frames_for : List Probe → ℕ → List (List ℕ)
unfolding chosen
frames_for probes host =
    chosen (λ item. item.allowed && is_receiver item.receiver host) (λ item. item.frame) probes

unfoldable pub check_delivery : List Probe → List (ℕ × List (List ℕ)) → ℕ → Result (Unit {0})
unfolding frames_for check_hosts range
check_delivery probes received n_hosts =
    check_hosts (range 1 n_hosts) (λ host. ok (frames_for probes host)) received

-- A switch with a static entry for each of `n` hosts sends a frame to `host`.
abbrev pub forwards : ℕ → ℕ → List ℕ → ℕ → Bool
forwards n ingress destination host =
    (leb 1 host && leb host n) && (not (host == ingress) && bytes_eq destination (mac host))

-- What that switch sends to a host.
pub switched : ℕ → List Probe → ℕ → List (List ℕ)
switched n probes host =
    chosen (λ p. forwards n p.sender (take 6 p.frame) host) (λ p. p.frame) probes

bytes_eq-mac : (a b : ℕ) → bytes_eq (mac a) (mac b) ≡ (a == b)
unfolding bytes_eq
bytes_eq-mac a b = ground arith

receiver-forwards :
    (n sender r host : ℕ)
    → 1 ≤ r
    → r ≤ n
    → r ≢ sender
    → (r == host) ≡ ((leb 1 host && leb host n) && (not (host == sender) && (r == host)))
receiver-forwards n sender r host lo hi other = ground arith

Verdict-forwards :
    (n sender host : ℕ) (destination : List ℕ) (receiver : Option ℕ)
    → Verdict n sender destination receiver
    → (is_some receiver && is_receiver receiver host) ≡ forwards n sender destination host
Verdict-forwards n sender host destination none v =
    elim (Bool-cases (forwards n sender destination host)) [
      | inl f ↦
          let lo : 1 ≤ host = ground arith in
          let hi : host ≤ n = ground arith in
          let other : host ≢ sender = ground arith in
          let e : bytes_eq destination (mac host) ≡ true = ground arith in
          absurd (other (v host lo hi (bytes_eq→eq destination (mac host) e)))
      | inr f ↦ sym f
    ]
Verdict-forwards n sender host destination (some r) (lo, hi, e, other) =
    let same : bytes_eq destination (mac host) ≡ (r == host) =
      ap (λ d. bytes_eq d (mac host)) e ∙ bytes_eq-mac r host in
    rw same (receiver-forwards n sender r host lo hi other)

frames_for_run :
    (prefix : List ℕ) (n host : ℕ) (ps : List Probe)
    → All (IsProbe prefix n) ps
    → frames_for ps host ≡ switched n ps host
unfolding frames_for switched chosen
frames_for_run prefix n host [] h = refl
frames_for_run prefix n host (p ∷ ps) (g, rest) =
    let same : (p.allowed && is_receiver p.receiver host)
        ≡ forwards n p.sender (take 6 p.frame) host =
      ap (λ b. b && is_receiver p.receiver host) g.flag
      ∙ Verdict-forwards n p.sender host (take 6 p.frame) p.receiver g.verdict in
    rw (same, frames_for_run prefix n host ps rest) refl

-- For the probes that `make_probes` returns for 1 to 254 hosts, `check_delivery` passes exactly if
-- every host and no other has a reply and each reply holds, up to order, the frames that a switch with one static
-- entry for each host sends there: those with the address of the host that another host has sent.
pub check_delivery-make_probes_forwarded :
    (prefix : List ℕ) (n : ℕ) (ps : List Probe) (received : List (ℕ × List (List ℕ)))
    → IsMarker prefix
    → 1 ≤ n
    → n ≤ 254
    → make_probes prefix n ≡ ok ps
    → (check_delivery ps received n ≡ ok tt)
      ↔ IsDelivered (range 1 n) (λ host. ok (switched n ps host)) received
unfolding check_delivery
check_delivery-make_probes_forwarded prefix n ps received m lo hi h =
    let (qs, e, l, all) = make_probes-IsProbe_forwarded prefix m n lo hi in
    let same : qs ≡ ps = ok-injective (sym e ∙ h) in
    let good : All (IsProbe prefix n) ps = subst (All (IsProbe prefix n)) same all in
    let f : (λ host. ok (frames_for ps host)) ≡ (λ host. ok (switched n ps host)) =
      fun_ext (λ host. ap ok (frames_for_run prefix n host ps good)) in
    rw f (check_hosts-IsDelivered (range 1 n) (λ host. ok (switched n ps host)) received)
