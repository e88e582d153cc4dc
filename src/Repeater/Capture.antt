-- ===== src/Repeater/Capture.antt =====
-- `make_probes` never raises for a valid marker, and what it returns can be captured.
-- A probe goes from one of the two hosts to the other, and its frame can be captured.
use Prim.Native.Nat.{ℕ, ◌+◌, ◌-◌, ◌<◌, ◌≤◌}
use Prim.Native.String.{String}
use mathlib.Core.List.{List, [], ◌++◌, ◌∷◌}
use mathlib.Core.Path.{refl, ◌≡◌}
use native.Mathlib.Omega.{arith}
use p4_cases.L2.Build.{kind_frame-IsWire, v4-Builds}
use p4_cases.L2.Collect.{Collects, Collects-append, Collects-bind, Collects-for_each}
use p4_cases.L2.Content.{Builds, Kind, arp_packet-Builds, opaque}
use p4_cases.L2.Frame.{IsMarker, IsWire}
use p4_cases.Prelude.Lists.{All, All-get_elem?, All-of, get_elem?_total, length, replicate}
use p4_cases.Prelude.Result.{for_each, ok, ◌>>=◌}
use p4_cases.Prelude.Tests.{lt→ltb}
use p4_cases.Repeater.{host_ip}
use p4_cases.Repeater.Probes.{
  Probe, add, add_kinds, add_sender, arp_request, destinations, kinds, mac, make_probes,
  repeat_last,
}
use p4_cases.Wire.Bytes.{be16}

pub record IsProbe (prefix : List ℕ) (p : Probe) : Type 0 where
  pub crosses : p.sender + p.receiver ≡ 3
  pub from_host : (1 ≤ p.sender) × (p.sender ≤ 2)
  pub wire : IsWire prefix p.frame

host_ip_run : (n : ℕ) → 1 ≤ n → n ≤ 2 → host_ip n ≡ ok (record { a = 10; b = 0; c = 0; d = n })
unfolding host_ip
host_ip_run n lo hi = ground arith

module _ (prefix : List ℕ) (m : IsMarker prefix) (sender receiver : ℕ) (lo : 1 ≤ sender)
    (hi : sender ≤ 2) (other : sender + receiver ≡ 3) where
  arp-Builds :
      (identification : ℕ)
      → identification < 65536
      → Builds (arp_request prefix sender receiver identification)
  unfolding arp_request
  arp-Builds identification h =
      rw (lt→ltb _ _ h, lt→ltb sender 256 (omega arith), lt→ltb receiver 256 (omega arith))
        (arp_packet-Builds 1 (prefix ++ be16 identification) (198 ∷ 18 ∷ 0 ∷ sender ∷ [])
          (replicate 6 0) (198 ∷ 18 ∷ 1 ∷ receiver ∷ []) (omega arith))

  add-Collects :
      (name : String) (destination : List ℕ) (kind : Kind) (s : List Probe)
      → length destination ≡ 6
      → All (IsProbe prefix) s
      → length s + 1 ≤ 65535
      → Collects
          (IsProbe prefix)
          (length s + 1)
          (add prefix name sender receiver destination kind s)
  unfolding add
  add-Collects name destination kind s d g h =
      let id : ℕ = length s + 1 in
      let host = host_ip_run receiver (omega arith) (omega arith) in
      let (packet, e, p_hi, p_lo) =
        v4-Builds 65536 host_ip prefix sender receiver host (omega arith) (omega arith) m
          (omega arith) id 64 (omega arith) (omega arith) in
      let (f, ef, w, t) =
        kind_frame-IsWire 65536 host_ip prefix sender receiver host (omega arith) (omega arith) m
          (omega arith) id packet destination kind (arp_request prefix sender receiver id)
          (omega arith) (omega arith) p_hi p_lo d (arp-Builds id (omega arith)) in
      rw (e, ef)
        (Collects-append (IsProbe prefix) s _ (length s + 1) (omega arith) g
          (record { crosses = other; from_host = (lo, hi); wire = w }))

  add_kinds-Collects :
      (entry : String × List ℕ) (s : List Probe)
      → length entry.1 ≡ 6
      → All (IsProbe prefix) s
      → length s + 12 ≤ 65535
      → Collects (IsProbe prefix) (length s + 12) (add_kinds prefix sender receiver entry s)
  unfolding add_kinds
  add_kinds-Collects (label, destination) s d g h =
      Collects-for_each (IsProbe prefix) (λ _. Unit {0}) 1 65535 _
        (λ x s' v g' b. add-Collects _ destination x.0 s' d g' b) kinds s _
        (All-of _ (λ _. tt) kinds) g (omega arith) h

  repeat_last-Collects :
      (repeat : ℕ) (s : List Probe)
      → 1 ≤ length s
      → All (IsProbe prefix) s
      → Collects (IsProbe prefix) (length s + 1) (repeat_last sender repeat s)
  unfolding repeat_last
  repeat_last-Collects repeat s l g =
      let (p, e) = get_elem?_total s (length s - 1) (omega arith) in
      let q = All-get_elem? (IsProbe prefix) s (length s - 1) p g e in
      rw e (
        Collects-append (IsProbe prefix) s _ (length s + 1) (omega arith) g
          (record { crosses = q.crosses; from_host = q.from_host; wire = q.wire }))

  repeats-Collect :
      (s : List Probe)
      → 1 ≤ length s
      → All (IsProbe prefix) s
      → Collects (IsProbe prefix) (length s + 2) (for_each (repeat_last sender) (1 ∷ 2 ∷ []) s)
  unfolding for_each
  repeats-Collect s l g =
      Collects-bind (IsProbe prefix) _ _ _ _ (repeat_last-Collects 1 s l g) λ s1 l1 g1.
        Collects-bind (IsProbe prefix) _ _ _ _ (repeat_last-Collects 2 s1 (omega arith) g1)
          λ s2 l2 g2. (s2, refl, omega arith, g2)

  destinations-length : All (λ e. length e.1 ≡ 6) (destinations sender receiver)
  destinations-length = omega arith

  phases-Collect :
      (name : String) (s : List Probe)
      → All (IsProbe prefix) s
      → length s + 87 ≤ 65535
      → Collects (IsProbe prefix) (length s + 87) (do
        filled ← for_each (add_kinds prefix sender receiver) (destinations sender receiver) s
        one ← add prefix name sender receiver (mac receiver) opaque filled
        for_each (repeat_last sender) (1 ∷ 2 ∷ []) one)
  phases-Collect name s g h =
      Collects-bind (IsProbe prefix) _ _ _ _
        (Collects-for_each (IsProbe prefix) (λ e. length e.1 ≡ 6) 12 65535 _
          (λ e s' v g' b. add_kinds-Collects e s' v g' b) (destinations sender receiver) s
          (length s + 84) destinations-length g (omega arith) (omega arith))
        λ s1 l1 g1.
          Collects-bind (IsProbe prefix) _ _ _ _
            (add-Collects name (mac receiver) opaque s1 refl g1 (omega arith))
            λ s2 l2 g2.
              let e : length s2 + 2 ≡ length s + 87 = omega arith in
              rw (← e) (repeats-Collect s2 (omega arith) g2)

add_sender-Collects :
    (prefix : List ℕ)
    → IsMarker prefix
    → (sender : ℕ) (s : List Probe) → (1 ≤ sender) × (sender ≤ 2)
    → All (IsProbe prefix) s
    → length s + 87 ≤ 65535
    → Collects (IsProbe prefix) (length s + 87) (add_sender prefix sender s)
unfolding add_sender
add_sender-Collects prefix m sender s (lo, hi) g h =
    phases-Collect prefix m sender (3 - sender) lo hi (omega arith) _ s g h

-- For a marker of four bytes with an individual first byte `make_probes` returns 174 probes, each
-- from one host to the other, of 60 to 1514 bytes and with the marker in its source address.
pub make_probes-IsProbe_repeated :
    (prefix : List ℕ)
    → IsMarker prefix
    → (ps : List Probe) × (make_probes prefix ≡ ok ps) × (length ps ≡ 174) × All (IsProbe prefix) ps
unfolding make_probes
make_probes-IsProbe_repeated prefix m =
    Collects-for_each (IsProbe prefix) (λ i. (1 ≤ i) × (i ≤ 2)) 87 65535 _
      (λ sender s v g b. add_sender-Collects prefix m sender s v g b) (1 ∷ 2 ∷ []) [] 174
      (omega arith) tt (omega arith) (omega arith)
