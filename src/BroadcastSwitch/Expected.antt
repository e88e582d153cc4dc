-- ===== src/BroadcastSwitch/Expected.antt =====
-- `make_probes` never raises for a valid host count and marker, and its expectations are right.
use Prim.Native.Nat.{ℕ, ◌%◌, ◌*◌, ◌+◌, ◌-◌, ◌<◌, ◌≤◌}
use Prim.Native.String.{String}
use mathlib.Core.Bool.{Bool, false, true}
use mathlib.Core.List.{List, [], ◌++◌, ◌∷◌}
use mathlib.Core.Logic.{inl, inr}
use mathlib.Core.Option.{Option, none, some}
use mathlib.Core.Path.{ap, refl, ◌≡◌}
use native.Mathlib.Omega.{arith}
use p4_cases.BroadcastSwitch.{host_ip}
use p4_cases.BroadcastSwitch.Probes.{
  Probe, add, add_content, add_flood, add_pair, add_same_port, add_sender, add_unmatched, arp_body,
  destination_of, flood_labels, make_probes, receivers_of,
}
use p4_cases.BroadcastSwitch.Verdicts.{IsProbe, Verdict, flood-Verdict, unicast-Verdict}
use p4_cases.L2.Build.{kind_frame-IsWire, v4-Builds, v6-Builds}
use p4_cases.L2.Collect.{
  Collects, Collects-append, Collects-bind, Collects-for_each, Collects-weighted, length-range,
  mul_le, range, range-bounds, skipping, weigh-skipping, weight_of_others,
}
use p4_cases.L2.Content.{Builds, Kind, arp_packet-Builds, opaque}
use p4_cases.L2.Frame.{IsMarker}
use p4_cases.L2.Hosts.{
  IsForeign, content_kinds, enumerate, groups, host_ip_run, host_mac_run, mac, repeats,
  same_port_kinds, unknown, unmatched-IsForeign, validate_run,
}
use p4_cases.Prelude.Lists.{All, All-of, length, replicate}
use p4_cases.Prelude.Result.{for_each, ok, ◌>>=◌}
use p4_cases.Prelude.Tests.{Bool-cases, if◌then◌else◌, low16_fits, lt→ltb, ◌==◌}
use p4_cases.Wire.Bytes.{be16}

flood_labels-IsForeign : (n : ℕ) → All (λ e. IsForeign e.1) (flood_labels (mac n))
flood_labels-IsForeign n = (
  (refl, λ h lo e. ground arith),
  (
    (refl, λ h lo e. ground arith),
    ((refl, λ h lo e. ground arith), ((refl, λ h lo e. ground arith), tt)),
  ),
)

module _ (prefix : List ℕ) (m : IsMarker prefix) (n_hosts : ℕ) (few : n_hosts ≤ 128) (sender : ℕ)
    (lo : 1 ≤ sender) (hi : sender ≤ n_hosts) where
  abbrev Good : Probe → Type 0
  Good = IsProbe prefix n_hosts

  abbrev limit : ℕ
  limit = 4294967295

  arp-Builds :
      (receiver : ℕ) (target : List ℕ) (flooded : Bool) (identification : ℕ)
      → 1 ≤ receiver
      → receiver ≤ n_hosts
      → Builds (arp_body prefix sender receiver target flooded identification)
  unfolding arp_body
  arp-Builds receiver target flooded id r_lo r_hi =
      rw (low16_fits id, lt→ltb sender 256 (omega arith), lt→ltb receiver 256 (omega arith))
        (arp_packet-Builds (if flooded then 1 else 2) (prefix ++ be16 (id % 65536))
          (198 ∷ 18 ∷ 0 ∷ sender ∷ []) (if flooded then replicate 6 0 else target)
          (198 ∷ 18 ∷ 1 ∷ receiver ∷ []) (ground arith))

  add-Collects :
      (receiver : ℕ) (name : String) (kind : Kind) (destination : Option (List ℕ)) (flooded : Bool)
      (s : List Probe)
      → 1 ≤ receiver
      → receiver ≤ n_hosts
      → length (destination_of (mac receiver) destination) ≡ 6
      → Verdict n_hosts sender
          (destination_of (mac receiver) destination)
          (receivers_of n_hosts sender receiver flooded)
      → All Good s
      → length s + 1 ≤ limit
      → Collects Good
          (length s + 1)
          (add prefix n_hosts name sender receiver kind destination flooded s)
  unfolding add
  add-Collects receiver name kind destination flooded s r_lo r_hi d v g h =
      let id : ℕ = length s + 1 in
      let host = host_ip_run 128 receiver r_lo (omega arith) in
      let (p, e, p_hi, p_lo) =
        v4-Builds 4294967296 host_ip prefix sender receiver host (omega arith) (omega arith) m
          (omega arith) id 64 (omega arith) (omega arith) in
      let (p6, e6, p6_hi, p6_lo) =
        v6-Builds 4294967296 host_ip prefix sender receiver host (omega arith) (omega arith) m
          (omega arith) id 64 (omega arith) (omega arith) in
      let (f, ef, w, t) =
        kind_frame-IsWire 4294967296 host_ip prefix sender receiver host (omega arith) (omega arith)
          m (omega arith) id p (destination_of (mac receiver) destination) kind
          (arp_body prefix sender receiver (mac receiver) flooded id) (omega arith) (omega arith)
          p_hi p_lo d (arp-Builds receiver (mac receiver) flooded id r_lo r_hi) in
      rw (host_mac_run 128 receiver r_lo (omega arith), e, e6, ef)
        (Collects-append Good s _ (length s + 1) (omega arith) g
          (record { from_host = (lo, hi); wire = w; verdict = rw t v }))

  -- The probes of one sender to one receiver.
  add_pair-Collects :
      (receiver : ℕ) (s : List Probe)
      → (1 ≤ receiver) × (receiver < 1 + n_hosts)
      → All Good s
      → length s + skipping sender (repeats n_hosts) receiver ≤ limit
      → Collects Good
          (length s + skipping sender (repeats n_hosts) receiver)
          (add_pair prefix n_hosts sender receiver s)
  unfolding add_pair
  add_pair-Collects receiver s (r_lo, r_hi) g h = elim (Bool-cases (receiver == sender)) [
    | inl e ↦ rw e (s, refl, omega arith, g)
    | inr e ↦
        let bound : length s + repeats n_hosts ≤ limit = rw e at h in
        rw e (
          Collects-for_each Good (λ _. Unit {0}) 1 limit _
            (λ repeat s' v g' b.
              add-Collects receiver _ opaque none false s' r_lo (omega arith) refl
                (unicast-Verdict n_hosts sender receiver r_lo (omega arith)) g' b)
            (range 0 (repeats n_hosts)) s (length s + repeats n_hosts)
            (All-of _ (λ _. tt) (range 0 (repeats n_hosts))) g
            (omega (arith, length-range 0 (repeats n_hosts))) bound)
  ]

  contents-Collect :
      (receiver : ℕ) (s : List Probe)
      → 1 ≤ receiver
      → receiver ≤ n_hosts
      → All Good s
      → length s + 11 ≤ limit
      → Collects Good
          (length s + 11)
          (for_each (add_content prefix n_hosts sender receiver) content_kinds s)
  unfolding add_content
  contents-Collect receiver s r_lo r_hi g h =
      Collects-for_each Good (λ _. Unit {0}) 1 limit _
        (λ entry s' v g' b.
          add-Collects receiver _ entry.0 none false s' r_lo r_hi refl
            (unicast-Verdict n_hosts sender receiver r_lo r_hi) g' b)
        content_kinds s (length s + 11) (All-of _ (λ _. tt) content_kinds) g (omega arith) h

  same_port-Collect :
      (s : List Probe)
      → All Good s
      → length s + 4 ≤ limit
      → Collects Good
          (length s + 4)
          (for_each (add_same_port prefix n_hosts sender) same_port_kinds s)
  unfolding add_same_port
  same_port-Collect s g h =
      Collects-for_each Good (λ _. Unit {0}) 1 limit _
        (λ entry s' v g' b.
          add-Collects sender _ entry.0 none false s' lo hi refl
            (unicast-Verdict n_hosts sender sender lo hi) g' b)
        same_port_kinds s (length s + 4) (All-of _ (λ _. tt) same_port_kinds) g (omega arith) h

  unmatched-Collect :
      (receiver : ℕ) (s : List Probe)
      → 1 ≤ receiver
      → receiver ≤ n_hosts
      → All Good s
      → length s + 7 ≤ limit
      → Collects Good (length s + 7) (
          for_each
            (add_unmatched prefix n_hosts sender receiver)
            (enumerate 0 (unknown (mac receiver) ++ groups))
            s)
  unfolding add_unmatched
  unmatched-Collect receiver s r_lo r_hi g h =
      Collects-for_each Good (λ e. IsForeign e.1) 1 limit _
        (λ e s' v g' b.
          add-Collects receiver _ opaque (some e.1) true s' r_lo r_hi v.0
            (flood-Verdict n_hosts sender receiver r_lo e.1 v.1) g' b)
        (enumerate 0 (unknown (mac receiver) ++ groups)) s (length s + 7)
        (unmatched-IsForeign receiver) g (omega arith) h

  flood-Collects :
      (receiver : ℕ) (entry : String × List ℕ) (s : List Probe)
      → 1 ≤ receiver
      → receiver ≤ n_hosts
      → IsForeign entry.1
      → All Good s
      → length s + 11 ≤ limit
      → Collects Good (length s + 11) (add_flood prefix n_hosts sender receiver entry s)
  unfolding add_flood
  flood-Collects receiver (label, destination) s r_lo r_hi u g h =
      Collects-for_each Good (λ _. Unit {0}) 1 limit _
        (λ entry s' v g' b.
          add-Collects receiver _ entry.0 (some destination) true s' r_lo r_hi u.0
            (flood-Verdict n_hosts sender receiver r_lo destination u.1) g' b)
        content_kinds s (length s + 11) (All-of _ (λ _. tt) content_kinds) g (omega arith) h

  floods-Collect :
      (receiver : ℕ) (s : List Probe)
      → 1 ≤ receiver
      → receiver ≤ n_hosts
      → All Good s
      → length s + 44 ≤ limit
      → Collects Good
          (length s + 44)
          (for_each (add_flood prefix n_hosts sender receiver) (flood_labels (mac receiver)) s)
  floods-Collect receiver s r_lo r_hi g h =
      Collects-for_each Good (λ e. IsForeign e.1) 11 limit _
        (λ e s' v g' b. flood-Collects receiver e s' r_lo r_hi v g' b) (flood_labels (mac receiver))
        s (length s + 44) (flood_labels-IsForeign receiver) g (omega arith) h

  -- All the probes of the sender: to each other host, then of each kind.
  rounds-Collect :
      (receiver : ℕ) (s : List Probe)
      → 1 ≤ receiver
      → receiver ≤ n_hosts
      → All Good s
      → length s + (repeats n_hosts * (n_hosts - 1) + 66) ≤ limit
      → Collects Good (length s + (repeats n_hosts * (n_hosts - 1) + 66)) (do
        pairs ← for_each (add_pair prefix n_hosts sender) (range 1 n_hosts) s
        contents ← for_each (add_content prefix n_hosts sender receiver) content_kinds pairs
        same ← for_each (add_same_port prefix n_hosts sender) same_port_kinds contents
        unmatched ←
            for_each
              (add_unmatched prefix n_hosts sender receiver)
              (enumerate 0 (unknown (mac receiver) ++ groups))
              same
        for_each (add_flood prefix n_hosts sender receiver) (flood_labels (mac receiver)) unmatched)
  rounds-Collect receiver s r_lo r_hi g h =
      let w = weigh-skipping sender (repeats n_hosts) 1 n_hosts lo (omega arith) in
      let pairs : ℕ = length s + repeats n_hosts * (n_hosts - 1) in
      Collects-bind Good _ _ _ _
        (Collects-weighted Good (λ i. (1 ≤ i) × (i < 1 + n_hosts))
          (skipping sender (repeats n_hosts)) limit _ (λ r s' v g' b. add_pair-Collects r s' v g' b)
          (range 1 n_hosts) s pairs (range-bounds 1 n_hosts (1 + n_hosts) (omega arith)) g
          (omega (arith, weight_of_others (repeats n_hosts) n_hosts _ (omega arith) w))
          (omega arith))
        λ s1 l1 g1.
          Collects-bind Good _ _ _ _ (contents-Collect receiver s1 r_lo r_hi g1 (omega arith))
            λ s2 l2 g2.
              Collects-bind Good _ _ _ _ (same_port-Collect s2 g2 (omega arith)) λ s3 l3 g3.
                Collects-bind Good _ _ _ _
                  (unmatched-Collect receiver s3 r_lo r_hi g3 (omega arith))
                  λ s4 l4 g4.
                    let e : length s4 + 44 ≡ length s + (repeats n_hosts * (n_hosts - 1) + 66) =
                      omega arith in
                    rw (← e) (floods-Collect receiver s4 r_lo r_hi g4 (omega arith))

module _ (prefix : List ℕ) (m : IsMarker prefix) (n_hosts : ℕ) (some_host : 1 ≤ n_hosts)
    (few : n_hosts ≤ 128) where
  add_sender-Collects :
      (sender : ℕ) (s : List Probe)
      → (1 ≤ sender) × (sender < 1 + n_hosts)
      → All (IsProbe prefix n_hosts) s
      → length s + (repeats n_hosts * (n_hosts - 1) + 66) ≤ 4294967295
      → Collects
          (IsProbe prefix n_hosts)
          (length s + (repeats n_hosts * (n_hosts - 1) + 66))
          (add_sender prefix n_hosts sender s)
  unfolding add_sender
  add_sender-Collects sender s (lo, hi) g h =
      let receiver : ℕ = sender % n_hosts + 1 in
      rw (host_mac_run 128 receiver (omega arith) (omega arith)) (
        rounds-Collect prefix m n_hosts few sender lo (omega arith) receiver s (omega arith)
          (omega arith) g h)

  total_small : n_hosts * (repeats n_hosts * (n_hosts - 1) + 66) ≤ 4294967295
  total_small =
      let r : repeats n_hosts ≤ 3 = ground arith in
      let k = mul_le (repeats n_hosts) (n_hosts - 1) 3 127 r (omega arith) in
      let all = mul_le n_hosts (repeats n_hosts * (n_hosts - 1) + 66) 128 447 few (omega arith) in
      omega arith

  -- For a valid marker and 1 to 128 hosts `make_probes` returns the probes of every host, each with
  -- the receivers that it has when known addresses are forwarded to their host, unless that is the
  -- sender, and all others are flooded once to every host but the sender.
  pub make_probes-IsProbe_flooded :
      (ps : List Probe) × (make_probes prefix n_hosts ≡ ok ps)
      × (length ps ≡ n_hosts * (repeats n_hosts * (n_hosts - 1) + 66))
      × All (IsProbe prefix n_hosts) ps
  unfolding make_probes
  make_probes-IsProbe_flooded =
      let k : ℕ = repeats n_hosts * (n_hosts - 1) + 66 in
      rw (validate_run 128 n_hosts some_host few) (
        Collects-for_each (IsProbe prefix n_hosts) (λ i. (1 ≤ i) × (i < 1 + n_hosts)) k 4294967295 _
          (λ sender s v g b. add_sender-Collects sender s v g b) (range 1 n_hosts) [] (n_hosts * k)
          (range-bounds 1 n_hosts (1 + n_hosts) (omega arith)) tt
          (omega (arith, ap (λ (t : ℕ). k * t) (length-range 1 n_hosts))) total_small)
