-- ===== src/StaticSwitch/Verdicts.antt =====
-- The expectation in each probe is the one that static forwarding by destination address gives.
-- Static forwarding among `n_hosts` hosts: a frame from `sender` to `destination` is delivered to the
-- host that has the address, unless that is the sender, and to nobody if no host has it.
use Prim.Native.Nat.{ℕ, ◌%◌, ◌*◌, ◌+◌, ◌-◌, ◌<◌, ◌≤◌}
use Prim.Native.String.{String}
use mathlib.Core.Bool.{Bool, false, not, true}
use mathlib.Core.List.{List, [], ◌++◌, ◌∷◌}
use mathlib.Core.Logic.{inl, inr, ◌≢◌}
use mathlib.Core.Option.{Option, none, some}
use mathlib.Core.Path.{ap, refl, ◌≡◌}
use native.Mathlib.Omega.{arith}
use p4_cases.L2.Build.{kind_frame-IsWire, v4-Builds, v6-Builds}
use p4_cases.L2.Collect.{
  Collects, Collects-append, Collects-bind, Collects-for_each, Collects-weighted, length-range,
  mul_le, range, range-bounds, skipping, weigh-skipping, weight_of_others,
}
use p4_cases.L2.Content.{Builds, Kind, arp_packet-Builds, opaque}
use p4_cases.L2.Frame.{IsMarker, IsWire}
use p4_cases.L2.Hosts.{
  IsForeign, content_kinds, enumerate, groups, host_ip_run, host_mac_run, mac, repeats,
  same_port_kinds, unknown, unmatched-IsForeign, validate_run,
}
use p4_cases.Prelude.Lists.{All, All-of, length, take}
use p4_cases.Prelude.Result.{for_each, ok, ◌>>=◌}
use p4_cases.Prelude.Tests.{Bool-cases, low16_fits, lt→ltb, ◌==◌}
use p4_cases.StaticSwitch.{host_ip}
use p4_cases.StaticSwitch.Probes.{
  Probe, add, add_content, add_pair, add_same_port, add_sender, add_unmatched, arp_reply,
  destination_of, make_probes, receiver_of,
}
use p4_cases.Wire.Bytes.{be16}

abbrev pub Verdict : ℕ → ℕ → List ℕ → Option ℕ → Type 0
Verdict n_hosts sender destination (some r) =
    (1 ≤ r) × (r ≤ n_hosts) × (destination ≡ mac r) × (r ≢ sender)
Verdict n_hosts sender destination none =
    (h : ℕ) → 1 ≤ h → h ≤ n_hosts → destination ≡ mac h → h ≡ sender

abbrev pub is_some : {A : Type 0} → Option A → Bool
is_some none = false
is_some (some a) = true

pub record IsProbe (prefix : List ℕ) (n_hosts : ℕ) (p : Probe) : Type 0 where
  pub from_host : (1 ≤ p.sender) × (p.sender ≤ n_hosts)
  pub wire : IsWire prefix p.frame
  pub verdict : Verdict n_hosts p.sender (take 6 p.frame) p.receiver
  pub flag : p.allowed ≡ is_some p.receiver

is_some-receiver_of :
    (allowed : Bool) (receiver : ℕ) → allowed ≡ is_some (receiver_of allowed receiver)
is_some-receiver_of true receiver = refl
is_some-receiver_of false receiver = refl

module _ (prefix : List ℕ) (m : IsMarker prefix) (n_hosts : ℕ) (few : n_hosts ≤ 254) (sender : ℕ)
    (lo : 1 ≤ sender) (hi : sender ≤ n_hosts) where
  abbrev Good : Probe → Type 0
  Good = IsProbe prefix n_hosts

  abbrev limit : ℕ
  limit = 4294967295

  arp-Builds :
      (receiver : ℕ) (target : List ℕ) (identification : ℕ)
      → 1 ≤ receiver
      → receiver ≤ n_hosts
      → Builds (arp_reply prefix sender receiver target identification)
  unfolding arp_reply
  arp-Builds receiver target id r_lo r_hi =
      rw
        (
          low16_fits id,
          host_ip_run 254 sender lo (omega arith),
          lt→ltb sender 256 (omega arith),
          host_ip_run 254 receiver r_lo (omega arith),
          lt→ltb receiver 256 (omega arith),
        )
        (arp_packet-Builds 2 (prefix ++ be16 (id % 65536)) (10 ∷ 0 ∷ 0 ∷ sender ∷ []) target
          (10 ∷ 0 ∷ 0 ∷ receiver ∷ []) (omega arith))

  add-Collects :
      (receiver : ℕ) (name : String) (kind : Kind) (destination : Option (List ℕ)) (allowed : Bool)
      (s : List Probe)
      → 1 ≤ receiver
      → receiver ≤ n_hosts
      → length (destination_of (mac receiver) destination) ≡ 6
      → Verdict n_hosts sender
          (destination_of (mac receiver) destination)
          (receiver_of allowed receiver)
      → All Good s
      → length s + 1 ≤ limit
      → Collects Good (length s + 1) (add prefix name sender receiver kind destination allowed s)
  unfolding add
  add-Collects receiver name kind destination allowed s r_lo r_hi d v g h =
      let id : ℕ = length s + 1 in
      let host = host_ip_run 254 receiver r_lo (omega arith) in
      let (p, e, p_hi, p_lo) =
        v4-Builds 4294967296 host_ip prefix sender receiver host (omega arith) (omega arith) m
          (omega arith) id 64 (omega arith) (omega arith) in
      let (p6, e6, p6_hi, p6_lo) =
        v6-Builds 4294967296 host_ip prefix sender receiver host (omega arith) (omega arith) m
          (omega arith) id 64 (omega arith) (omega arith) in
      let (f, ef, w, t) =
        kind_frame-IsWire 4294967296 host_ip prefix sender receiver host (omega arith) (omega arith)
          m (omega arith) id p (destination_of (mac receiver) destination) kind
          (arp_reply prefix sender receiver (mac receiver) id) (omega arith) (omega arith) p_hi p_lo
          d (arp-Builds receiver (mac receiver) id r_lo r_hi) in
      rw (host_mac_run 254 receiver r_lo (omega arith), e, e6, ef)
        (Collects-append Good s _ (length s + 1) (omega arith) g (record {
          from_host = (lo, hi);
          wire = w;
          verdict = rw t v;
          flag = is_some-receiver_of allowed receiver;
        }))

  -- The probes of one sender to one receiver.
  add_pair-Collects :
      (receiver : ℕ) (s : List Probe)
      → (1 ≤ receiver) × (receiver < 1 + n_hosts)
      → All Good s
      → length s + skipping sender (repeats n_hosts) receiver ≤ limit
      → Collects Good
          (length s + skipping sender (repeats n_hosts) receiver)
          (add_pair prefix n_hosts sender receiver s)
  unfolding add_pair
  add_pair-Collects receiver s (r_lo, r_hi) g h = elim (Bool-cases (receiver == sender)) [
    | inl e ↦ rw e (s, refl, omega arith, g)
    | inr e ↦
        let bound : length s + repeats n_hosts ≤ limit = rw e at h in
        rw e (
          Collects-for_each Good (λ _. Unit {0}) 1 limit _
            (λ repeat s' v g' b.
              add-Collects receiver _ opaque none true s' r_lo (omega arith) refl
                (r_lo, omega arith, refl, λ q. ground arith) g' b)
            (range 0 (repeats n_hosts)) s (length s + repeats n_hosts)
            (All-of _ (λ _. tt) (range 0 (repeats n_hosts))) g
            (omega (arith, length-range 0 (repeats n_hosts))) bound)
  ]

  -- A host is the receiver of its own address, and the sender gets nothing of its own.
  to_host-Verdict :
      (receiver : ℕ)
      → 1 ≤ receiver
      → receiver ≤ n_hosts
      → Verdict n_hosts sender (mac receiver) (receiver_of (not (receiver == sender)) receiver)
  to_host-Verdict receiver r_lo r_hi = elim (Bool-cases (receiver == sender)) [
    | inl e ↦ rw e (λ h h_lo h_hi q. ground arith)
    | inr e ↦ rw e (r_lo, r_hi, refl, λ q. ground arith)
  ]

  contents-Collect :
      (receiver : ℕ) (s : List Probe)
      → 1 ≤ receiver
      → receiver ≤ n_hosts
      → All Good s
      → length s + 11 ≤ limit
      → Collects Good
          (length s + 11)
          (for_each (add_content prefix sender receiver) content_kinds s)
  unfolding add_content
  contents-Collect receiver s r_lo r_hi g h =
      Collects-for_each Good (λ _. Unit {0}) 1 limit _
        (λ entry s' v g' b.
          add-Collects receiver _ entry.0 none _ s' r_lo r_hi refl
            (to_host-Verdict receiver r_lo r_hi) g' b)
        content_kinds s (length s + 11) (All-of _ (λ _. tt) content_kinds) g (omega arith) h

  same_port-Collect :
      (s : List Probe)
      → All Good s
      → length s + 4 ≤ limit
      → Collects Good (length s + 4) (for_each (add_same_port prefix sender) same_port_kinds s)
  unfolding add_same_port
  same_port-Collect s g h =
      Collects-for_each Good (λ _. Unit {0}) 1 limit _
        (λ entry s' v g' b.
          add-Collects sender _ entry.0 none false s' lo hi refl (λ h' h_lo h_hi q. ground arith) g'
            b)
        same_port_kinds s (length s + 4) (All-of _ (λ _. tt) same_port_kinds) g (omega arith) h

  unmatched-Collect :
      (receiver : ℕ) (s : List Probe)
      → 1 ≤ receiver
      → receiver ≤ n_hosts
      → All Good s
      → length s + 7 ≤ limit
      → Collects Good (length s + 7) (
          for_each
            (add_unmatched prefix sender receiver)
            (enumerate 0 (unknown (mac receiver) ++ groups))
            s)
  unfolding add_unmatched
  unmatched-Collect receiver s r_lo r_hi g h =
      Collects-for_each Good (λ e. IsForeign e.1) 1 limit _
        (λ e s' v g' b.
          add-Collects receiver _ opaque (some e.1) false s' r_lo r_hi v.0
            (λ h' h_lo h_hi q. absurd (v.1 h' h_lo q)) g' b)
        (enumerate 0 (unknown (mac receiver) ++ groups)) s (length s + 7)
        (unmatched-IsForeign receiver) g (omega arith) h

  -- All the probes of the sender: to each other host, then of each kind.
  rounds-Collect :
      (receiver : ℕ) (s : List Probe)
      → 1 ≤ receiver
      → receiver ≤ n_hosts
      → All Good s
      → length s + (repeats n_hosts * (n_hosts - 1) + 22) ≤ limit
      → Collects Good (length s + (repeats n_hosts * (n_hosts - 1) + 22)) (do
        pairs ← for_each (add_pair prefix n_hosts sender) (range 1 n_hosts) s
        contents ← for_each (add_content prefix sender receiver) content_kinds pairs
        same ← for_each (add_same_port prefix sender) same_port_kinds contents
        for_each
            (add_unmatched prefix sender receiver)
            (enumerate 0 (unknown (mac receiver) ++ groups))
            same)
  rounds-Collect receiver s r_lo r_hi g h =
      let w = weigh-skipping sender (repeats n_hosts) 1 n_hosts lo (omega arith) in
      let pairs : ℕ = length s + repeats n_hosts * (n_hosts - 1) in
      Collects-bind Good _ _ _ _
        (Collects-weighted Good (λ i. (1 ≤ i) × (i < 1 + n_hosts))
          (skipping sender (repeats n_hosts)) limit _ (λ r s' v g' b. add_pair-Collects r s' v g' b)
          (range 1 n_hosts) s pairs (range-bounds 1 n_hosts (1 + n_hosts) (omega arith)) g
          (omega (arith, weight_of_others (repeats n_hosts) n_hosts _ (omega arith) w))
          (omega arith))
        λ s1 l1 g1.
          Collects-bind Good _ _ _ _ (contents-Collect receiver s1 r_lo r_hi g1 (omega arith))
            λ s2 l2 g2.
              Collects-bind Good _ _ _ _ (same_port-Collect s2 g2 (omega arith)) λ s3 l3 g3.
                let e : length s3 + 7 ≡ length s + (repeats n_hosts * (n_hosts - 1) + 22) =
                  omega arith in
                rw (← e) (unmatched-Collect receiver s3 r_lo r_hi g3 (omega arith))

module _ (prefix : List ℕ) (m : IsMarker prefix) (n_hosts : ℕ) (some_host : 1 ≤ n_hosts)
    (few : n_hosts ≤ 254) where
  add_sender-Collects :
      (sender : ℕ) (s : List Probe)
      → (1 ≤ sender) × (sender < 1 + n_hosts)
      → All (IsProbe prefix n_hosts) s
      → length s + (repeats n_hosts * (n_hosts - 1) + 22) ≤ 4294967295
      → Collects
          (IsProbe prefix n_hosts)
          (length s + (repeats n_hosts * (n_hosts - 1) + 22))
          (add_sender prefix n_hosts sender s)
  unfolding add_sender
  add_sender-Collects sender s (lo, hi) g h =
      let receiver : ℕ = sender % n_hosts + 1 in
      rw (host_mac_run 254 receiver (omega arith) (omega arith)) (
        rounds-Collect prefix m n_hosts few sender lo (omega arith) receiver s (omega arith)
          (omega arith) g h)

  total_small : n_hosts * (repeats n_hosts * (n_hosts - 1) + 22) ≤ 4294967295
  total_small =
      let r : repeats n_hosts ≤ 3 = ground arith in
      let k = mul_le (repeats n_hosts) (n_hosts - 1) 3 253 r (omega arith) in
      let all = mul_le n_hosts (repeats n_hosts * (n_hosts - 1) + 22) 254 781 few (omega arith) in
      omega arith

  -- For a valid marker and 1 to 254 hosts `make_probes` returns the probes of every host, with the
  -- verdict of static forwarding in each: `receiver` is the host, other than the sender, that has the
  -- frame's destination address, and `None`, with `allowed` false, if there is none.
  pub make_probes-IsProbe_forwarded :
      (ps : List Probe) × (make_probes prefix n_hosts ≡ ok ps)
      × (length ps ≡ n_hosts * (repeats n_hosts * (n_hosts - 1) + 22))
      × All (IsProbe prefix n_hosts) ps
  unfolding make_probes
  make_probes-IsProbe_forwarded =
      let k : ℕ = repeats n_hosts * (n_hosts - 1) + 22 in
      rw (validate_run 254 n_hosts some_host few) (
        Collects-for_each (IsProbe prefix n_hosts) (λ i. (1 ≤ i) × (i < 1 + n_hosts)) k 4294967295 _
          (λ sender s v g b. add_sender-Collects sender s v g b) (range 1 n_hosts) [] (n_hosts * k)
          (range-bounds 1 n_hosts (1 + n_hosts) (omega arith)) tt
          (omega (arith, ap (λ (t : ℕ). k * t) (length-range 1 n_hosts))) total_small)
