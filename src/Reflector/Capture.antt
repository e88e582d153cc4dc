-- ===== src/Reflector/Capture.antt =====
-- `make_probes` never raises for a valid host count and marker, and what it returns can be captured.
-- A probe of a run with `n_hosts` hosts: it comes back to its sender, has a legal length, and the
-- marker stands at the front of its source or of its destination address.
use Prim.Native.Nat.{ℕ, ◌%◌, ◌*◌, ◌+◌, ◌-◌, ◌<◌, ◌≤◌}
use Prim.Native.String.{String}
use mathlib.Core.List.{List, [], append_assoc, ◌++◌, ◌∷◌}
use mathlib.Core.Logic.{inl, inr, ◌⊎◌}
use mathlib.Core.Option.{Option}
use mathlib.Core.Path.{refl, ◌∙◌, ◌≡◌}
use native.Mathlib.Omega.{arith}
use p4_cases.L2.Collect.{
  Collects, Collects-append, Collects-bind, Collects-for_each, length-range, range, range-bounds,
}
use p4_cases.L2.Content.{
  Builds, Kind, arp_packet-Builds, content_total, ipv4_udp-Builds, ipv6_udp-Builds, opaque,
}
use p4_cases.L2.Datagram.{ipv6_udp}
use p4_cases.L2.Frame.{IsMarker, length-with_source, make_frame_run, marked, marked-IsWire}
use p4_cases.Prelude.Lists.{
  All, All-get_elem?, All-of, get_elem?_total, length, length-append, replicate, take, take-append,
  take-take_append,
}
use p4_cases.Prelude.Result.{for_each, ok, ◌>>=◌}
use p4_cases.Prelude.Tests.{lt→ltb}
use p4_cases.Reflector.{host_ip, host_mac, host_valid, ipv4_udp}
use p4_cases.Reflector.Probes.{
  Probe, add, add_kinds, add_sender, add_source, arp_request, destinations, kinds, make_probes,
  repeat_last, source_of, sources,
}
use p4_cases.Wire.Bytes.{be16, byte_range, length-byte_range, ljust, slice}

pub record IsProbe (prefix : List ℕ) (n_hosts : ℕ) (p : Probe) : Type 0 where
  pub reflected : p.receiver ≡ p.sender
  pub from_host : (1 ≤ p.sender) × (p.sender ≤ n_hosts)
  pub minimum : 60 ≤ length p.frame
  pub maximum : length p.frame ≤ 1514
  pub captured : (slice 6 10 p.frame ≡ prefix) ⊎ (take 4 p.frame ≡ prefix)

host_ip_run : (n : ℕ) → 1 ≤ n → n ≤ 254 → host_ip n ≡ ok (record { a = 10; b = 0; c = 0; d = n })
unfolding host_ip
host_ip_run n lo hi = rw (host_valid n lo hi)

host_mac_run : (n : ℕ) → 1 ≤ n → n ≤ 254 → host_mac n ≡ ok (0 ∷ 0 ∷ 0 ∷ 0 ∷ 0 ∷ n ∷ [])
unfolding host_mac
host_mac_run n lo hi = rw (host_valid n lo hi)

module _ (prefix : List ℕ) (m : IsMarker prefix) (n_hosts : ℕ) (few : n_hosts ≤ 254)
    (sender receiver : ℕ) (s_lo : 1 ≤ sender) (s_hi : sender ≤ n_hosts) (r_lo : 1 ≤ receiver)
    (r_hi : receiver ≤ n_hosts) where
  abbrev Good : Probe → Type 0
  Good = IsProbe prefix n_hosts

  arp-Builds :
      (identification : ℕ)
      → identification < 65536
      → Builds (arp_request prefix sender receiver identification)
  unfolding arp_request
  arp-Builds identification h =
      rw (lt→ltb _ _ h, lt→ltb sender 256 (omega arith), lt→ltb receiver 256 (omega arith))
        (arp_packet-Builds 1 (prefix ++ be16 identification) (198 ∷ 18 ∷ 0 ∷ sender ∷ [])
          (replicate 6 0) (198 ∷ 18 ∷ 1 ∷ receiver ∷ []) (omega arith))

  add-Collects :
      (name : String) (destination : List ℕ) (kind : Kind) (s : List Probe)
      → length destination ≡ 6
      → All Good s
      → length s + 1 ≤ 65535
      → Collects Good (length s + 1) (add prefix name sender receiver destination kind s)
  unfolding add
  add-Collects name destination kind s d g h =
      let id : ℕ = length s + 1 in
      let host = host_ip_run receiver r_lo (omega arith) in
      let v4 = λ (ttl : ℕ) (t : ttl < 256).
        ipv4_udp-Builds host_ip sender receiver id ttl host (omega arith) (omega arith)
          (omega arith) t in
      let v6 = λ (hop : ℕ) (t : hop < 256).
        ipv6_udp-Builds sender receiver id hop (omega arith) (omega arith) (omega arith) t in
      let (packet, e, hi, lo) = v4 64 (omega arith) in
      let (r, er, ht, hb) =
        content_total id packet (λ ttl. ipv4_udp sender receiver id ttl)
          (λ hop. ipv6_udp sender receiver id hop) (arp_request prefix sender receiver id)
          (omega arith) hi lo kind (v4 0 (omega arith)) (v4 1 (omega arith)) (v6 0 (omega arith))
          (v6 64 (omega arith)) (arp-Builds id (omega arith)) in
      let w = marked-IsWire prefix id destination r.0 r.1 m d hb in
      rw
        (
          e,
          er,
          make_frame_run 65536 prefix id destination r.0 r.1 m d (omega arith) (omega arith) ht,
        )
        (Collects-append Good s _ (length s + 1) (omega arith) g (record {
          reflected = refl;
          from_host = (s_lo, s_hi);
          minimum = w.minimum;
          maximum = w.maximum;
          captured = inl w.source_marked;
        }))

  add_kinds-Collects :
      (entry : String × List ℕ) (s : List Probe)
      → length entry.1 ≡ 6
      → All Good s
      → length s + 12 ≤ 65535
      → Collects Good (length s + 12) (add_kinds prefix sender receiver entry s)
  unfolding add_kinds
  add_kinds-Collects (label, destination) s d g h =
      Collects-for_each Good (λ _. Unit {0}) 1 65535 _
        (λ x s' v g' b. add-Collects _ destination x.0 s' d g' b) kinds s _
        (All-of _ (λ _. tt) kinds) g (omega arith) h

  add_source-Collects :
      (entry : String × Option (List ℕ)) (s : List Probe)
      → length (source_of (prefix ++ be16 (length s + 1)) entry.1) ≡ 6
      → All Good s
      → length s + 1 ≤ 65535
      → Collects Good (length s + 1) (add_source prefix sender entry s)
  unfolding add_source
  add_source-Collects (label, given) s d g h =
      let id : ℕ = length s + 1 in
      let destination : List ℕ = prefix ++ be16 id in
      let dl : length destination ≡ 6 = omega (arith, m.four, length-append prefix (be16 id)) in
      let body : List ℕ = byte_range 31 0 in
      let whole : List ℕ = marked prefix id destination 0x88b5 body in
      let frame : List ℕ = ljust 60 0xa5 whole in
      let w =
        marked-IsWire prefix id destination 0x88b5 body m dl
          (omega (arith, length-byte_range 31 0)) in
      let n = length-with_source frame (source_of destination given) d (omega (arith, w.minimum)) in
      let t : take 4 frame ≡ prefix =
        unfold ljust in simp append_assoc (take-append 4 prefix _ m.four) in
      rw
        (
          lt→ltb id 65536 (omega arith),
          make_frame_run 65536 prefix id destination 0x88b5 body m dl (omega arith) (omega arith)
              (omega arith),
        )
        (Collects-append Good s _ (length s + 1) (omega arith) g (record {
          reflected = refl;
          from_host = (s_lo, s_hi);
          minimum = omega (arith, n, w.minimum);
          maximum = omega (arith, n, w.maximum);
          captured =
              inr (take-take_append 4 6 frame _ (omega arith) (omega (arith, w.minimum)) ∙ t);
        }))

  repeat_last-Collects :
      (repeat : ℕ) (s : List Probe)
      → 1 ≤ length s
      → All Good s
      → Collects Good (length s + 1) (repeat_last sender repeat s)
  unfolding repeat_last
  repeat_last-Collects repeat s lo g =
      let (p, e) = get_elem?_total s (length s - 1) (omega arith) in
      let q : Good p = All-get_elem? Good s (length s - 1) p g e in
      rw e (
        Collects-append Good s _ (length s + 1) (omega arith) g (record {
          reflected = q.reflected;
          from_host = q.from_host;
          minimum = q.minimum;
          maximum = q.maximum;
          captured = q.captured;
        }))

  repeats-Collect :
      (s : List Probe)
      → 1 ≤ length s
      → All Good s
      → Collects Good (length s + 2) (for_each (repeat_last sender) (1 ∷ 2 ∷ []) s)
  unfolding for_each
  repeats-Collect s lo g = Collects-bind Good _ _ _ _ (repeat_last-Collects 1 s lo g) λ s1 l1 g1.
      Collects-bind Good _ _ _ _ (repeat_last-Collects 2 s1 (omega arith) g1)
        λ s2 l2 g2. (s2, refl, omega arith, g2)

-- Every destination is an address, and so is every source.
abbrev mac : ℕ → List ℕ
mac n = 0 ∷ 0 ∷ 0 ∷ 0 ∷ 0 ∷ n ∷ []

destinations-length : (n k : ℕ) → All (λ e. length e.1 ≡ 6) (destinations (mac n) (mac k))
destinations-length n k = omega arith

abbrev IsSource : String × Option (List ℕ) → Type 0
IsSource e = (own : List ℕ) → length own ≡ 6 → length (source_of own e.1) ≡ 6

sources-IsSource : (n : ℕ) → All IsSource (sources (mac n))
sources-IsSource n = (λ _ _. refl, (λ _ _. refl, (λ _ _. refl, (λ _ _. refl, (λ own h. h, tt)))))

-- One sender adds 92 probes.
module _ (prefix : List ℕ) (m : IsMarker prefix) (n_hosts : ℕ) (some_host : 1 ≤ n_hosts)
    (few : n_hosts ≤ 254) where
  abbrev Probes : Probe → Type 0
  Probes = IsProbe prefix n_hosts

  module _ (sender : ℕ) (lo : 1 ≤ sender) (s_hi : sender ≤ n_hosts) (receiver : ℕ)
      (r_lo : 1 ≤ receiver) (r_hi : receiver ≤ n_hosts) where
    kinds-Collect :
        (s : List Probe)
        → All Probes s
        → length s + 84 ≤ 65535
        → Collects Probes (length s + 84) (
            for_each
              (add_kinds prefix sender receiver)
              (destinations (mac receiver) (mac sender))
              s)
    kinds-Collect s g h =
        Collects-for_each Probes (λ e. length e.1 ≡ 6) 12 65535 _
          (λ e s' v g' b.
            add_kinds-Collects prefix m n_hosts few sender receiver lo s_hi r_lo r_hi e s' v g' b)
          (destinations (mac receiver) (mac sender)) s (length s + 84)
          (destinations-length receiver sender) g (omega arith) h

    sources-Collect :
        (s : List Probe)
        → All Probes s
        → length s + 5 ≤ 65535
        → Collects Probes
            (length s + 5)
            (for_each (add_source prefix sender) (sources (mac sender)) s)
    sources-Collect s g h =
        Collects-for_each Probes IsSource 1 65535 _
          (λ e s' v g' b.
            let own : List ℕ = prefix ++ be16 (length s' + 1) in
            let n : length own ≡ 6 =
              omega (arith, m.four, length-append prefix (be16 (length s' + 1))) in
            add_source-Collects prefix m n_hosts few sender receiver lo s_hi r_lo r_hi e s'
              (v own n) g' b)
          (sources (mac sender)) s (length s + 5) (sources-IsSource sender) g (omega arith) h

    phases-Collect :
        (name : String) (s : List Probe)
        → All Probes s
        → length s + 92 ≤ 65535
        → Collects Probes (length s + 92) (do
          filled ←
              for_each
                (add_kinds prefix sender receiver)
                (destinations (mac receiver) (mac sender))
                s
          one ← add prefix name sender receiver (mac receiver) opaque filled
          repeated ← for_each (repeat_last sender) (1 ∷ 2 ∷ []) one
          for_each (add_source prefix sender) (sources (mac sender)) repeated)
    phases-Collect name s g h =
        Collects-bind Probes _ _ _ _ (kinds-Collect s g (omega arith)) λ s1 l1 g1.
          Collects-bind Probes _ _ _ _
            (add-Collects prefix m n_hosts few sender receiver lo s_hi r_lo r_hi name (mac receiver)
              opaque s1 refl g1 (omega arith))
            λ s2 l2 g2.
              Collects-bind Probes _ _ _ _
                (repeats-Collect prefix m n_hosts few sender receiver lo s_hi r_lo r_hi s2
                  (omega arith) g2)
                λ s3 l3 g3.
                  let e : length s3 + 5 ≡ length s + 92 = omega arith in
                  rw (← e) (sources-Collect s3 g3 (omega arith))

  add_sender-Collects :
      (sender : ℕ) (s : List Probe)
      → (1 ≤ sender) × (sender < 1 + n_hosts)
      → All (IsProbe prefix n_hosts) s
      → length s + 92 ≤ 65535
      → Collects (IsProbe prefix n_hosts) (length s + 92) (add_sender prefix n_hosts sender s)
  unfolding add_sender
  add_sender-Collects sender s (lo, hi) g h =
      let receiver : ℕ = sender % n_hosts + 1 in
      let r_lo : 1 ≤ receiver = omega arith in
      let r_hi : receiver ≤ n_hosts = omega arith in
      let s_hi : sender ≤ n_hosts = omega arith in
      rw (host_mac_run receiver r_lo (omega arith), host_mac_run sender lo (omega arith))
        (phases-Collect sender lo s_hi receiver r_lo r_hi _ s g h)

  -- For a marker of four bytes with an individual first byte and 1 to 254 hosts `make_probes` returns
  -- 92 probes a host, each of them back to its sender, of 60 to 1514 bytes, and with the marker where
  -- the receivers look for it.
  pub make_probes-IsProbe :
      (ps : List Probe) × (make_probes prefix n_hosts ≡ ok ps)
      × (length ps ≡ 92 * n_hosts)
      × All (IsProbe prefix n_hosts) ps
  unfolding make_probes
  make_probes-IsProbe = rw (host_valid n_hosts some_host few) (
      Collects-for_each Probes (λ i. (1 ≤ i) × (i < 1 + n_hosts)) 92 65535 _
        (λ sender s v g b. add_sender-Collects sender s v g b) (range 1 n_hosts) [] (92 * n_hosts)
        (range-bounds 1 n_hosts (1 + n_hosts) (omega arith)) tt
        (omega (arith, length-range 1 n_hosts)) (omega arith))
