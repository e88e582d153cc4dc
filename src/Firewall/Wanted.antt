-- ===== src/Firewall/Wanted.antt =====
-- Which frames the probes of the access-list case entitle a host to, and which captured frames are
-- of a probe.
use Prim.Native.Nat.{ℕ, ◌+◌}
use mathlib.Core.Bool.{Bool, false, true, ◌||◌}
use mathlib.Core.List.{List, [], ◌++◌, ◌∷◌}
use mathlib.Core.Logic.{inl, inr, ◌≢◌}
use mathlib.Core.Path.{ap, refl, subst, sym, ◌≡◌}
use native.Mathlib.Omega.{arith}
use p4_cases.Firewall.Delivered.{count_observed, expected_at, has_source, wanted_of}
use p4_cases.Firewall.Vectors.{Probe}
use p4_cases.Prelude.Lists.{drop, length, take}
use p4_cases.Prelude.Tests.{==→eq, Bool-cases, eq→==, ◌==◌}
use p4_cases.Wire.Bytes.{bytes_eq, bytes_eq_refl, bytes_eq→eq, slice}

-- The host is owed the frames of the allowed probes to it, and no others.
pub data Owed (host : ℕ) : List Probe → List (List ℕ) → Type 0 where
  no_probe : Owed host [] []
  delivered :
      (p : Probe) (probes : List Probe) (frames : List (List ℕ))
      → p.receiver ≡ host
      → p.allowed ≡ true
      → Owed host probes frames
      → Owed host (p ∷ probes) (p.frames ++ frames)
  dropped :
      (p : Probe) (probes : List Probe) (frames : List (List ℕ))
      → p.allowed ≡ false
      → Owed host probes frames
      → Owed host (p ∷ probes) frames
  elsewhere :
      (p : Probe) (probes : List Probe) (frames : List (List ℕ))
      → p.receiver ≢ host
      → Owed host probes frames
      → Owed host (p ∷ probes) frames

-- One of the sent frames has the source address of the frame, its bytes 6 to 11.
pub data HasSource (frame : List ℕ) : List (List ℕ) → Type 0 where
  at_head :
      (f : List ℕ) (sent : List (List ℕ))
      → take 6 (drop 6 f) ≡ take 6 (drop 6 frame)
      → HasSource frame (f ∷ sent)
  in_tail : (f : List ℕ) (sent : List (List ℕ)) → HasSource frame sent → HasSource frame (f ∷ sent)

-- Of the captured frames, so many have a source address of the sent ones.
pub data Observed (sent : List (List ℕ)) : List (List ℕ) → ℕ → Type 0 where
  no_frame : Observed sent [] 0
  its_own :
      (frame : List ℕ) (captured : List (List ℕ)) (n : ℕ)
      → HasSource frame sent
      → Observed sent captured n
      → Observed sent (frame ∷ captured) (1 + n)
  another :
      (frame : List ℕ) (captured : List (List ℕ)) (n : ℕ)
      → ¬ HasSource frame sent
      → Observed sent captured n
      → Observed sent (frame ∷ captured) n

pub expected_at-Owed : (host : ℕ) (probes : List Probe) → Owed host probes (expected_at probes host)
unfolding expected_at
expected_at-Owed host [] = no_probe
expected_at-Owed host (p ∷ probes) =
    let rest = expected_at-Owed host probes in
    elim (Bool-cases (p.receiver == host)) [
      | inl r ↦ elim (Bool-cases p.allowed) [
        | inl a ↦ by_list (rw (r, a) refl) (delivered p probes _ (==→eq _ _ r) a rest)
        | inr a ↦ by_list (rw (r, a) refl) (dropped p probes _ a rest)
      ]
      | inr r ↦ by_list (rw r refl) (elsewhere p probes _ (λ e. let t = eq→== _ _ e in cc) rest)
    ]
  where
    by_list :
        {all : List Probe} {xs ys : List (List ℕ)} → xs ≡ ys → Owed host all ys → Owed host all xs
    by_list {all} e = subst (Owed host all) (sym e)

pub Owed-expected_at :
    (host : ℕ) (probes : List Probe) (frames : List (List ℕ))
    → Owed host probes frames
    → frames ≡ expected_at probes host
unfolding expected_at
Owed-expected_at host [] frames no_probe = refl
Owed-expected_at host (p ∷ probes) frames (delivered _ _ rest r a o) =
    rw (eq→== _ _ r, a) (ap (λ xs. p.frames ++ xs) (Owed-expected_at host probes rest o))
Owed-expected_at host (p ∷ probes) frames (dropped _ _ _ a o) =
    let e = Owed-expected_at host probes frames o in
    rw a (elim (Bool-cases (p.receiver == host)) [ inl t ↦ rw t e | inr t ↦ rw t e ])
Owed-expected_at host (p ∷ probes) frames (elsewhere _ _ _ r o) =
    let e = Owed-expected_at host probes frames o in
    elim (Bool-cases (p.receiver == host)) [ inl t ↦ absurd (r (==→eq _ _ t)) | inr t ↦ rw t e ]

eq→bytes_eq : (xs ys : List ℕ) → xs ≡ ys → bytes_eq xs ys ≡ true
eq→bytes_eq xs ys e = subst (λ zs. bytes_eq xs zs ≡ true) e (bytes_eq_refl xs)

||-true_left : (a b : Bool) → a ≡ true → (a || b) ≡ true
||-true_left a b h = ground arith

||-true_right : (a b : Bool) → b ≡ true → (a || b) ≡ true
||-true_right a b h = ground arith

HasSource-has_source :
    (frame : List ℕ) (sent : List (List ℕ)) → HasSource frame sent → has_source sent frame ≡ true
unfolding has_source
HasSource-has_source frame [] h = elim h [ ]
HasSource-has_source frame (f ∷ sent) (at_head _ _ e) =
    ||-true_left _ _ (eq→bytes_eq (slice 6 12 f) (slice 6 12 frame) e)
HasSource-has_source frame (f ∷ sent) (in_tail _ _ h) =
    ||-true_right (bytes_eq (slice 6 12 f) (slice 6 12 frame)) _ (HasSource-has_source frame sent h)

has_source-HasSource :
    (frame : List ℕ) (sent : List (List ℕ)) → has_source sent frame ≡ true → HasSource frame sent
unfolding has_source
has_source-HasSource frame [] h = cc
has_source-HasSource frame (f ∷ sent) h =
    elim (Bool-cases (bytes_eq (slice 6 12 f) (slice 6 12 frame))) [
      | inl e ↦ at_head f sent (bytes_eq→eq _ _ e)
      | inr e ↦
          let t : has_source sent frame ≡ true = ground arith in
          in_tail f sent (has_source-HasSource frame sent t)
    ]

pub count_observed-Observed :
    (sent captured : List (List ℕ)) → Observed sent captured (count_observed sent captured)
unfolding count_observed
count_observed-Observed sent [] = no_frame
count_observed-Observed sent (frame ∷ captured) =
    let rest = count_observed-Observed sent captured in
    elim (Bool-cases (has_source sent frame)) [
      | inl e ↦
          subst (Observed sent (frame ∷ captured)) (sym (rw e (omega arith)))
            (its_own frame captured _ (has_source-HasSource frame sent e) rest)
      | inr e ↦
          subst (Observed sent (frame ∷ captured)) (sym (rw e (omega arith)))
            (another frame captured _ (λ h. let t = HasSource-has_source frame sent h in cc) rest)
    ]

pub Observed-count_observed :
    (sent captured : List (List ℕ)) (n : ℕ)
    → Observed sent captured n
    → n ≡ count_observed sent captured
unfolding count_observed
Observed-count_observed sent [] n no_frame = refl
Observed-count_observed sent (frame ∷ captured) n (its_own _ _ m h o) =
    rw (HasSource-has_source frame sent h)
      (ap (λ k. 1 + k) (Observed-count_observed sent captured m o))
Observed-count_observed sent (frame ∷ captured) n (another _ _ _ h o) =
    elim (Bool-cases (has_source sent frame)) [
      | inl e ↦ absurd (h (has_source-HasSource frame sent e))
      | inr e ↦ rw e (omega (arith, Observed-count_observed sent captured n o))
    ]

-- All frames of an allowed probe, and none of another.
pub record IsWanted (p : Probe) (n : ℕ) : Type 0 where
  pub all_allowed : p.allowed ≡ true → n ≡ length p.frames
  pub none_denied : p.allowed ≡ false → n ≡ 0

pub wanted_of-IsWanted : (p : Probe) → IsWanted p (wanted_of p)
wanted_of-IsWanted p = record { all_allowed = λ e. rw e refl; none_denied = λ e. rw e refl }

pub IsWanted-wanted_of : (p : Probe) (n : ℕ) → IsWanted p n → n ≡ wanted_of p
IsWanted-wanted_of p n h = elim (Bool-cases p.allowed) [
  | inl e ↦ rw e (h.all_allowed e)
  | inr e ↦ rw e (h.none_denied e)
]
