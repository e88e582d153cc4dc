-- ===== src/Vxlan/Run.antt =====
-- A whole run of `make_probes`: every shape in order, five frames each, numbered through.
use Prim.Native.Nat.{ℕ, ◌*◌, ◌+◌, ◌<◌}
use mathlib.Core.Bool.{true}
use mathlib.Core.List.{List, [], append-nil, append_assoc, ◌++◌, ◌∷◌}
use mathlib.Core.Path.{ap₂, refl, subst, sym, ◌≡◌}
use native.Mathlib.Omega.{arith}
use p4_cases.L2.Collect.{range}
use p4_cases.Prelude.Lists.{All, length}
use p4_cases.Prelude.Result.{for_each, ok}
use p4_cases.Prelude.Tests.{eq→==, ◌==◌}
use p4_cases.Vxlan.Inner.{IsInner, Legal, build-IsInner, shapes-Legal}
use p4_cases.Vxlan.Probes.{Probe, Shape, add_frame, add_shape, make_probes, shapes}

abbrev pub Numbered : List ℕ → Shape → ℕ → List (List ℕ) → Type 0
Numbered prefix shape first [] = Unit {0}
Numbered prefix shape first (f ∷ fs) =
    IsInner prefix shape first f × Numbered prefix shape (first + 1) fs

-- The probes of a list of shapes, from the sequence number `first` on.
abbrev pub IsRun : List ℕ → ℕ → List Shape → List Probe → Type 0
IsRun prefix first [] [] = Unit {0}
IsRun prefix first [] (p ∷ ps) = ⊥
IsRun prefix first (shape ∷ rest) [] = ⊥
IsRun prefix first (shape ∷ rest) (p ∷ ps) =
    (p.name ≡ shape.name)
    × (p.allowed ≡ shape.allowed)
    × (length p.frames ≡ 5)
    × Numbered prefix shape first p.frames
    × IsRun prefix (first + 5) rest ps

module _ (prefix : List ℕ) (four : length prefix ≡ 4) where
  frames-Numbered :
      (shape : Shape) (rounds : List ℕ) (n : ℕ) (fs : List (List ℕ))
      → Legal shape
      → n + length rounds < 65536
      → (gs : List (List ℕ)) × (for_each (add_frame prefix shape) rounds (n, fs)
          ≡ ok (n + length rounds, fs ++ gs))
        × (length gs ≡ length rounds)
        × Numbered prefix shape (n + 1) gs
  unfolding for_each add_frame
  frames-Numbered shape [] n fs legal h =
      ([], ap₂ (λ a b. ok (a, b)) (omega arith) (sym (append-nil fs)), refl, tt)
  frames-Numbered shape (round ∷ rounds) n fs legal h =
      let (f, run, inner) = build-IsInner prefix four shape legal (n + 1) (omega arith) in
      let (gs, rest, l, numbered) =
        frames-Numbered shape rounds (n + 1) (fs ++ f ∷ []) legal (omega arith) in
      (
        f ∷ gs,
        rw (run, rest) (ap₂ (λ a b. ok (a, b)) (omega arith) (append_assoc fs (f ∷ []) gs)),
        omega arith,
        (inner, numbered),
      )

  shapes-IsRun :
      (ss : List Shape) (n : ℕ) (ps : List Probe)
      → All Legal ss
      → n + 5 * length ss < 65536
      → (qs : List Probe) × (for_each (add_shape prefix) ss (n, ps)
          ≡ ok (n + 5 * length ss, ps ++ qs))
        × IsRun prefix (n + 1) ss qs
  unfolding for_each add_shape
  shapes-IsRun [] n ps legal h =
      ([], ap₂ (λ a b. ok (a, b)) (omega arith) (sym (append-nil ps)), tt)
  shapes-IsRun (shape ∷ ss) n ps legal h =
      let (fs, run, l, numbered) = frames-Numbered shape (range 0 5) n [] legal.0 (omega arith) in
      let p : Probe = record { name = shape.name; allowed = shape.allowed; frames = fs } in
      let (qs, rest, spec) = shapes-IsRun ss (n + 5) (ps ++ p ∷ []) legal.1 (omega arith) in
      let renumber : n + 5 + 1 ≡ n + 1 + 5 = omega arith in
      (
        p ∷ qs,
        rw (run, rest) (ap₂ (λ a b. ok (a, b)) (omega arith) (append_assoc ps (p ∷ []) qs)),
        (refl, refl, l, numbered, subst (λ k. IsRun prefix k ss qs) renumber spec),
      )

-- For a prefix of four bytes `make_probes` returns one probe for each shape, in order and under its
-- name, with five frames of the shape's size whose sequence numbers, in the last two source bytes,
-- count from 1 through the whole run; a frame has the destination that the table knows exactly if
-- the shape is allowed, and `encapsulate` accepts it.
pub make_probes-IsRun :
    (prefix : List ℕ)
    → length prefix ≡ 4
    → (ps : List Probe) × (make_probes prefix ≡ ok ps) × IsRun prefix 1 shapes ps
unfolding make_probes
make_probes-IsRun prefix four =
    let (ps, run, spec) = shapes-IsRun prefix four shapes 0 [] shapes-Legal (omega arith) in
    let g : (length prefix == 4) ≡ true = eq→== _ _ four in (ps, rw (g, run) refl, spec)
