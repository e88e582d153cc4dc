-- ===== src/Runs/Vxlan.antt =====
-- One inner frame encapsulated, and the probes of one prefix.
use Prim.Native.Nat.{ℕ, ◌+◌, ◌≤◌}
use mathlib.Core.List.{List, [], ◌∷◌}
use mathlib.Core.Logic.{◌⊎◌}
use mathlib.Core.Path.{refl, ◌≡◌}
use native.Mathlib.Omega.{arith}
use p4_cases.Prelude.Lists.{length, replicate}
use p4_cases.Prelude.Result.{err, ok, value_error}
use p4_cases.Vxlan.{encapsulate}
use p4_cases.Vxlan.Outer.{Carries, encapsulate-Carries, encapsulate_domain}
use p4_cases.Vxlan.Probes.{Probe, make_probes, shapes}
use p4_cases.Vxlan.Run.{IsRun, make_probes-IsRun}

abbrev inner : List ℕ
inner = replicate 60 7

encapsulate_short : encapsulate (replicate 13 7) ≡ err value_error
unfolding encapsulate
encapsulate_short = refl

encapsulate-Carries_example :
    (e : List ℕ) × (encapsulate inner ≡ ok e) × (length e ≡ 50 + length inner) × Carries inner e
encapsulate-Carries_example = encapsulate-Carries inner (omega arith) (omega arith)

encapsulate_domain_example :
    ((14 ≤ length inner)
      × (36 + length inner ≤ 65535)
      × ((e : List ℕ) × (encapsulate inner ≡ ok e)))
    ⊎ (¬ ((14 ≤ length inner) × (36 + length inner ≤ 65535))
        × (encapsulate inner ≡ err value_error))
encapsulate_domain_example = encapsulate_domain inner

abbrev marker : List ℕ
marker = 2 ∷ 0x77 ∷ 0x10 ∷ 0x20 ∷ []

make_probes-IsRun_example :
    (ps : List Probe) × (make_probes marker ≡ ok ps) × IsRun marker 1 shapes ps
make_probes-IsRun_example = make_probes-IsRun marker refl
