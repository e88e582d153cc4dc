-- ===== src/Runs/Processes.antt =====
-- The closing of one controller, and a controller that becomes ready.
use Prim.Native.String.{String}
use mathlib.Core.Bool.{Bool, false, true}
use mathlib.Core.List.{[], ◌∷◌}
use mathlib.Core.Path.{refl, ◌≡◌}
use native.Mathlib.Omega.{arith}
use text.Mathlib.Text.{starts_with}
use p4_cases.Prelude.Result.{ok}
use p4_cases.Runtime.{Controller}
use p4_cases.Runtime.Processes.{IsStopped, Process, close, close-IsStopped}
use p4_cases.Runtime.Ready.{Turn, wait_ready, wait_ready-line}

abbrev process : Process
process = record { interactive = true; reader_started = true; closed = false }

close-IsStopped_example :
    IsStopped (close true true process).0
    × (close false false (close true true process).1 ≡ ([], (close true true process).1))
close-IsStopped_example = close-IsStopped true true false false process refl

abbrev waiting : Controller
waiting = record {
  lines = "starting" ∷ "ready" ∷ "later" ∷ [];
  eof = false;
  overflow = false;
  error = false;
}

-- The banner of the example.
abbrev is_ready : String → Bool
is_ready text = starts_with text "ready"

abbrev turn : Turn
turn = record { before = []; waits_left = [] }

wait_ready-line_example :
    wait_ready is_ready (turn ∷ turn ∷ []) waiting
    ≡ (ok true, record { lines = "later" ∷ []; eof = false; overflow = false; error = false })
wait_ready-line_example =
    wait_ready-line is_ready (turn ∷ turn ∷ []) waiting ("starting" ∷ []) "ready" ("later" ∷ [])
      (refl, refl) refl (refl, tt) refl (omega arith) (refl, (refl, tt))
