-- ===== src/Runtime/Ready.antt =====
-- `lines_for` and `wait_ready` of `Controller`.
use Prim.Native.Nat.{◌<◌}
use Prim.Native.String.{String}
use mathlib.Core.Bool.{Bool, false, true}
use mathlib.Core.List.{List, [], ◌++◌, ◌∷◌}
use mathlib.Core.Option.{Option, none, some}
use mathlib.Core.Path.{refl, ◌≡◌}
use native.Mathlib.Omega.{arith}
use p4_cases.Prelude.Lists.{All, length}
use p4_cases.Prelude.Result.{Result, err, ok}
use p4_cases.Prelude.Tests.{if◌then◌else◌}
use p4_cases.Runtime.{Controller, Event, during, look, readline, settle}

-- One iteration of `lines_for` before its deadline: what the reader does before it, and the waits of
-- its `readline`.
pub record Turn : Type 0 where
  pub before : List Event
  pub waits_left : List (List Event)

-- the rest of `wait_ready` after a `readline`; `matches` is `banner in line`
abbrev pub after_line :
    (String → Bool)
    → (Controller → Result Bool × Controller)
    → Result (Option String) × (List (List Event) × Controller)
    → Result Bool × Controller
after_line matches next (err raised, (unused, c)) = (err raised, c)
after_line matches next (ok none, (unused, c)) = (ok false, c)
after_line matches next (ok (some text), (unused, c)) =
    let rest = next c in if matches text then (ok true, c) else rest

-- `any(banner in line for line in self.lines_for(timeout))`
unfoldable pub wait_ready : (String → Bool) → List Turn → Controller → Result Bool × Controller
unfolding readline during
wait_ready matches [] c = (ok false, c)
wait_ready matches (turn ∷ turns) c =
    after_line matches (wait_ready matches turns) (readline turn.waits_left (during turn.before c))

-- The reader is idle between the lines.
abbrev pub IsQuiet : Turn → Type 0
IsQuiet turn = turn.before ≡ []

-- A controller that has neither overflowed nor failed.
abbrev pub IsSound : Controller → Type 0
IsSound c = (c.overflow ≡ false) × (c.error ≡ false)

readline_next :
    (unused : List (List Event)) (c : Controller) (text : String) (rest : List String)
    → IsSound c
    → c.lines ≡ text ∷ rest
    → readline unused c ≡ (ok (some text), (unused, record c { lines = rest }))
unfolding readline look settle
readline_next unused c text rest (o, e) h = rw (o, e, h) refl

-- A matching line that is in the queue, behind lines that do not match, is found: if there is a turn
-- for it and for each of these lines, while the reader is idle and the controller has neither
-- overflowed nor failed, `wait_ready` returns true and takes the lines up to this one.
pub wait_ready-line :
    (matches : String → Bool) (turns : List Turn) (c : Controller) (earlier : List String)
    (text : String) (later : List String)
    → IsSound c
    → c.lines ≡ earlier ++ (text ∷ later)
    → All (λ l. matches l ≡ false) earlier
    → matches text ≡ true
    → length earlier < length turns
    → All IsQuiet turns
    → wait_ready matches turns c ≡ (ok true, record c { lines = later })
unfolding wait_ready during
wait_ready-line matches [] c earlier text later sound h none_before hit enough quiet =
    absurd (omega arith)
wait_ready-line matches (turn ∷ turns) c [] text later sound h none_before hit enough (q, quiet) =
    rw (q, readline_next turn.waits_left c text later sound h, hit) refl
wait_ready-line matches (turn ∷ turns) c (l ∷ earlier) text later sound h (miss, none_before) hit
      enough (q, quiet) =
    rw (q, readline_next turn.waits_left c l (earlier ++ (text ∷ later)) sound h, miss)
      (wait_ready-line matches turns (record c { lines = earlier ++ (text ∷ later) }) earlier text
        later sound refl none_before hit (omega arith) quiet)
