-- ===== src/Runtime/Queue.antt =====
-- No line of a controller is lost, repeated or reordered.
use Prim.Native.Nat.{◌<◌, ◌≤◌}
use Prim.Native.String.{String}
use mathlib.Core.Bool.{Bool, false, true}
use mathlib.Core.List.{List, [], append-nil, append_assoc, ◌++◌, ◌∷◌}
use mathlib.Core.Logic.{inl, inr}
use mathlib.Core.Option.{Option, none, some}
use mathlib.Core.Path.{ap, refl, subst, sym, ◌∙◌, ◌≡◌}
use native.Mathlib.Omega.{arith}
use p4_cases.Prelude.Lists.{drop, length, length-append, length-drop}
use p4_cases.Prelude.Result.{Result, err, ok}
use p4_cases.Prelude.Tests.{==→eq, Bool-cases, if◌then◌else◌, ◌==◌}
use p4_cases.Runtime.{
  Controller, Event, Look, append_bounded, during, ended, failure, finish, line, look,
  new_controller, output, pop_line, read_output, readline, refused, settle, waits,
}

abbrev pub produced : Event → List String
produced (output text) = text ∷ []
produced failure = []
produced finish = []

abbrev pub delivered : Look → List String
delivered (line text) = text ∷ []
delivered refused = []
delivered ended = []
delivered waits = []

-- `Reaches a d c`: after the process has written the lines `a` and `readline` has returned the lines
-- `d`, the state is `c`.
pub data Reaches : List String → List String → Controller → Type 0 where
  start : Reaches [] [] new_controller
  reads :
      {a d : List String} {c : Controller}
      → Reaches a d c
      → (e : Event) → Reaches (a ++ produced e) d (read_output e c)
  looks :
      {a d : List String} {c : Controller}
      → Reaches a d c
      → Reaches a (d ++ delivered (look c).0) (look c).1

-- What holds in every state.
pub record Keeps (a d : List String) (c : Controller) : Type 0 where
  pub bounded : length c.lines ≤ 4096
  pub in_order : (rest : List String) × (a ≡ d ++ rest) × (c.overflow ≡ false → rest ≡ c.lines)

reads-Keeps :
    (a d : List String) (c : Controller) (e : Event)
    → Keeps a d c
    → Keeps (a ++ produced e) d (read_output e c)
unfolding read_output append_bounded
reads-Keeps a d c (output text) k =
    let (rest, e, same) = k.in_order in
    let shift : a ++ (text ∷ []) ≡ d ++ (rest ++ (text ∷ [])) =
      ap (λ xs. xs ++ (text ∷ [])) e ∙ append_assoc d rest (text ∷ []) in
    let bound = k.bounded in
    elim (Bool-cases (length c.lines == 4096)) [
      | inl full ↦ rw full (record {
        bounded = omega (
          arith,
          length-append (drop 1 c.lines) (text ∷ []),
          length-drop 1 c.lines,
          ==→eq _ _ full,
        );
        in_order = (rest ++ (text ∷ []), shift, λ h. cc);
      })
      | inr room ↦ rw room (record {
        bounded =
            let n : length c.lines < 4096 = ground arith in
            omega (arith, length-append c.lines (text ∷ []));
        in_order = (rest ++ (text ∷ []), shift, λ h. ap (λ xs. xs ++ (text ∷ [])) (same h));
      })
    ]
reads-Keeps a d c failure k =
    rw (append-nil a) (record { bounded = k.bounded; in_order = k.in_order })
reads-Keeps a d c finish k =
    rw (append-nil a) (record { bounded = k.bounded; in_order = k.in_order })

-- A round that returns no line leaves the state.
idle-Keeps :
    (a d : List String) (c : Controller) (at_end : Bool)
    → Keeps a d c
    → Keeps a (d ++ delivered (if at_end then ended else waits)) c
idle-Keeps a d c true k = rw (append-nil d) k
idle-Keeps a d c false k = rw (append-nil d) k

pop-Keeps :
    (a d ls : List String) (c : Controller)
    → c.lines ≡ ls
    → c.overflow ≡ false
    → Keeps a d c
    → Keeps a (d ++ delivered (pop_line ls c).0) (pop_line ls c).1
pop-Keeps a d [] c q o k = idle-Keeps a d c c.eof k
pop-Keeps a d (first ∷ later) c q o k =
    let (rest, e, same) = k.in_order in
    let bound = k.bounded in
    record {
      bounded = omega (arith, ap length q);
      in_order = (
        later,
        e ∙ ap (λ xs. d ++ xs) (same o ∙ q) ∙ sym (append_assoc d (first ∷ []) later),
        λ h. refl,
      );
    }

-- The outcome of a round, by the two guards.
abbrev round : Bool → Bool → Controller → Look × Controller
round overflow error c =
    if overflow then (refused, c) else if error then (refused, c) else pop_line c.lines c

round-Keeps :
    (a d : List String) (c : Controller) (overflow error : Bool)
    → c.overflow ≡ overflow
    → Keeps a d c
    → Keeps a (d ++ delivered (round overflow error c).0) (round overflow error c).1
round-Keeps a d c true error o k = rw (append-nil d) k
round-Keeps a d c false true o k = rw (append-nil d) k
round-Keeps a d c false false o k = pop-Keeps a d c.lines c refl o k

looks-Keeps :
    (a d : List String) (c : Controller)
    → Keeps a d c
    → Keeps a (d ++ delivered (look c).0) (look c).1
unfolding look
looks-Keeps a d c k = round-Keeps a d c c.overflow c.error refl k

-- In every state that a controller reaches, at most 4096 lines wait; the lines that `readline` has
-- returned are the first of those that the process has written, in order and with none left out; and
-- without an overflow the waiting lines are all the others.
pub Reaches-Keeps : (a d : List String) (c : Controller) → Reaches a d c → Keeps a d c
Reaches-Keeps a d c start = record { bounded = omega arith; in_order = ([], refl, λ h. refl) }
Reaches-Keeps a d c (reads {a = before} {c = earlier} r e) =
    reads-Keeps before d earlier e (Reaches-Keeps before d earlier r)
Reaches-Keeps a d c (looks {d = before} {c = earlier} r) =
    looks-Keeps a before earlier (Reaches-Keeps a before earlier r)

-- The lines that the process writes in the waits of a call.
abbrev pub written : List Event → List String
written [] = []
written (e ∷ es) = produced e ++ written es

abbrev pub returned : Result (Option String) → List String
returned (err e) = []
returned (ok none) = []
returned (ok (some text)) = text ∷ []

during-Reaches :
    (es : List Event) (a d : List String) (c : Controller)
    → Reaches a d c
    → Reaches (a ++ written es) d (during es c)
unfolding during
during-Reaches [] a d c r = rw (append-nil a) r
during-Reaches (e ∷ es) a d c r =
    rw (← append_assoc a (produced e) (written es))
      (during-Reaches es (a ++ produced e) d (read_output e c) (reads r e))

abbrev pub flatten : List (List Event) → List Event
flatten [] = []
flatten (es ∷ rest) = es ++ flatten rest

written-append : (xs ys : List Event) → written (xs ++ ys) ≡ written xs ++ written ys
written-append [] ys = refl
written-append (x ∷ xs) ys =
    ap (λ r. produced x ++ r) (written-append xs ys)
    ∙ sym (append_assoc (produced x) (written xs) (written ys))

-- The result `r` of a call in the state that wrote `a` and returned `d`, with `all` its waits.
abbrev pub Follows :
    List String
    → List String
    → List (List Event)
    → Result (Option String) × (List (List Event) × Controller)
    → Type 0
Follows a d all r =
    (used : List Event) × (flatten all ≡ used ++ flatten r.1.0)
    × Reaches (a ++ written used) (d ++ returned r.0) r.1.1

settle-Follows :
    (all : List (List Event)) (p : Look × Controller) (a d : List String)
    → Reaches a (d ++ delivered p.0) p.1
    → Follows a d all (settle all p)
unfolding settle
settle-Follows all (refused, c) a d r = ([], refl, rw (append-nil a) r)
settle-Follows all (line text, c) a d r = ([], refl, rw (append-nil a) r)
settle-Follows all (ended, c) a d r = ([], refl, rw (append-nil a) r)
settle-Follows [] (waits, c) a d r = ([], refl, rw (append-nil a) r)
settle-Follows (es ∷ later) (waits, c) a d r =
    let here : Reaches a d c = subst (λ xs. Reaches a xs c) (append-nil d) r in
    let next = looks (during-Reaches es a d c here) in
    let (used, e, after) = settle-Follows later (look (during es c)) (a ++ written es) d next in
    (
      es ++ used,
      ap (λ xs. es ++ xs) e ∙ sym (append_assoc es used _),
      rw (written-append es used, ← append_assoc a (written es) (written used)) after,
    )

-- A call of `readline` leads from a state that a controller reaches to one that it reaches: it takes
-- the events of its waits in order, up to the wait after which it returns, and the line that it
-- returns, if any, is the next one.
pub readline-Follows :
    (all : List (List Event)) (c : Controller) (a d : List String)
    → Reaches a d c
    → Follows a d all (readline all c)
unfolding readline
readline-Follows all c a d r = settle-Follows all (look c) a d (looks r)
