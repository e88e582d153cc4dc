-- ===== src/Runtime.antt =====
-- common/runtime.py: the line queue of `Controller` and the closing of `NetworkRuntime`. The reader
-- thread and `readline` run under one lock, so a run is a sequence of their critical sections.
pub mod Queue
pub mod Network
pub mod Closing
pub mod Processes
pub mod Ready
use Prim.Native.Nat.{ℕ}
use Prim.Native.String.{String}
use mathlib.Core.Bool.{Bool, false, true, ◌||◌}
use mathlib.Core.List.{List, [], ◌++◌, ◌∷◌}
use mathlib.Core.Option.{Option, none, some}
use p4_cases.Prelude.Lists.{drop, length}
use p4_cases.Prelude.Result.{Result, err, ok, runtime_error}
use p4_cases.Prelude.Tests.{if◌then◌else◌, ◌==◌}

abbrev pub max_lines : ℕ
max_lines = 4096

-- the fields `_lines`, `_eof`, `_overflow`, and whether `_error` is set
pub record Controller : Type 0 where
  pub lines : List String
  pub eof : Bool
  pub overflow : Bool
  pub error : Bool

abbrev pub new_controller : Controller
new_controller = record { lines = []; eof = false; overflow = false; error = false }

-- What the reader thread does: it takes a line from the process, it fails, it ends.
pub data Event : Type 0 where
  output : String → Event
  failure finish : Event

-- `deque(maxlen=n).append`: a full deque loses its first element
unfoldable pub append_bounded : ℕ → List String → String → List String
append_bounded n lines line =
    if length lines == n then drop 1 lines ++ (line ∷ []) else lines ++ (line ∷ [])

-- the parts of `_read_output`
unfoldable pub read_output : Event → Controller → Controller
unfolding append_bounded
read_output (output line) c = record {
  lines = append_bounded max_lines c.lines line;
  eof = c.eof;
  overflow = length c.lines == max_lines || c.overflow;
  error = c.error;
}
read_output failure c = record { lines = c.lines; eof = c.eof; overflow = c.overflow; error = true }
read_output finish c = record {
  lines = c.lines;
  eof = true;
  overflow = c.overflow;
  error = c.error;
}

-- the outcome of one round of the loop in `readline`; `waits` is where the round goes on to the
-- deadline
pub data Look : Type 0 where
  refused ended waits : Look
  line : String → Look

abbrev pub pop_line : List String → Controller → Look × Controller
pop_line [] c = (if c.eof then ended else waits, c)
pop_line (first ∷ rest) c =
    (line first, record { lines = rest; eof = c.eof; overflow = c.overflow; error = c.error })

unfoldable pub look : Controller → Look × Controller
look c = if c.overflow then (refused, c) else if c.error then (refused, c) else pop_line c.lines c

-- the reader's events in one wait
unfoldable pub during : List Event → Controller → Controller
unfolding read_output
during [] c = c
during (e ∷ es) c = during es (read_output e c)

-- `readline` after its first round, where `waits_left` lists, for each `wait` before the deadline,
-- what the reader does meanwhile. The result comes with the waits that were not needed. A `none` is
-- the end of the output or the deadline.
unfoldable pub settle :
    List (List Event)
    → Look × Controller
    → Result (Option String) × (List (List Event) × Controller)
unfolding look during
settle waits_left (refused, c) = (err runtime_error, (waits_left, c))
settle waits_left (line text, c) = (ok (some text), (waits_left, c))
settle waits_left (ended, c) = (ok none, (waits_left, c))
settle [] (waits, c) = (ok none, ([], c))
settle (events ∷ later) (waits, c) = settle later (look (during events c))

unfoldable pub readline :
    List (List Event) → Controller → Result (Option String) × (List (List Event) × Controller)
unfolding look settle
readline waits_left c = settle waits_left (look c)
