-- ===== src/Runs/Runtime.antt =====
-- A controller that writes three lines, and a network with two controllers.
use Prim.Native.Nat.{ℕ}
use mathlib.Core.Bool.{Bool, false}
use mathlib.Core.List.{List, [], map, reverse, ◌++◌, ◌∷◌}
use mathlib.Core.Option.{Option, some}
use mathlib.Core.Path.{refl, ◌≡◌}
use p4_cases.Prelude.Lists.{All}
use p4_cases.Prelude.Result.{Error, ok, os_error}
use p4_cases.Prelude.Tests.{◌==◌}
use p4_cases.Runtime.{
  Controller, Event, append_bounded, during, finish, look, new_controller, output, read_output,
  readline, settle,
}
use p4_cases.Runtime.Closing.{IsInner, close-close, closings}
use p4_cases.Runtime.Network.{
  Call, Network, close, close_all, close_controller, ignore_signal, raised_again, restore_handler,
  stop_network, warn,
}
use p4_cases.Runtime.Queue.{Follows, Keeps, Reaches, Reaches-Keeps, readline-Follows, reads, start}

abbrev two_lines : Controller
two_lines = during (output "a" ∷ output "b" ∷ []) new_controller

two_lines-Reaches : Reaches ("a" ∷ "b" ∷ []) [] two_lines
unfolding during
two_lines-Reaches = reads (reads start (output "a")) (output "b")

Reaches-Keeps_example : Keeps ("a" ∷ "b" ∷ []) [] two_lines
Reaches-Keeps_example = Reaches-Keeps ("a" ∷ "b" ∷ []) [] two_lines two_lines-Reaches

-- A line that comes in the second wait.
abbrev later : List (List Event)
later = [] ∷ (output "c" ∷ []) ∷ (finish ∷ []) ∷ []

later_line : (readline later new_controller).0 ≡ ok (some "c")
unfolding readline settle look during read_output append_bounded
later_line = refl

readline-Follows_example : Follows ("a" ∷ "b" ∷ []) [] later (readline later two_lines)
readline-Follows_example = readline-Follows later two_lines ("a" ∷ "b" ∷ []) [] two_lines-Reaches

abbrev network : Network
network = record { controllers = 1 ∷ 2 ∷ []; handlers = 2 ∷ 15 ∷ []; closed = false; calls = [] }

abbrev first_fails : ℕ → Bool
first_fails c = c == 1

calls_in_order :
    (close first_fails (some os_error) network).1.calls
    ≡ ignore_signal 2
      ∷ ignore_signal 15
      ∷ close_controller 2
      ∷ close_controller 1
      ∷ warn 1
      ∷ stop_network
      ∷ restore_handler 2
      ∷ restore_handler 15
      ∷ []
unfolding close close_all
calls_in_order = refl

close-close_example :
    (inner : List Call) × ((close first_fails (some os_error) network).1.calls
      ≡ []
        ++ (map ignore_signal (2 ∷ 15 ∷ [])
            ++ (inner ++ (stop_network ∷ map restore_handler (2 ∷ 15 ∷ [])))))
    × (closings inner ≡ reverse (1 ∷ 2 ∷ []))
    × All IsInner inner
    × ((close first_fails (some os_error) network).0 ≡ raised_again (some os_error))
    × ((later_fails : ℕ → Bool) (stop_later : Option Error)
        → close later_fails stop_later (close first_fails (some os_error) network).1
          ≡ (ok tt, (close first_fails (some os_error) network).1))
close-close_example = close-close first_fails (some os_error) network refl
