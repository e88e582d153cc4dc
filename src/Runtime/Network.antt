-- ===== src/Runtime/Network.antt =====
-- The closing of `NetworkRuntime`: what is called, in which order, and what is raised.
use Prim.Native.Nat.{ℕ}
use mathlib.Core.Bool.{Bool, true}
use mathlib.Core.List.{List, [], map, reverse, ◌++◌, ◌∷◌}
use mathlib.Core.Option.{Option, none, some}
use p4_cases.Prelude.Result.{Error, Result, err, ok}
use p4_cases.Prelude.Tests.{if◌then◌else◌}

-- An entry for each call with an effect. A controller is its position in `_controllers`, and a handler
-- the number of its signal.
pub data Call : Type 0 where
  ignore_signal restore_handler : ℕ → Call
  stop_network : Call
  close_controller warn : ℕ → Call

pub record Network : Type 0 where
  pub controllers : List ℕ
  pub handlers : List ℕ
  pub closed : Bool
  pub calls : List Call

-- `for controller in reversed(self._controllers)`, where `fails` says which `close` raises an
-- `Exception`; it is caught and a warning is written
unfoldable pub close_all : (ℕ → Bool) → List ℕ → List Call
close_all fails [] = []
close_all fails (c ∷ cs) =
    let rest = close_all fails cs in
    if fails c then close_controller c ∷ warn c ∷ rest else close_controller c ∷ rest

-- What is raised, if anything, is raised again.
abbrev pub raised_again : Option Error → Result (Unit {0})
raised_again none = ok tt
raised_again (some raised) = err raised

-- `close`, with the exception that `net.stop` raises, if any; the handlers are restored in any case
unfoldable pub close : (ℕ → Bool) → Option Error → Network → Result (Unit {0}) × Network
unfolding close_all
close fails stop_raises n = if n.closed then (ok tt, n) else (
  raised_again stop_raises,
  record {
    controllers = n.controllers;
    handlers = n.handlers;
    closed = true;
    calls =
        n.calls
        ++ (map ignore_signal n.handlers
            ++ (close_all fails (reverse n.controllers)
                ++ (stop_network ∷ map restore_handler n.handlers)));
  },
)

-- `start_controller`
abbrev pub start_controller : ℕ → Network → Network
start_controller c n = record {
  controllers = n.controllers ++ (c ∷ []);
  handlers = n.handlers;
  closed = n.closed;
  calls = n.calls;
}
