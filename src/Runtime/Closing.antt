-- ===== src/Runtime/Closing.antt =====
-- Closing a network is complete and happens once.
use Prim.Native.Nat.{ℕ}
use mathlib.Core.Bool.{Bool, false}
use mathlib.Core.List.{List, [], map, reverse, ◌++◌, ◌∷◌}
use mathlib.Core.Logic.{inl, inr}
use mathlib.Core.Option.{Option}
use mathlib.Core.Path.{ap, refl, ◌≡◌}
use p4_cases.Prelude.Lists.{All}
use p4_cases.Prelude.Result.{Error, ok}
use p4_cases.Prelude.Tests.{Bool-cases}
use p4_cases.Runtime.Network.{
  Call, Network, close, close_all, close_controller, ignore_signal, raised_again, restore_handler,
  stop_network, warn,
}

-- The controllers that are closed, in order.
abbrev pub closings : List Call → List ℕ
closings [] = []
closings (close_controller c ∷ rest) = c ∷ closings rest
closings (ignore_signal s ∷ rest) = closings rest
closings (stop_network ∷ rest) = closings rest
closings (restore_handler s ∷ rest) = closings rest
closings (warn c ∷ rest) = closings rest

closings-close_all : (fails : ℕ → Bool) (cs : List ℕ) → closings (close_all fails cs) ≡ cs
unfolding close_all
closings-close_all fails [] = refl
closings-close_all fails (c ∷ cs) = elim (Bool-cases (fails c)) [
  | inl p ↦ rw p (ap (λ xs. c ∷ xs) (closings-close_all fails cs))
  | inr p ↦ rw p (ap (λ xs. c ∷ xs) (closings-close_all fails cs))
]

-- Neither the network nor the handlers are touched.
abbrev pub IsInner : Call → Type 0
IsInner (ignore_signal s) = ⊥
IsInner stop_network = ⊥
IsInner (restore_handler s) = ⊥
IsInner (close_controller c) = Unit {0}
IsInner (warn c) = Unit {0}

close_all-IsInner : (fails : ℕ → Bool) (cs : List ℕ) → All IsInner (close_all fails cs)
unfolding close_all
close_all-IsInner fails [] = tt
close_all-IsInner fails (c ∷ cs) = elim (Bool-cases (fails c)) [
  | inl p ↦ rw p (tt, (tt, close_all-IsInner fails cs))
  | inr p ↦ rw p (tt, close_all-IsInner fails cs)
]

-- Closing an open network, whichever controllers fail to close and whether or not the network fails
-- to stop: each signal with a handler is ignored first, then every controller is closed once, the last
-- one started first, then the network is stopped, then each handler is restored. The call raises
-- exactly what the stop of the network raises, and closing again does nothing.
pub close-close :
    (fails : ℕ → Bool) (stop_raises : Option Error) (n : Network)
    → n.closed ≡ false
    → (inner : List Call) × ((close fails stop_raises n).1.calls
        ≡ n.calls
          ++ (map ignore_signal n.handlers
              ++ (inner ++ (stop_network ∷ map restore_handler n.handlers))))
      × (closings inner ≡ reverse n.controllers)
      × All IsInner inner
      × ((close fails stop_raises n).0 ≡ raised_again stop_raises)
      × ((later : ℕ → Bool) (stop_later : Option Error)
          → close later stop_later (close fails stop_raises n).1
            ≡ (ok tt, (close fails stop_raises n).1))
unfolding close
close-close fails stop_raises n fresh = (
  close_all fails (reverse n.controllers),
  rw fresh refl,
  closings-close_all fails (reverse n.controllers),
  close_all-IsInner fails (reverse n.controllers),
  rw fresh refl,
  λ later stop_later. rw fresh refl,
)
