-- ===== src/Delivery.antt =====
-- The comparison of captured with expected frames that the `check_delivery` functions of the
-- topologies share. A frame is its bytes, a host `h{n}` its number, and the replies of the hosts, a
-- dictionary in the code, are a list of pairs. That a reply is a list of byte strings holds by typing.
pub mod Bags
pub mod Hosts
use Prim.Native.Nat.{ℕ, ◌+◌}
use mathlib.Core.Bool.{Bool, false, not, true, ◌&&◌, ◌||◌}
use mathlib.Core.List.{List, [], ◌++◌, ◌∷◌}
use p4_cases.Prelude.Result.{Result, ok, raise_if, runtime_error, ◌>>=◌, ◌>>◌}
use p4_cases.Prelude.Tests.{if◌then◌else◌, ◌==◌}
use p4_cases.Wire.Bytes.{bytes_eq}

-- `Counter(frames)[frame]`
unfoldable pub counter : List (List ℕ) → List ℕ → ℕ
unfolding bytes_eq
counter [] frame = 0
counter (f ∷ frames) frame = (if bytes_eq f frame then 1 else 0) + counter frames frame

-- The counters of `xs` and `ys` agree on the given frames.
unfoldable pub agree_on : List (List ℕ) → List (List ℕ) → List (List ℕ) → Bool
unfolding counter
agree_on [] xs ys = true
agree_on (frame ∷ frames) xs ys = counter xs frame == counter ys frame && agree_on frames xs ys

-- `Counter(xs) == Counter(ys)`
unfoldable pub counters_equal : List (List ℕ) → List (List ℕ) → Bool
unfolding agree_on
counters_equal xs ys = agree_on (xs ++ ys) xs ys

-- `host in hosts`
unfoldable pub has_host : List ℕ → ℕ → Bool
has_host [] host = false
has_host (h ∷ hosts) host = h == host || has_host hosts host

-- the keys of a dictionary
unfoldable pub keys : List (ℕ × List (List ℕ)) → List ℕ
keys [] = []
keys ((host, frames) ∷ received) = host ∷ keys received

-- every element of the second list is in the first
unfoldable pub has_all : List ℕ → List ℕ → Bool
unfolding has_host
has_all hosts [] = true
has_all hosts (h ∷ wanted) = has_host hosts h && has_all hosts wanted

-- `set(received) == {...}`
unfoldable pub same_hosts : List ℕ → List (ℕ × List (List ℕ)) → Bool
unfolding has_all keys
same_hosts hosts received = has_all hosts (keys received) && has_all (keys received) hosts

-- the loop over `received.items()`; `expected` computes the frames that a host should get
unfoldable pub check_items :
    (ℕ → Result (List (List ℕ))) → List (ℕ × List (List ℕ)) → Result (Unit {0})
unfolding counters_equal
check_items expected [] = ok tt
check_items expected ((host, frames) ∷ received) = do
  wanted ← expected host
  raise_if (not (counters_equal frames wanted)) runtime_error
  check_items expected received

unfoldable pub check_hosts :
    List ℕ → (ℕ → Result (List (List ℕ))) → List (ℕ × List (List ℕ)) → Result (Unit {0})
unfolding same_hosts check_items
check_hosts hosts expected received = do
  raise_if (not (same_hosts hosts received)) runtime_error
  check_items expected received

-- `[frame(item) for item in items if test(item)]`
unfoldable pub chosen : {A : Type 0} → (A → Bool) → (A → List ℕ) → List A → List (List ℕ)
chosen test frame [] = []
chosen test frame (item ∷ items) =
    let rest = chosen test frame items in if test item then frame item ∷ rest else rest
