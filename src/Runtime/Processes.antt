-- ===== src/Runtime/Processes.antt =====
-- `stop_process`, and `send` and `close` of `Controller`: what is called, in which order.
use Prim.Native.String.{String}
use mathlib.Core.Bool.{Bool, false, not, true}
use mathlib.Core.List.{List, [], ◌++◌, ◌∷◌}
use mathlib.Core.Path.{refl, ◌≡◌}
use p4_cases.Prelude.Result.{Result, err, ok, os_error, runtime_error}
use p4_cases.Prelude.Tests.{if◌then◌else◌}

-- An entry for each call with an effect on the process, its streams or the reader.
pub data Call : Type 0 where
  terminate wait_briefly warn_slow kill reap : Call
  write : String → Call
  flush close_stdin join_reader close_stdout : Call

-- `stop_process`, where `times_out` says that the first wait does; a process that is already gone is
-- no error of the signals
unfoldable pub stop_process : Bool → List Call
stop_process times_out =
    (terminate ∷ wait_briefly ∷ [])
    ++ ((if times_out then warn_slow ∷ [] else []) ++ (kill ∷ reap ∷ []))

-- the fields of `Controller` that `close` reads: `proc.stdin is not None`, whether the reader thread
-- has started, and `_closed`
pub record Process : Type 0 where
  pub interactive : Bool
  pub reader_started : Bool
  pub closed : Bool

-- `send`, where `fails` says that the pipe is broken, which is an `OSError`; the write of a line comes with a flush
unfoldable pub send : Bool → String → Process → Result (Unit {0}) × List Call
send fails command p =
    if not p.interactive
    then (err runtime_error, [])
    else if fails
    then (err os_error, write command ∷ [])
    else (ok tt, write command ∷ flush ∷ [])

-- the first part of `close`, whose exceptions of a broken pipe are caught
unfoldable pub say_quit : Bool → Process → List Call
unfolding send
say_quit fails p =
    if p.interactive
    then (if fails then (send fails "quit" p).1 else (send fails "quit" p).1 ++ (close_stdin ∷ []))
    else []

-- `Controller.close`
unfoldable pub close : Bool → Bool → Process → List Call × Process
unfolding say_quit stop_process
close fails times_out p = if p.closed then ([], p) else (
  say_quit fails p
      ++ (stop_process times_out
          ++ ((if p.reader_started then join_reader ∷ [] else [])
              ++ ((if p.interactive then close_stdin ∷ [] else []) ++ (close_stdout ∷ [])))),
  record p { closed = true },
)

-- A call of the kind, and the calls after it.
pub data Then (first : Call) (P : List Call → Type 0) : List Call → Type 0 where
  found : (rest : List Call) → P rest → Then first P (first ∷ rest)
  skip : (c : Call) (rest : List Call) → Then first P rest → Then first P (c ∷ rest)

-- The whole group is signalled, then killed, then the process is reaped, then its output is closed.
abbrev pub IsStopped : List Call → Type 0
IsStopped = Then terminate (Then kill (Then reap (Then close_stdout (λ rest. rest ≡ []))))

Then-append :
    {first : Call} {P : List Call → Type 0} (xs ys : List Call)
    → Then first P ys
    → Then first P (xs ++ ys)
Then-append [] ys t = t
Then-append (x ∷ xs) ys t = skip x (xs ++ ys) (Then-append xs ys t)

stop_process-IsStopped :
    (times_out : Bool) (xs ys : List Call)
    → IsStopped (stop_process times_out ++ (xs ++ (ys ++ (close_stdout ∷ []))))
unfolding stop_process
stop_process-IsStopped false xs ys =
    found _ (skip _ _ (found _ (found _ (Then-append xs _ (Then-append ys _ (found [] refl))))))
stop_process-IsStopped true xs ys =
    found _ (
      skip _ _ (skip _ _ (found _ (found _ (Then-append xs _ (Then-append ys _ (found [] refl)))))))

-- The first `close` stops the process and closes its output last, whether or not the pipe is broken
-- and the process is slow, and a second `close` does nothing.
pub close-IsStopped :
    (fails times_out again slow : Bool) (p : Process)
    → p.closed ≡ false
    → IsStopped (close fails times_out p).0
      × (close again slow (close fails times_out p).1 ≡ ([], (close fails times_out p).1))
unfolding close
close-IsStopped fails times_out again slow p h = rw h (
  Then-append (say_quit fails p) _ (
      stop_process-IsStopped times_out (if p.reader_started then join_reader ∷ [] else [])
        (if p.interactive then close_stdin ∷ [] else [])),
  refl,
)
