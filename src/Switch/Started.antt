-- ===== src/Switch/Started.antt =====
-- What `start` and `_wait_tcp_open` leave behind.
use Prim.Native.Nat.{ℕ}
use Prim.Native.String.{String}
use mathlib.Core.Bool.{Bool, false, not, true, ◌||◌}
use mathlib.Core.List.{List, [], append_assoc, ◌++◌, ◌∷◌}
use mathlib.Core.Logic.{inl, inr, ◌↔◌, ◌⊎◌}
use mathlib.Core.Option.{Option, none, some}
use mathlib.Core.Path.{refl, subst, sym, ◌≡◌}
use native.Mathlib.Omega.{arith}
use p4_cases.Prelude.Result.{Error, Result, err, ok, runtime_error}
use p4_cases.Prelude.Tests.{Bool-cases}
use p4_cases.Switch.{
  Call, Outcome, Round, Switch, World, command, launch, launched, makedirs, start, stop,
  stop_interfaces, stop_process, wait_tcp_open, with_running,
}

-- The process runs after the calls, if it did before.
pub alive : List Call → Bool → Bool
alive [] running = running
alive (makedirs dir ∷ calls) running = alive calls running
alive (launch args ∷ calls) running = alive calls true
alive (stop_process ∷ calls) running = alive calls false
alive (stop_interfaces ∷ calls) running = alive calls running

abbrev pub is_ok {ℓ} : {A : Type ℓ} → Result A → Bool
is_ok (ok a) = true
is_ok (err e) = false

-- A round finds the process running and the port open, after rounds that found it running and refused.
pub data Opens : List Round → Type 0 where
  now :
      (r : Round) (rounds : List Round)
      → r.exited ≡ false
      → r.connects ≡ true
      → r.exited_then ≡ false
      → Opens (r ∷ rounds)
  later :
      (r : Round) (rounds : List Round)
      → r.exited ≡ false
      → r.connects ≡ false
      → Opens rounds
      → Opens (r ∷ rounds)

opened : (rounds : List Round) → wait_tcp_open rounds ≡ true → Opens rounds
unfolding wait_tcp_open
opened [] h = cc
opened (r ∷ rounds) h =
    let running : r.exited ≡ false = ground arith in
    elim (Bool-cases r.connects) [
      | inl c ↦ now r rounds running c (ground arith)
      | inr c ↦
          let rest : wait_tcp_open rounds ≡ true = ground arith in
          later r rounds running c (opened rounds rest)
    ]

opens : (rounds : List Round) → Opens rounds → wait_tcp_open rounds ≡ true
unfolding wait_tcp_open
opens [] o = elim o [ ]
opens (r ∷ rounds) (now _ _ running c still) = rw (running, c, still) refl
opens (r ∷ rounds) (later _ _ running c o) = rw (running, c) (opens rounds o)

Option-cases {ℓ} : {A : Type ℓ} (o : Option A) → ((a : A) × (o ≡ some a)) ⊎ (o ≡ none)
Option-cases none = inr refl
Option-cases (some a) = inl (a, refl)

-- What has to hold for a process that serves the gRPC port: the file is there, both ports are free,
-- nothing raises, and the wait finds the port open.
pub record Starts (w : World) (s : Switch) : Type 0 where
  pub found : w.path_exists ≡ true
  pub grpc_free : w.in_use s.grpc_port ≡ false
  pub thrift_free : w.in_use s.thrift_port ≡ false
  pub directory : (s.pcap_dir ≡ none) ⊎ (w.makedirs_raises ≡ none)
  pub launches : w.launch_raises ≡ none
  pub uninterrupted : w.wait_raises ≡ none
  pub serves : Opens w.rounds

-- It succeeds exactly if a process serves the port; the process runs exactly after a success, and the
-- switch knows it.
pub record LeavesClean (w : World) (s : Switch) (outcome : Outcome) : Type 0 where
  pub success : (outcome.0 ≡ ok tt) ↔ Starts w s
  pub process : alive outcome.1.0 false ≡ is_ok outcome.0
  pub known : outcome.1.1.running ≡ is_ok outcome.0

module _ (w : World) (s : Switch) (idle : s.running ≡ false) where
  by_outcome : {a b : Outcome} → a ≡ b → LeavesClean w s b → LeavesClean w s a
  by_outcome e = subst (LeavesClean w s) (sym e)

  -- A start that raised has not met what it needs, has no process and knows it.
  refused :
      (raised : Error) (calls : List Call) (s' : Switch)
      → ¬ Starts w s
      → alive calls false ≡ false
      → s'.running ≡ false
      → LeavesClean w s (err raised, (calls, s'))
  refused raised calls s' h stopped known = record {
    success = ((λ e. cc), (λ g. absurd (h g)));
    process = stopped;
    known = known;
  }

  -- The calls before the launch start no process.
  abbrev IsQuiet : List Call → Type 0
  IsQuiet calls = (more : List Call) → alive (calls ++ more) false ≡ alive more false

  stopped_then :
      (args : List String) (calls : List Call)
      → IsQuiet calls
      → alive ((calls ++ (launch args ∷ [])) ++ (stop_process ∷ stop_interfaces ∷ [])) false ≡ false
  unfolding alive
  stopped_then args calls quiet =
      rw (append_assoc calls (launch args ∷ []) (stop_process ∷ stop_interfaces ∷ [])) (quiet _)

  launched-LeavesClean :
      (args : List String) (calls : List Call)
      → IsQuiet calls
      → w.path_exists ≡ true
      → w.in_use s.grpc_port ≡ false
      → w.in_use s.thrift_port ≡ false
      → (s.pcap_dir ≡ none) ⊎ (w.makedirs_raises ≡ none)
      → LeavesClean w s (launched w args calls s)
  unfolding launched alive stop
  launched-LeavesClean args calls quiet p g t d = elim (Option-cases w.launch_raises) [
    | inl (raised, b) ↦ by_outcome (rw (b, idle) refl) (
        refused raised (calls ++ (stop_interfaces ∷ [])) (with_running false s)
          (λ x. let l = x.launches in cc) (quiet _) refl)
    | inr b ↦ elim (Option-cases w.wait_raises) [
      | inl (raised, c) ↦ by_outcome (rw (b, c) refl) (
          refused raised ((calls ++ (launch args ∷ [])) ++ (stop_process ∷ stop_interfaces ∷ []))
            (with_running false s) (λ x. let u = x.uninterrupted in cc)
            (stopped_then args calls quiet) refl)
      | inr c ↦ elim (Bool-cases (wait_tcp_open w.rounds)) [
        | inl e ↦
            by_outcome {b = (ok tt, (calls ++ (launch args ∷ []), with_running true s))}
              (rw (b, c, e) refl)
              (record {
                success = (
                  (λ h. record {
                    found = p;
                    grpc_free = g;
                    thrift_free = t;
                    directory = d;
                    launches = b;
                    uninterrupted = c;
                    serves = opened w.rounds e;
                  }),
                  (λ x. refl),
                );
                process = quiet _;
                known = refl;
              })
        | inr e ↦ by_outcome (rw (b, c, e) refl) (
            refused runtime_error
              ((calls ++ (launch args ∷ [])) ++ (stop_process ∷ stop_interfaces ∷ []))
              (with_running false s) (λ x. let o = opens w.rounds x.serves in cc)
              (stopped_then args calls quiet) refl)
      ]
    ]
  ]

-- For a switch without a process, `start` succeeds exactly if the file is there, the ports are free,
-- neither `os.makedirs`, where there is a directory, nor the launch nor the wait raises, and the wait
-- finds the port open and the process running. After a success the process runs; after an exception
-- none does, since one that was launched has been stopped; and the switch knows which.
pub start-LeavesClean :
    (w : World) (intfs : List (ℕ × String)) (s : Switch)
    → s.running ≡ false
    → LeavesClean w s (start w intfs s)
unfolding start alive
start-LeavesClean w intfs s idle =
    elim (Bool-cases (not w.path_exists || (w.in_use s.grpc_port || w.in_use s.thrift_port))) [
      | inl a ↦ by_outcome w s idle (rw a refl) (
          refused w s idle runtime_error [] s
            (λ x.
              let p = x.found in
              let g = x.grpc_free in let t = x.thrift_free in absurd (ground arith))
            refl idle)
      | inr a ↦
          let p : w.path_exists ≡ true = ground arith in
          let g : w.in_use s.grpc_port ≡ false = ground arith in
          let t : w.in_use s.thrift_port ≡ false = ground arith in
          elim (Option-cases s.pcap_dir) [
            | inr d ↦
                by_outcome w s idle (rw (a, d) refl)
                  (launched-LeavesClean w s idle (command s intfs) [] (λ more. refl) p g t (inl d))
            | inl (dir, d) ↦ elim (Option-cases w.makedirs_raises) [
              | inr m ↦ by_outcome w s idle (rw (a, d, m) refl) (
                  launched-LeavesClean w s idle (command s intfs) (makedirs dir ∷ []) (λ more. refl)
                    p g t (inr m))
              | inl (raised, m) ↦
                  by_outcome w s idle (rw (a, d, m) refl)
                    (refused w s idle raised [] s (λ x. not_made d m x.directory) refl idle)
            ]
          ]
    ]
  where
    not_made :
        {dir : String} {raised : Error}
        → s.pcap_dir ≡ some dir
        → w.makedirs_raises ≡ some raised
        → ¬ ((s.pcap_dir ≡ none) ⊎ (w.makedirs_raises ≡ none))
    not_made d m (inl x) = cc
    not_made d m (inr x) = cc

-- `_wait_tcp_open` returns true exactly if, before the deadline, some round connects to a process
-- that runs, after rounds that all found the process running and the connection refused.
pub wait_tcp_open-Opens : (rounds : List Round) → (wait_tcp_open rounds ≡ true) ↔ Opens rounds
wait_tcp_open-Opens rounds = (opened rounds, opens rounds)
