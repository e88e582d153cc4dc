-- ===== src/Int/Probes.antt =====
-- `make_probes` of 06_int/packets.py. The arguments of a call of `add` are a `Call`; its keyword
-- arguments for `make_frame` are the change of the request that they make.
use Prim.Native.Nat.{ℕ, ◌%◌, ◌+◌, ◌-◌}
use Prim.Native.String.{String}
use mathlib.Core.Bool.{Bool, false, not, true}
use mathlib.Core.List.{List, [], map, ◌++◌, ◌∷◌}
use mathlib.Core.Option.{Option, none, some}
use p4_cases.Int.Frames.{Request, lookup, make_frame, paths, request}
use p4_cases.Int.Options.{Trace, int_option, max_traces}
use p4_cases.Ip.Changes.{flip_byte, replace}
use p4_cases.L2.Collect.{range}
use p4_cases.Prelude.Lists.{drop, length, replicate, take}
use p4_cases.Prelude.Result.{Result, err, for_each, ok, raise_if, value_error, ◌>>=◌, ◌>>◌}
use p4_cases.Prelude.Tests.{if◌then◌else◌, ltb, ◌==◌}
use p4_cases.Prelude.Text.{decimal, ◌<>◌}
use p4_cases.Wire.Bytes.{be16}

pub record Probe : Type 0 where
  pub name : String
  pub sender : ℕ
  pub receiver : ℕ
  pub path : List (ℕ × ℕ)
  pub allowed : Bool
  pub frame : List ℕ

-- the options are the ones that are given, or those of an empty INT option
pub record Call : Type 0 where
  pub name : String
  pub sender : ℕ
  pub receiver : ℕ
  pub options : Option (Result (List ℕ))
  pub allowed : Bool
  pub transform : List ℕ → Result (List ℕ)
  pub arguments : Request → Request

-- the default arguments of `add`; no transformation is the one that returns its frame
abbrev pub call : String → Call
call name = record {
  name = name;
  sender = 2;
  receiver = 4;
  options = none;
  allowed = true;
  transform = ok;
  arguments = λ r. r;
}

-- `int_option([]) if options is None else options`
abbrev pub options_or : Option (Result (List ℕ)) → Result (List ℕ)
options_or none = int_option [] false
options_or (some options) = options

-- `bytes((len(probes) + 1,))`
abbrev pub single_byte : ℕ → Result (List ℕ)
single_byte n = if ltb n 256 then ok (n ∷ []) else err value_error

unfoldable pub add : List ℕ → Call → List Probe → Result (List Probe)
unfolding int_option make_frame lookup
add prefix c probes = do
  number ← single_byte (length probes + 1)
  options ← options_or c.options
  made ← make_frame (c.arguments (request (prefix ++ number) c.sender c.receiver options))
  frame ← c.transform made
  path ← lookup paths (c.sender, c.receiver)
  ok (
      probes
      ++ record {
        name = c.name;
        sender = c.sender;
        receiver = c.receiver;
        path = path;
        allowed = c.allowed;
        frame = frame;
      }
        ∷ [])

-- `(48, 128, 512)[(sender + receiver) % 3]`
abbrev pub size_of : ℕ → ℕ
size_of n = if n % 3 == 0 then 48 else if n % 3 == 1 then 128 else 512

abbrev pub path_call : ℕ → ℕ → String → List ℕ → Call
path_call sender receiver kind options =
    record (call ("h" <> (decimal sender <> ("-h" <> (decimal receiver <> ("-" <> kind)))))) {
      sender = sender;
      receiver = receiver;
      options = some (ok options);
      arguments = λ r. record r { payload_size = size_of (sender + receiver) };
    }

-- `for sender, receiver in PATHS`, with the empty INT option
unfoldable pub path_calls : List ℕ → List ((ℕ × ℕ) × List (ℕ × ℕ)) → List Call
unfolding decimal
path_calls empty [] = []
path_calls empty (((sender, receiver), path) ∷ rest) =
    path_call sender receiver "plain" []
    ∷ path_call sender receiver "int" empty
    ∷ path_calls empty rest

-- `(100 + i, 8191 - i, i + 1)`
abbrev pub sample : ℕ → Trace
sample i = record { swid = 100 + i; depth = 8191 - i; port = i + 1 }

unfoldable pub existing_calls : List Call
unfolding decimal range int_option
existing_calls =
    map
      (λ count. record (call ("existing-" <> decimal count)) {
        options = some (int_option (map sample (range 0 count)) false);
      })
      (range 0 (max_traces + 1))

abbrev pub trace_100 : Trace
trace_100 = record { swid = 100; depth = 1; port = 3 }

-- the packets that are forwarded, with the empty INT option and its copied form
abbrev pub good_calls : List ℕ → List ℕ → List Call
good_calls empty copied =
    record (call "options4") { options = some (ok (replicate 4 1)) }
    ∷ record (call "options40") { options = some (ok (replicate 40 1)) }
    ∷ record (call "nonleading-int") { options = some (ok (replicate 4 1 ++ empty)) }
    ∷ record (call "copied-int") { options = some (ok copied) }
    ∷ record (call "plain-first-fragment") {
      options = some (ok []);
      arguments = λ r. record r { flags = 0x2000 };
    }
    ∷ record (call "int-first-fragment") {
      options = some (ok copied);
      arguments = λ r. record r { flags = 0x2000 };
    }
    ∷ record (call "int-later-fragment") {
      options = some (ok copied);
      arguments = λ r. record r { flags = 1 };
    }
    ∷ record (call "ttl-last-hop-one") { arguments = λ r. record r { ttl = 4 } }
    ∷ record (call "ttl-one-hop-two") {
      sender = 3;
      receiver = 4;
      arguments = λ r. record r { ttl = 2 };
    }
    ∷ record (call "maximum-output-mtu") { arguments = λ r. record r { payload_size = 1456 } }
    ∷ record (call "plain-opaque-payload") {
      options = some (ok []);
      transform = replace 23 (0xfd ∷ []);
    }
    ∷ record (call "int-opaque-payload") {
      options = some (ok empty);
      transform = replace 23 (0xfd ∷ []);
    }
    ∷ []

abbrev pub expired_call : ℕ → Call
expired_call ttl = record (call ("expired-ttl-" <> decimal ttl)) {
  allowed = false;
  arguments = λ r. record r { ttl = ttl };
}

-- a frame that is not forwarded, with the transformation that spoils it
abbrev pub spoiled : String → (List ℕ → Result (List ℕ)) → Call
spoiled name transform = record (call name) { allowed = false; transform = transform }

-- `[(100, 1, 3)] * n` in an option
abbrev pub repeated : ℕ → Option (Result (List ℕ))
repeated n = some (int_option (replicate n trace_100) false)

unfoldable pub bad_calls : List Call
unfolding int_option replace flip_byte decimal
bad_calls =
    map expired_call (0 ∷ 1 ∷ 3 ∷ [])
    ++ (record (spoiled "unknown-route" (replace 30 (192 ∷ 0 ∷ 2 ∷ 1 ∷ []))) {
      sender = 1;
      receiver = 2;
    }
        ∷ spoiled "non-ipv4" (λ frame. ok (take 12 frame ++ (0x88 ∷ 0xb5 ∷ drop 14 frame)))
        ∷ spoiled "bad-version" (replace 14 (0x66 ∷ []))
        ∷ spoiled "short-ihl" (replace 14 (0x44 ∷ []))
        ∷ spoiled "short-total" (replace 16 (be16 20))
        ∷ spoiled "long-total" (replace 16 (be16 600))
        ∷ spoiled "truncated-ip" (λ frame. ok (take 33 frame))
        ∷ record (spoiled "truncated-options" (λ frame. ok (take 42 frame))) {
          options = repeated 3;
        }
        ∷ spoiled "bad-option-length" (replace 35 (6 ∷ []))
        ∷ spoiled "bad-int-count" (replace 36 (0 ∷ 2 ∷ []))
        ∷ record (spoiled "too-many-traces" (replace 36 (0 ∷ 10 ∷ []))) {
          options = repeated max_traces;
        }
        ∷ spoiled "huge-int-count" (replace 36 (255 ∷ 255 ∷ []))
        ∷ record (spoiled "bad-ip-checksum" (flip_byte 24)) { options = some (ok []) }
        ∷ record (spoiled "bad-int-checksum" (flip_byte 41)) { options = repeated 1 }
        ∷ [])

unfoldable pub make_probes : List ℕ → Result (List Probe)
unfolding add path_calls existing_calls bad_calls int_option
make_probes prefix = do
  raise_if (not (length prefix == 3)) value_error
  empty ← int_option [] false
  copied ← int_option [] true
  for_each (add prefix)
      (path_calls empty paths ++ (existing_calls ++ (good_calls empty copied ++ bad_calls))) []
