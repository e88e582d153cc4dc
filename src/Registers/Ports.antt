-- ===== src/Registers/Ports.antt =====
-- `ports_for_slot`: two source ports that the hash sends to one slot.
use Prim.Native.Nat.{ℕ, ◌%◌, ◌-◌, ◌<◌, ◌≤◌}
use mathlib.Core.Bool.{Bool, false, not, true}
use mathlib.Core.List.{List, [], ◌++◌, ◌∷◌}
use mathlib.Core.Logic.{inl, inr}
use mathlib.Core.Path.{ap, refl, sym, ◌∙◌, ◌≡◌}
use native.Mathlib.Omega.{arith}
use p4_cases.Ip.Built.{IsAddress}
use p4_cases.L2.Collect.{range, range-bounds}
use p4_cases.Prelude.Lists.{All, length}
use p4_cases.Prelude.Result.{Result, err, ok, raise_if, runtime_error, value_error, ◌>>=◌, ◌>>◌}
use p4_cases.Prelude.Tests.{Bool-cases, if◌then◌else◌, ltb, lt→ltb, ◌==◌}
use p4_cases.Registers.{hash_slot, register_size}
use p4_cases.Wire.Bytes.{be16}
use p4_cases.Wire.Crc.{crc16}
use p4_cases.Wire.Pack.{Dotted, dotted_packed, ipv4_packed_ok}

-- the loop, over the ports that are left; `found` holds the ports so far
unfoldable pub find_ports : Dotted → Dotted → ℕ → List ℕ → List ℕ → Result (List ℕ)
unfolding hash_slot
find_ports source destination target [] found = err runtime_error
find_ports source destination target (port ∷ ports) found =
    hash_slot source destination port 2222 >>= λ slot. elim (slot == target) [
      | true ↦ elim (length (found ++ port ∷ []) == 2) [
        | true ↦ ok (found ++ port ∷ [])
        | false ↦ find_ports source destination target ports (found ++ port ∷ [])
      ]
      | false ↦ find_ports source destination target ports found
    ]

-- `range(10000, 65536)`
abbrev pub first_port : ℕ
first_port = 10000

unfoldable pub ports_for_slot : Dotted → Dotted → ℕ → Result (List ℕ)
unfolding find_ports range
ports_for_slot source destination target = do
  raise_if (not (ltb target register_size)) value_error
  find_ports source destination target (range first_port (65536 - first_port)) []

-- The slot of a port, where the addresses fit.
pub slot_of : Dotted → Dotted → ℕ → ℕ
slot_of source destination port =
    crc16 (
      (source.a ∷ source.b ∷ source.c ∷ source.d ∷ [])
      ++ ((destination.a ∷ destination.b ∷ destination.c ∷ destination.d ∷ [])
          ++ (be16 port ++ be16 2222)))
    % register_size

-- The elements that pass a test.
abbrev pub filter : (ℕ → Bool) → List ℕ → List ℕ
filter test [] = []
filter test (x ∷ xs) = if test x then x ∷ filter test xs else filter test xs

-- The first two elements, if there are two.
abbrev pub first_two : List ℕ → Result (List ℕ)
first_two [] = err runtime_error
first_two (a ∷ []) = err runtime_error
first_two (a ∷ b ∷ rest) = ok (a ∷ b ∷ [])

-- The run of one round, by the test of its slot.
matching :
    (call : Result ℕ) (slot : ℕ) (test : ℕ → Bool) (hit miss : Result (List ℕ))
    → call ≡ ok slot
    → test slot ≡ true
    → (call >>= λ s. elim (test s) [ true ↦ hit | false ↦ miss ]) ≡ hit
matching call slot test hit miss run e = rw (run, e) refl

other :
    (call : Result ℕ) (slot : ℕ) (test : ℕ → Bool) (hit miss : Result (List ℕ))
    → call ≡ ok slot
    → test slot ≡ false
    → (call >>= λ s. elim (test s) [ true ↦ hit | false ↦ miss ]) ≡ miss
other call slot test hit miss run e = rw (run, e) refl

module _ (source destination : Dotted) (target : ℕ) (hs : IsAddress source)
    (hd : IsAddress destination) where
  abbrev matches : ℕ → Bool
  matches port = slot_of source destination port == target

  hash_slot_run :
      (port : ℕ)
      → port < 65536
      → hash_slot source destination port 2222 ≡ ok (slot_of source destination port)
  unfolding hash_slot dotted_packed slot_of
  hash_slot_run port h =
      let (s0, s1, s2, s3) = hs in
      let (d0, d1, d2, d3) = hd in
      rw (ipv4_packed_ok _ _ _ _ s0 s1 s2 s3, ipv4_packed_ok _ _ _ _ d0 d1 d2 d3, lt→ltb _ _ h) refl

  abbrev call : ℕ → Result ℕ
  call port = hash_slot source destination port 2222

  abbrev test : ℕ → Bool
  test slot = slot == target

  find_ports-one :
      (a : ℕ) (ports : List ℕ)
      → All (λ p. p < 65536) ports
      → find_ports source destination target ports (a ∷ []) ≡ first_two (a ∷ filter matches ports)
  unfolding find_ports
  find_ports-one a [] h = refl
  find_ports-one a (port ∷ ports) (low, h) =
      let slot = slot_of source destination port in
      let rest = find_ports source destination target ports (a ∷ []) in
      let run = hash_slot_run port low in
      elim (Bool-cases (matches port)) [
        | inl e ↦
            matching (call port) slot test (ok (a ∷ port ∷ [])) rest run e
            ∙ ap
                (λ b.
                  first_two (a ∷ (if b then port ∷ filter matches ports else filter matches ports)))
                (sym e)
        | inr e ↦
            other (call port) slot test (ok (a ∷ port ∷ [])) rest run e
            ∙ find_ports-one a ports h
            ∙ ap
                (λ b.
                  first_two (a ∷ (if b then port ∷ filter matches ports else filter matches ports)))
                (sym e)
      ]

  find_ports-none :
      (ports : List ℕ)
      → All (λ p. p < 65536) ports
      → find_ports source destination target ports [] ≡ first_two (filter matches ports)
  unfolding find_ports
  find_ports-none [] h = refl
  find_ports-none (port ∷ ports) (low, h) =
      let slot = slot_of source destination port in
      let rest = find_ports source destination target ports [] in
      let found = find_ports source destination target ports (port ∷ []) in
      let run = hash_slot_run port low in
      elim (Bool-cases (matches port)) [
        | inl e ↦
            matching (call port) slot test found rest run e
            ∙ find_ports-one port ports h
            ∙ ap (λ b. first_two (if b then port ∷ filter matches ports else filter matches ports))
                (sym e)
        | inr e ↦
            other (call port) slot test found rest run e
            ∙ find_ports-none ports h
            ∙ ap (λ b. first_two (if b then port ∷ filter matches ports else filter matches ports))
                (sym e)
      ]

-- For addresses of four bytes each and a slot inside the register, `ports_for_slot` returns the first
-- two ports from 10000 to 65535 with that slot, or raises a `RuntimeError` if there are fewer.
pub ports_for_slot-first_two :
    (source destination : Dotted) (target : ℕ)
    → IsAddress source
    → IsAddress destination
    → target < 1024
    → ports_for_slot source destination target
      ≡ first_two (filter (λ port. slot_of source destination port == target) (range 10000 55536))
unfolding ports_for_slot
ports_for_slot-first_two source destination target hs hd h =
    guarded (ltb target register_size) (lt→ltb _ _ h) _
    ∙ (find_ports-none source destination target hs hd (range 10000 55536)
        (below (range 10000 55536) (range-bounds 10000 55536 65536 (omega arith))))
  where
    guarded :
        (b : Bool)
        → b ≡ true
        → (next : Result (List ℕ)) → (raise_if (not b) value_error >> next) ≡ next
    guarded true e next = refl
    guarded false e next = cc

    below :
        (ports : List ℕ) → All (λ i. (10000 ≤ i) × (i < 65536)) ports → All (λ p. p < 65536) ports
    below [] h = tt
    below (port ∷ ports) ((lo, hi), h) = (hi, below ports h)
