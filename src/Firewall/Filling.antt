-- ===== src/Firewall/Filling.antt =====
-- The payload of `make_frame` of the access-list case, filled up in a first fragment, and the cases of
-- its protocol.
use Prim.Native.Nat.{ℕ, ◌%◌, ◌+◌, ◌-◌, ◌≤◌}
use mathlib.Core.Bool.{true}
use mathlib.Core.List.{List, [], ◌++◌, ◌∷◌}
use mathlib.Core.Logic.{inl, inr, ◌≢◌}
use mathlib.Core.Path.{refl, ◌≡◌}
use native.Mathlib.Omega.{arith}
use p4_cases.Firewall.{
  Protocol, Request, arp, frame_of, header_size, icmp, label, number_of, pad_payload, tcp, udp,
}
use p4_cases.Firewall.Built.{protocol_number}
use p4_cases.Prelude.Lists.{length, replicate}
use p4_cases.Prelude.Result.{Result}
use p4_cases.Prelude.Tests.{Bool-cases, if◌then◌else◌, ltb, ◌==◌}
use p4_cases.Wire.Bytes.{be32}

-- The zeros that fill a segment with a payload of 11 bytes up to a multiple of 8 bytes.
abbrev pub filling : Protocol → List ℕ
filling tcp = replicate 1 0
filling udp = replicate 5 0
filling icmp = replicate 5 0
filling arp = replicate 5 0

-- The text `p4-acl:`, the sequence number and, where more fragments follow, the filling.
abbrev pub payload_of : Request → List ℕ
payload_of r =
    (0x70 ∷ 0x34 ∷ 0x2d ∷ 0x61 ∷ 0x63 ∷ 0x6c ∷ 0x3a ∷ be32 r.sequence)
    ++ (if r.flags % 2 == 1 then filling r.protocol else [])

pub pad_payload-filling :
    (protocol : Protocol) (flags sequence : ℕ)
    → pad_payload protocol flags (label ++ be32 sequence)
      ≡ (label ++ be32 sequence) ++ (if flags % 2 == 1 then filling protocol else [])
unfolding pad_payload
pad_payload-filling protocol flags sequence = elim (Bool-cases (flags % 2 == 1)) [
  | inl e ↦ rw e (filled protocol)
  | inr e ↦ rw e refl
]
  where
    filled :
        (q : Protocol)
        → (label ++ be32 sequence) ++ replicate ((8 - (header_size q + 11) % 8) % 8) 0
          ≡ (label ++ be32 sequence) ++ filling q
    filled tcp = refl
    filled udp = refl
    filled icmp = refl
    filled arp = refl

pub length-payload_of : (r : Request) → length (payload_of r) ≤ 16
length-payload_of r = elim (Bool-cases (r.flags % 2 == 1)) [
  | inl e ↦ rw e (short r.protocol)
  | inr e ↦ rw e (omega arith)
]
  where
    short : (q : Protocol) → length ((label ++ be32 r.sequence) ++ filling q) ≤ 16
    short tcp = omega arith
    short udp = omega arith
    short icmp = omega arith
    short arp = omega arith

pub number_same : (protocol : Protocol) → number_of protocol ≡ protocol_number protocol
number_same tcp = refl
number_same udp = refl
number_same icmp = refl
number_same arp = refl

pub number_fits : (protocol : Protocol) → ltb (number_of protocol) 256 ≡ true
number_fits tcp = refl
number_fits udp = refl
number_fits icmp = refl
number_fits arp = refl

pub as_ip :
    (protocol : Protocol) → protocol ≢ arp → (a b : Result (List ℕ)) → frame_of protocol a b ≡ b
as_ip tcp h a b = refl
as_ip udp h a b = refl
as_ip icmp h a b = refl
as_ip arp h a b = absurd (h refl)
