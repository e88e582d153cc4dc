-- ===== src/Vxlan/Probes.antt =====
-- `make_probes` of the VXLAN case.
use Prim.Native.Nat.{ℕ, ◌%◌, ◌+◌, ◌-◌}
use Prim.Native.String.{String}
use mathlib.Core.Bool.{Bool, false, not, true}
use mathlib.Core.List.{List, [], map, ◌++◌, ◌∷◌}
use p4_cases.L2.Collect.{range}
use p4_cases.L2.Content.{arp_packet}
use p4_cases.L2.Datagram.Ipv4.{payload}
use p4_cases.Prelude.Lists.{drop, length, replicate, take}
use p4_cases.Prelude.Result.{Result, for_each, ok, raise_if, value_error, ◌>>=◌, ◌>>◌}
use p4_cases.Prelude.Tests.{if◌then◌else◌, ◌==◌}
use p4_cases.Prelude.Text.{decimal, ◌<>◌}
use p4_cases.Vxlan.{inner_dest}
use p4_cases.Wire.Checksum.{checksum}
use p4_cases.Wire.Pack.{pack, raw, to_bytes2, to_bytes4, u16, u8}

pub data Protocol : Type 0 where
  raw_frame vlan_frame ipv4_frame arp_frame : Protocol

-- the tuple (name, size, protocol, allowed)
pub record Shape : Type 0 where
  pub name : String
  pub size : ℕ
  pub protocol : Protocol
  pub allowed : Bool

pub record Probe : Type 0 where
  pub name : String
  pub allowed : Bool
  pub frames : List (List ℕ)

-- `(f"raw-{size}", size, "raw", True)`
abbrev pub raw_shape : ℕ → Shape
raw_shape size = record {
  name = "raw-" <> decimal size;
  size = size;
  protocol = raw_frame;
  allowed = true;
}

abbrev pub shapes : List Shape
shapes =
    map raw_shape (60 ∷ 64 ∷ 128 ∷ 512 ∷ 1500 ∷ 1514 ∷ [])
    ++ (record { name = "vlan"; size = 128; protocol = vlan_frame; allowed = true }
        ∷ record { name = "ipv4"; size = 128; protocol = ipv4_frame; allowed = true }
        ∷ record { name = "arp"; size = 60; protocol = arp_frame; allowed = true }
        ∷ record { name = "unmatched-60"; size = 60; protocol = raw_frame; allowed = false }
        ∷ record { name = "unmatched-1514"; size = 1514; protocol = raw_frame; allowed = false }
        ∷ [])

-- `b"p4-vxlan:"`
abbrev pub label : List ℕ
label = 0x70 ∷ 0x34 ∷ 0x2d ∷ 0x76 ∷ 0x78 ∷ 0x6c ∷ 0x61 ∷ 0x6e ∷ 0x3a ∷ []

-- `bytes((sequence + offset) % 256 for offset in range(size))`
unfoldable pub counted : ℕ → ℕ → List ℕ
unfolding range
counted sequence size = map (λ offset. (sequence + offset) % 256) (range 0 size)

abbrev pub first_ip : List ℕ
first_ip = 10 ∷ 0 ∷ 0 ∷ 1 ∷ []

abbrev pub second_ip : List ℕ
second_ip = 10 ∷ 0 ∷ 0 ∷ 2 ∷ []

-- the `body` of a frame; the IPv4 shape has 128 bytes, so that `size - 14 - 20` is positive
unfoldable pub body_of : Protocol → ℕ → List ℕ → ℕ → List ℕ → Result (List ℕ)
unfolding pack arp_packet
body_of raw_frame sequence source size payload = ok (0x88 ∷ 0xb5 ∷ payload)
body_of vlan_frame sequence source size payload = do
  tag ← pack (u16 100 ∷ u16 0x88b5 ∷ [])
  ok (0x81 ∷ 0x00 ∷ (tag ++ payload))
body_of arp_frame sequence source size payload = do
  packet ← arp_packet 1 source first_ip (replicate 6 0) second_ip
  ok ((0x08 ∷ 0x06 ∷ packet) ++ payload)
body_of ipv4_frame sequence source size payload = do
  let data' = take (size - 14 - 20) payload
  header ← pack (
      u8 0x45
      ∷ u8 0
      ∷ u16 (20 + length data')
      ∷ u16 sequence
      ∷ u16 0
      ∷ u8 64
      ∷ u8 253
      ∷ u16 0
      ∷ raw 4 first_ip
      ∷ raw 4 second_ip
      ∷ [])
  value ← pack (u16 (checksum header) ∷ [])
  ok ((0x08 ∷ 0x00 ∷ (take 10 header ++ (value ++ drop 12 header))) ++ data')

-- the frame with the given sequence number
unfoldable pub build : List ℕ → Shape → ℕ → Result (List ℕ)
unfolding to_bytes2 to_bytes4 body_of counted
build prefix shape sequence = do
  marker ← to_bytes2 sequence
  let source = prefix ++ marker
  let destination = if shape.allowed then inner_dest else (0 ∷ 0 ∷ 0 ∷ 0x22 ∷ 0x22 ∷ 0x22 ∷ [])
  number ← to_bytes4 sequence
  let payload = label ++ (number ++ counted sequence shape.size)
  body ← body_of shape.protocol sequence source shape.size payload
  ok (take shape.size (destination ++ (source ++ body)))

-- one round of `for _ in range(5)`, on the sequence number and the frames
unfoldable pub add_frame : List ℕ → Shape → ℕ → ℕ × List (List ℕ) → Result (ℕ × List (List ℕ))
unfolding build
add_frame prefix shape round (sequence, frames) = do
  frame ← build prefix shape (sequence + 1)
  ok (sequence + 1, frames ++ frame ∷ [])

unfoldable pub add_shape : List ℕ → Shape → ℕ × List Probe → Result (ℕ × List Probe)
unfolding add_frame
add_shape prefix shape (sequence, probes) = do
  (sequence', frames) ← for_each (add_frame prefix shape) (range 0 5) (sequence, [])
  ok (
    sequence',
    probes ++ record { name = shape.name; allowed = shape.allowed; frames = frames } ∷ [],
  )

unfoldable pub make_probes : List ℕ → Result (List Probe)
unfolding add_shape
make_probes prefix = do
  raise_if (not (length prefix == 4)) value_error
  (sequence, probes) ← for_each (add_shape prefix) shapes (0, [])
  ok probes
