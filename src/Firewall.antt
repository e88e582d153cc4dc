-- ===== src/Firewall.antt =====
-- 10_firewall_acl/packets.py: frames for the access list, with the malformed ones. Names of protocols
-- and faults are constructors.
pub mod Built
pub mod Filling
pub mod Packets
pub mod Vectors
pub mod Delivered
pub mod Wanted
pub mod Checked
use Prim.Native.Nat.{bit_or, ℕ, ◌%◌, ◌*◌, ◌+◌, ◌-◌, ◌/◌}
use mathlib.Core.Bool.{Bool, not, ◌||◌}
use mathlib.Core.List.{List, [], ◌++◌, ◌∷◌}
use p4_cases.Ip.Segments.{pseudo}
use p4_cases.Ip.Transport.{checksum_value}
use p4_cases.L2.Content.{arp_packet}
use p4_cases.L2.Datagram.Ipv4.{payload}
use p4_cases.Prelude.Lists.{drop, length, replicate, take}
use p4_cases.Prelude.Result.{Result, err, key_error, ok, raise_if, value_error, ◌>>=◌, ◌>>◌}
use p4_cases.Prelude.Tests.{if◌then◌else◌, ltb, ◌==◌}
use p4_cases.Wire.Bytes.{ljust}
use p4_cases.Wire.Checksum.{checksum}
use p4_cases.Wire.Pack.{Dotted, dotted_packed, pack, raw, u16, u32, u8}

pub data Protocol : Type 0 where
  tcp udp icmp arp : Protocol

pub data Fault : Type 0 where
  no_fault bad_version short_ihl short_total long_total : Fault
  short_tcp short_udp truncated_ip truncated_options : Fault

-- the arguments of `make_frame`
pub record Request : Type 0 where
  pub src_mac : List ℕ
  pub dst_mac : List ℕ
  pub src_ip : Dotted
  pub dst_ip : Dotted
  pub protocol : Protocol
  pub dport : ℕ
  pub options : List ℕ
  pub sequence : ℕ
  pub fault : Fault
  pub flags : ℕ
  pub offset : ℕ

abbrev pub bad_options : List ℕ → Bool
bad_options options = ltb 40 (length options) || not (length options % 4 == 0)

-- `b"p4-acl:"`
abbrev pub label : List ℕ
label = 0x70 ∷ 0x34 ∷ 0x2d ∷ 0x61 ∷ 0x63 ∷ 0x6c ∷ 0x3a ∷ []

-- the entry of the dictionary; ARP is not looked up
abbrev pub number_of : Protocol → ℕ
number_of tcp = 6
number_of udp = 17
number_of icmp = 1
number_of arp = 0

-- `header_size`
abbrev pub header_size : Protocol → ℕ
header_size tcp = 20
header_size udp = 8
header_size icmp = 8
header_size arp = 8

-- `bytes(-(header_size + len(payload)) % 8)`, added for a first fragment
unfoldable pub pad_payload : Protocol → ℕ → List ℕ → List ℕ
pad_payload protocol flags payload =
    if flags % 2 == 1
    then payload ++ replicate ((8 - (header_size protocol + length payload) % 8) % 8) 0
    else payload

-- the transport with a zero checksum
unfoldable pub segment : Protocol → ℕ → ℕ → List ℕ → Result (List ℕ)
unfolding pack
segment tcp sequence dport payload = do
  header ← pack (
      u16 (4000 + sequence % 1000)
      ∷ u16 dport
      ∷ u32 sequence
      ∷ u32 0
      ∷ u8 0x50
      ∷ u8 2
      ∷ u16 8192
      ∷ u16 0
      ∷ u16 0
      ∷ [])
  ok (header ++ payload)
segment udp sequence dport payload = do
  header ← pack (u16 (4000 + sequence % 1000) ∷ u16 dport ∷ u16 (8 + length payload) ∷ u16 0 ∷ [])
  ok (header ++ payload)
segment icmp sequence dport payload = do
  header ← pack (u8 8 ∷ u8 0 ∷ u16 0 ∷ u16 1 ∷ u16 sequence ∷ [])
  ok (header ++ payload)
segment arp sequence dport payload = err key_error

-- `position`
abbrev pub position_of : Protocol → ℕ
position_of tcp = 16
position_of udp = 6
position_of icmp = 2
position_of arp = 0

-- the pseudo header, which ICMP does not have
unfoldable pub pseudo_header : Protocol → List ℕ → List ℕ → ℕ → Result (List ℕ)
unfolding pack
pseudo_header protocol src dst size =
    if not (number_of protocol == 1)
    then (do
      tail ← pack (u8 0 ∷ u8 (number_of protocol) ∷ u16 size ∷ [])
      ok (src ++ (dst ++ tail)))
    else ok []

unfoldable pub with_checksum : Protocol → List ℕ → List ℕ → Result (List ℕ)
unfolding pack
with_checksum protocol pseudo transport = do
  value ← pack (u16 (checksum_value (number_of protocol) (checksum (pseudo ++ transport))) ∷ [])
  ok (take (position_of protocol) transport ++ (value ++ drop (position_of protocol + 2) transport))

-- `ihl`, `total` and `version` after the faults
abbrev pub ihl_of : Fault → ℕ → ℕ
ihl_of short_ihl ihl = 4
ihl_of no_fault ihl = ihl
ihl_of bad_version ihl = ihl
ihl_of short_total ihl = ihl
ihl_of long_total ihl = ihl
ihl_of short_tcp ihl = ihl
ihl_of short_udp ihl = ihl
ihl_of truncated_ip ihl = ihl
ihl_of truncated_options ihl = ihl

abbrev pub total_of : Fault → ℕ → ℕ → ℕ
total_of short_total ihl total = 20
total_of long_total ihl total = 65535
total_of short_tcp ihl total = ihl * 4 + 19
total_of short_udp ihl total = ihl * 4 + 7
total_of no_fault ihl total = total
total_of bad_version ihl total = total
total_of short_ihl ihl total = total
total_of truncated_ip ihl total = total
total_of truncated_options ihl total = total

abbrev pub version_of : Fault → ℕ
version_of bad_version = 6
version_of no_fault = 4
version_of short_ihl = 4
version_of short_total = 4
version_of long_total = 4
version_of short_tcp = 4
version_of short_udp = 4
version_of truncated_ip = 4
version_of truncated_options = 4

-- the header with its checksum; `version << 4 | ihl` has an `ihl` of four bits
unfoldable pub ipv4_header : Request → List ℕ → List ℕ → ℕ → Result (List ℕ)
unfolding pack
ipv4_header r src dst size = do
  let ihl = 5 + length r.options / 4
  front ← pack (
      u8 (version_of r.fault * 16 + ihl_of r.fault ihl)
      ∷ u8 0
      ∷ u16 (total_of r.fault ihl (20 + length r.options + size))
      ∷ u16 r.sequence
      ∷ u16 (bit_or (r.flags * 8192) r.offset)
      ∷ u8 64
      ∷ u8 (number_of r.protocol)
      ∷ u16 0
      ∷ raw 4 src
      ∷ raw 4 dst
      ∷ [])
  let header = front ++ r.options
  value ← pack (u16 (checksum header) ∷ [])
  ok (take 10 header ++ (value ++ drop 12 header))

-- the end of `make_frame`
abbrev pub cut : Fault → List ℕ → List ℕ
cut truncated_ip frame = take 26 frame
cut truncated_options frame = take 36 frame
cut no_fault frame = ljust 60 0 frame
cut bad_version frame = ljust 60 0 frame
cut short_ihl frame = ljust 60 0 frame
cut short_total frame = ljust 60 0 frame
cut long_total frame = ljust 60 0 frame
cut short_tcp frame = ljust 60 0 frame
cut short_udp frame = ljust 60 0 frame

unfoldable pub ip_frame : Request → List ℕ → List ℕ → List ℕ → Result (List ℕ)
unfolding pad_payload segment pseudo_header with_checksum ipv4_header ljust
ip_frame r src dst payload = do
  unchecked ← segment r.protocol r.sequence r.dport (pad_payload r.protocol r.flags payload)
  pseudo ← pseudo_header r.protocol src dst (length unchecked)
  transport ← with_checksum r.protocol pseudo unchecked
  header ← ipv4_header r src dst (length transport)
  ok (cut r.fault ((r.dst_mac ++ r.src_mac) ++ (0x08 ∷ 0x00 ∷ (header ++ transport))))

unfoldable pub arp_frame : Request → List ℕ → List ℕ → Result (List ℕ)
unfolding arp_packet ljust
arp_frame r src dst = do
  body ← arp_packet 1 r.src_mac src (replicate 6 0) dst
  ok (ljust 60 0 ((r.dst_mac ++ r.src_mac) ++ (0x08 ∷ 0x06 ∷ body)))

-- `protocol == "ARP"`
abbrev pub frame_of : Protocol → Result (List ℕ) → Result (List ℕ) → Result (List ℕ)
frame_of arp as_arp as_ip = as_arp
frame_of tcp as_arp as_ip = as_ip
frame_of udp as_arp as_ip = as_ip
frame_of icmp as_arp as_ip = as_ip

unfoldable pub make_frame : Request → Result (List ℕ)
unfolding dotted_packed pack ip_frame arp_frame
make_frame r = do
  raise_if (bad_options r.options) value_error
  src ← dotted_packed r.src_ip
  dst ← dotted_packed r.dst_ip
  number ← pack (u32 r.sequence ∷ [])
  frame_of r.protocol (arp_frame r src dst) (ip_frame r src dst (label ++ number))
