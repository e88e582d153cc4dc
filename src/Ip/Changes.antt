-- ===== src/Ip/Changes.antt =====
-- The changes that `make_probes` of cases 06, 09, 12 and 14 makes to a finished frame.
use Prim.Native.Nat.{bit_xor, ℕ, ◌+◌}
use Prim.Native.String.{String}
use mathlib.Core.List.{List, ◌++◌, ◌∷◌}
use p4_cases.Ip.Recalculate.{recalculate_checksum}
use p4_cases.Prelude.Lists.{drop, length, take}
use p4_cases.Prelude.Result.{Result, ok, ◌>>=◌}
use p4_cases.Prelude.Text.{decimal, ◌<>◌}
use p4_cases.Wire.Bytes.{byte_at, splice}
use p4_cases.Wire.Pack.{Dotted}

-- `replace(offset, data)`: the bytes at the offset, and the checksum for them
unfoldable pub replace : ℕ → List ℕ → List ℕ → Result (List ℕ)
unfolding recalculate_checksum
replace offset data' frame =
    recalculate_checksum (splice offset (offset + length data') data' frame)

-- `frame[:i] + bytes((frame[i] ^ 1,)) + frame[i + 1:]`
unfoldable pub flip_byte : ℕ → List ℕ → Result (List ℕ)
flip_byte i frame = do b ← byte_at frame i; ok (take i frame ++ (bit_xor b 1 ∷ drop (i + 1) frame))

-- the text of an address
unfoldable pub dotted_text : Dotted → String
unfolding decimal
dotted_text ip =
    decimal ip.a <> ("." <> (decimal ip.b <> ("." <> (decimal ip.c <> ("." <> decimal ip.d)))))
