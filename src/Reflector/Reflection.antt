-- ===== src/Reflector/Reflection.antt =====
-- What `reflect_frame` does to a frame.
-- A frame whose two addresses stand apart.
use Prim.Native.Nat.{ℕ, ◌+◌, ◌<◌, ◌≤◌}
use mathlib.Core.List.{List, ◌++◌}
use mathlib.Core.Path.{ap, sym, ◌∙◌, ◌≡◌}
use native.Mathlib.Omega.{arith}
use p4_cases.Prelude.Lists.{
  cut_twice, drop, drop-append, drop-append_append, length, length-append, take, take-append,
}
use p4_cases.Prelude.Result.{err, ok, value_error}
use p4_cases.Prelude.Tests.{lt→ltb}
use p4_cases.Reflector.{reflect_frame}
use p4_cases.Wire.Bytes.{slice}

module _ (d s rest : List ℕ) (hd : length d ≡ 6) (hs : length s ≡ 6) where
  take_destination : take 6 (d ++ (s ++ rest)) ≡ d
  take_destination = take-append 6 d (s ++ rest) hd

  slice_source : slice 6 12 (d ++ (s ++ rest)) ≡ s
  slice_source = rw (drop-append 6 d (s ++ rest) hd) (take-append 6 s rest hs)

  drop_addresses : drop 12 (d ++ (s ++ rest)) ≡ rest
  drop_addresses = drop-append_append 6 6 d s rest hd hs

  length_parts : length (d ++ (s ++ rest)) ≡ 12 + length rest
  length_parts = omega (arith, length-append d (s ++ rest), length-append s rest)

  pub reflect_frame_run : 2 ≤ length rest → reflect_frame (d ++ (s ++ rest)) ≡ ok (s ++ (d ++ rest))
  unfolding reflect_frame
  reflect_frame_run h = ground (arith, length_parts, take_destination, slice_source, drop_addresses)

-- What `g` shares with the frame `f` that it reflects.
pub record IsReflection (f g : List ℕ) : Type 0 where
  pub same_length : length g ≡ length f
  pub destination : take 6 g ≡ slice 6 12 f
  pub source : slice 6 12 g ≡ take 6 f
  pub rest : drop 12 g ≡ drop 12 f

parts-IsReflection :
    (d s rest : List ℕ)
    → length d ≡ 6
    → length s ≡ 6
    → IsReflection (d ++ (s ++ rest)) (s ++ (d ++ rest))
parts-IsReflection d s rest hd hs = record {
  same_length = length_parts s d rest hs hd ∙ sym (length_parts d s rest hd hs);
  destination = take_destination s d rest hs hd ∙ sym (slice_source d s rest hd hs);
  source = slice_source s d rest hs hd ∙ sym (take_destination d s rest hd hs);
  rest = drop_addresses s d rest hs hd ∙ sym (drop_addresses d s rest hd hs);
}

-- A frame of at least 14 bytes has a reflection: the addresses are exchanged, the length and the
-- bytes from 12 on are kept, and reflecting again gives the frame back.
pub reflect_frame-reflect_frame :
    (f : List ℕ)
    → 14 ≤ length f
    → (g : List ℕ) × (reflect_frame f ≡ ok g) × IsReflection f g × (reflect_frame g ≡ ok f)
reflect_frame-reflect_frame f h =
    let (d, s, rest, e, hd, hs) = cut_twice 6 6 f (omega arith) in
    let enough : 2 ≤ length rest = omega (arith, length_parts d s rest hd hs, ap length e) in
    rw e (
      s ++ (d ++ rest),
      reflect_frame_run d s rest hd hs enough,
      parts-IsReflection d s rest hd hs,
      reflect_frame_run s d rest hs hd enough,
    )

-- A shorter frame is refused.
pub reflect_frame_short : (f : List ℕ) → length f < 14 → reflect_frame f ≡ err value_error
unfolding reflect_frame
reflect_frame_short f h = rw (lt→ltb _ _ h)
