-- ===== src/Ip/Forward.antt =====
-- The address rewrite and the hop count that `expected_frame` of cases 09 and 14 share.
use Prim.Native.Nat.{suc, zero, ℕ, ◌+◌, ◌-◌, ◌<◌}
use mathlib.Core.Bool.{false}
use mathlib.Core.List.{List, [], append_assoc, ◌++◌, ◌∷◌}
use mathlib.Core.Option.{none-ne-some, some, some-injective}
use mathlib.Core.Path.{ap, refl, sym, ◌∙◌, ◌≡◌}
use native.Mathlib.Omega.{arith}
use p4_cases.Prelude.Lists.{
  cut_twice, drop, drop-append, drop-append_append, get_elem?, length, length-append, take,
  take-append,
}
use p4_cases.Prelude.Result.{Result, ok, raise_if, value_error, ◌>>=◌, ◌>>◌}
use p4_cases.Prelude.Slices.{get_elem?-append}
use p4_cases.Prelude.Tests.{◌==◌}
use p4_cases.Wire.Bytes.{byte_at, slice, splice}

-- `result[i] -= 1` on a `bytearray`, which refuses a negative byte
unfoldable pub decrement : ℕ → List ℕ → Result (List ℕ)
decrement i data' = do
  b ← byte_at data' i
  raise_if (b == 0) value_error
  ok (take i data' ++ ((b - 1) ∷ drop (i + 1) data'))

-- `result[:6] = target`, `result[6:12] = frame[:6]`, `result[i] -= 1`
unfoldable pub next_hop : List ℕ → ℕ → List ℕ → Result (List ℕ)
unfolding decrement
next_hop target i frame = decrement i (splice 6 12 (take 6 frame) (splice 0 6 target frame))

-- `g` is the frame `f` one hop further, towards `target`: the sender's next hop becomes the source,
-- the hop count in byte `i` is one less, and nothing else changes.
pub record IsForwarded (target : List ℕ) (i : ℕ) (f g : List ℕ) : Type 0 where
  pub same_length : length g ≡ length f
  pub destination : take 6 g ≡ target
  pub source : slice 6 12 g ≡ take 6 f
  pub middle : slice 12 i g ≡ slice 12 i f
  pub hops : (t : ℕ) × (get_elem? f i ≡ some (t + 1)) × (get_elem? g i ≡ some t)
  pub rest : drop (i + 1) g ≡ drop (i + 1) f

drop_past : (i x : ℕ) (xs ys : List ℕ) → length xs ≡ i → drop (i + 1) (xs ++ (x ∷ ys)) ≡ ys
drop_past i x xs ys h = drop-append_append i 1 xs (x ∷ []) ys h refl

decrement_run :
    (i t : ℕ) (front rest : List ℕ)
    → length front ≡ i
    → decrement i (front ++ ((t + 1) ∷ rest)) ≡ ok (front ++ (t ∷ rest))
unfolding decrement
decrement_run i t front rest h =
    let z : (t + 1 == 0) ≡ false = ground arith in
    let p : t + 1 - 1 ≡ t = omega arith in
    rw
      (
        get_elem?-append front ((t + 1) ∷ rest) i 0 (omega arith),
        z,
        take-append i front ((t + 1) ∷ rest) h,
        drop_past i (t + 1) front rest h,
        p,
      )
      refl

-- The slices of a frame in five parts.
module _ (a b c rest : List ℕ) (x k : ℕ) (ha : length a ≡ 6) (hb : length b ≡ 6)
    (hc : length c ≡ k) where
  abbrev parts : List ℕ
  parts = a ++ (b ++ (c ++ (x ∷ rest)))

  regroup : (a ++ (b ++ c)) ++ (x ∷ rest) ≡ parts
  regroup = append_assoc a (b ++ c) (x ∷ rest) ∙ ap (λ r. a ++ r) (append_assoc b c (x ∷ rest))

  length_front : length (a ++ (b ++ c)) ≡ 12 + k
  length_front = omega (arith, length-append a (b ++ c), length-append b c)

  length_five : length parts ≡ 13 + k + length rest
  length_five =
      omega (arith, ap length regroup, length_front, length-append (a ++ (b ++ c)) (x ∷ rest))

  take_first : take 6 parts ≡ a
  take_first = take-append 6 a _ ha

  slice_second : slice 6 12 parts ≡ b
  slice_second = rw (drop-append 6 a (b ++ (c ++ (x ∷ rest))) ha) (take-append 6 b _ hb)

  slice_third : slice 12 (12 + k) parts ≡ c
  slice_third =
      rw (drop-append_append 6 6 a b (c ++ (x ∷ rest)) ha hb)
        (take-append (12 + k - 12) c (x ∷ rest) (omega arith))

  element : get_elem? parts (12 + k) ≡ some x
  element =
      rw (← regroup)
        (get_elem?-append (a ++ (b ++ c)) (x ∷ rest) (12 + k) 0 (omega (arith, length_front)))

  drop_element : drop (12 + k + 1) parts ≡ rest
  drop_element = rw (← regroup) (drop_past (12 + k) x (a ++ (b ++ c)) rest length_front)

module _ (target d s m rest : List ℕ) (t k : ℕ) (ht : length target ≡ 6) (hd : length d ≡ 6)
    (hs : length s ≡ 6) (hm : length m ≡ k) where
  abbrev before : List ℕ
  before = parts d s m rest (t + 1) k hd hs hm

  abbrev after : List ℕ
  after = parts target d m rest t k ht hd hm

  moved_run :
      splice 6 12 (take 6 before) (splice 0 6 target before)
      ≡ parts target d m rest (t + 1) k ht hd hm
  moved_run =
      let tail : List ℕ = m ++ ((t + 1) ∷ rest) in
      rw (drop-append 6 d (s ++ tail) hd, take-append 6 d (s ++ tail) hd)
        (rw (take-append 6 target (s ++ tail) ht, drop-append_append 6 6 target s tail ht hs) refl)

  pub next_hop_run : next_hop target (12 + k) before ≡ ok after
  unfolding next_hop
  next_hop_run =
      ap (λ f. decrement (12 + k) f) (moved_run ∙ sym (regroup target d m rest (t + 1) k ht hd hm))
      ∙ decrement_run (12 + k) t (target ++ (d ++ m)) rest
          (length_front target d m rest t k ht hd hm)
      ∙ ap ok (regroup target d m rest t k ht hd hm)

  pub before-after-IsForwarded : IsForwarded target (12 + k) before after
  before-after-IsForwarded = record {
    same_length =
        length_five target d m rest t k ht hd hm ∙ sym (length_five d s m rest (t + 1) k hd hs hm);
    destination = take_first target d m rest t k ht hd hm;
    source =
        slice_second target d m rest t k ht hd hm ∙ sym (take_first d s m rest (t + 1) k hd hs hm);
    middle =
        slice_third target d m rest t k ht hd hm ∙ sym (slice_third d s m rest (t + 1) k hd hs hm);
    hops = (t, element d s m rest (t + 1) k hd hs hm, element target d m rest t k ht hd hm);
    rest =
        drop_element target d m rest t k ht hd hm
        ∙ sym (drop_element d s m rest (t + 1) k hd hs hm);
  }

get_elem?-lt : (xs : List ℕ) (i a : ℕ) → get_elem? xs i ≡ some a → i < length xs
get_elem?-lt [] i a e = absurd (none-ne-some _ e)
get_elem?-lt (x ∷ xs) zero a e = omega arith
get_elem?-lt (x ∷ xs) (suc i) a e = omega (arith, get_elem?-lt xs i a e)

split_at :
    (k : ℕ) (xs : List ℕ) (a : ℕ)
    → get_elem? xs k ≡ some a
    → (m : List ℕ) × (rest : List ℕ) × (xs ≡ m ++ (a ∷ rest)) × (length m ≡ k)
split_at k [] a e = absurd (none-ne-some _ e)
split_at zero (x ∷ xs) a e = ([], xs, ap (λ y. y ∷ xs) (some-injective x a e), refl)
split_at (suc k) (x ∷ xs) a e =
    let (m, rest, q, n) = split_at k xs a e in (x ∷ m, rest, ap (λ ys. x ∷ ys) q, ap suc n)

-- A frame whose byte `i`, past the addresses, is not zero is one hop further in `next_hop`.
pub next_hop-IsForwarded :
    (target : List ℕ) (k t : ℕ) (f : List ℕ)
    → length target ≡ 6
    → get_elem? f (12 + k) ≡ some (t + 1)
    → (g : List ℕ) × (next_hop target (12 + k) f ≡ ok g) × IsForwarded target (12 + k) f g
next_hop-IsForwarded target k t f ht e =
    let l = get_elem?-lt f (12 + k) (t + 1) e in
    let (d, s, c, q, hd, hs) = cut_twice 6 6 f (omega arith) in
    let at : get_elem? (d ++ (s ++ c)) (12 + k) ≡ some (t + 1) = rw (← q) e in
    let past : get_elem? (d ++ (s ++ c)) (12 + k) ≡ get_elem? c k =
      get_elem?-append d (s ++ c) (12 + k) (6 + k) (omega arith)
      ∙ get_elem?-append s c (6 + k) k (omega arith) in
    let (m, rest, r, hm) = split_at k c (t + 1) (sym past ∙ at) in
    rw (q, r)
      (
        after target d s m rest t k ht hd hs hm,
        next_hop_run target d s m rest t k ht hd hs hm,
        before-after-IsForwarded target d s m rest t k ht hd hs hm,
      )
