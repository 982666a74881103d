-- ===== src/Compress/Size.antt =====
-- The seven-bit groups of a size: what the header writer computes and what the reader accumulates.
use letarette.Base.{
  ℕ, zero, suc, ◌+◌, ◌*◌, ◌/◌, ◌^◌, ◌≤◌, ◌<◌, ◌≡◌, refl, ap, ◌∙◌, arith, bit_or, List, [], ◌∷◌,
  ◌++◌, length, All, ◌==◌, Bool-cases, inl, inr, ◌≢◌,
}
use letarette.Base.Bits.{bit_and_low, bit_or_shift, set_top_bit, top_bit}
use letarette.Compress.{size_groups, skip_zeros, mark_last, read_size}

-- The number whose groups, most significant first, follow the size read so far.
abbrev pub value : ℕ → List ℕ → ℕ
value size [] = size
value size (g ∷ groups) = value (size * 128 + g) groups

abbrev pub IsGroup : ℕ → Type 0
IsGroup g = g < 128

-- A size below this leaves room for `k` more groups in 35 bits.
abbrev room : ℕ → ℕ
room zero = 2 ^ 35
room (suc k) = room k / 128

room-le : (k : ℕ) → room k ≤ 2 ^ 35
room-le zero = omega arith
room-le (suc k) = omega (arith, room-le k)

module _ (rounds g : ℕ) (bytes : List ℕ) (size : ℕ) (small : g < 128) (fits : size < 2 ^ 35) where
  read_inner : read_size (suc rounds) (g ∷ bytes) size ≡ read_size rounds bytes (size * 128 + g)
  unfolding read_size
  read_inner = ground (arith, bit_and_low g, top_bit g, bit_or_shift 7 size g)

  read_last : read_size (suc rounds) (bit_or g 0x80 ∷ bytes) size ≡ (size * 128 + g, bytes)
  unfolding read_size
  read_last =
      ground (arith, set_top_bit g, bit_and_low (g + 128), top_bit (g + 128), bit_or_shift 7 size g)

-- Reading marked groups gives their value and leaves what follows them.
read_size-mark_last :
    (groups rest : List ℕ) (rounds size : ℕ)
    → All IsGroup groups
    → groups ≢ []
    → length groups ≤ rounds
    → size < room (length groups)
    → read_size rounds (mark_last groups ++ rest) size ≡ (value size groups, rest)
unfolding mark_last
read_size-mark_last [] rest rounds size h ne len fits = absurd (ne refl)
read_size-mark_last (g ∷ groups) rest zero size h ne len fits = absurd (omega arith)
read_size-mark_last (g ∷ []) rest (suc rounds) size h ne len fits =
    read_last rounds g rest size h.0 (omega (arith, room-le 1))
read_size-mark_last (g ∷ k ∷ groups) rest (suc rounds) size h ne len fits = ground (
  arith,
  read_inner rounds g (mark_last (k ∷ groups) ++ rest) size h.0
      (omega (arith, room-le (suc (suc (length groups))))),
  read_size-mark_last (k ∷ groups) rest rounds (size * 128 + g) h.1 (λ e. cc) (omega arith)
      (omega arith),
)

skip_zeros-value : (groups : List ℕ) → value 0 (skip_zeros groups) ≡ value 0 groups
unfolding skip_zeros
skip_zeros-value [] = refl
skip_zeros-value (x ∷ []) = refl
skip_zeros-value (x ∷ y ∷ rest) = ground (arith, skip_zeros-value (y ∷ rest))

size_groups-value : (n : ℕ) → n < 2 ^ 35 → value 0 (size_groups n) ≡ n
unfolding size_groups
size_groups-value n h = omega (
  arith,
  bit_and_low (n / 2 ^ 28),
  bit_and_low (n / 2 ^ 21),
  bit_and_low (n / 2 ^ 14),
  bit_and_low (n / 2 ^ 7),
  bit_and_low (n / 2 ^ 0),
)

size_groups-IsGroup : (n : ℕ) → All IsGroup (size_groups n)
unfolding size_groups
size_groups-IsGroup n = omega (
  arith,
  bit_and_low (n / 2 ^ 28),
  bit_and_low (n / 2 ^ 21),
  bit_and_low (n / 2 ^ 14),
  bit_and_low (n / 2 ^ 7),
  bit_and_low (n / 2 ^ 0),
)

-- Skipping keeps the groups small, keeps one of them, and adds none.
record IsKept (groups kept : List ℕ) : Type 0 where
  small : All IsGroup kept
  filled : kept ≢ []
  shorter : length kept ≤ length groups

skip_zeros-IsKept :
    (x : ℕ) (groups : List ℕ)
    → All IsGroup (x ∷ groups)
    → IsKept (x ∷ groups) (skip_zeros (x ∷ groups))
unfolding skip_zeros
skip_zeros-IsKept x [] h = record { small = h; filled = λ e. cc; shorter = omega arith }
skip_zeros-IsKept x (y ∷ rest) h = elim (Bool-cases (x == 0)) [
  | inl leading ↦ rw leading (lengthen (skip_zeros-IsKept y rest h.1))
  | inr first ↦ rw first (record { small = h; filled = λ e. cc; shorter = omega arith })
]
  where
    lengthen : {kept : List ℕ} → IsKept (y ∷ rest) kept → IsKept (x ∷ y ∷ rest) kept
    lengthen k = record { small = k.small; filled = k.filled; shorter = omega arith }

room_for : (k : ℕ) → k ≤ 5 → 0 < room k
room_for zero h = omega arith
room_for (suc zero) h = omega arith
room_for (suc (suc zero)) h = omega arith
room_for (suc (suc (suc zero))) h = omega arith
room_for (suc (suc (suc (suc zero)))) h = omega arith
room_for (suc (suc (suc (suc (suc k))))) h = ground arith

size_groups-IsKept : (n : ℕ) → IsKept (size_groups n) (skip_zeros (size_groups n))
size_groups-IsKept n = unfold size_groups in skip_zeros-IsKept _ _ (size_groups-IsGroup n)

pub few_groups : (n : ℕ) → length (skip_zeros (size_groups n)) ≤ 5
few_groups n = unfold size_groups in (size_groups-IsKept n).shorter

-- The groups that are written, marked, read back as the size.
pub read_size-groups :
    (n : ℕ) (rest : List ℕ)
    → n < 2 ^ 35
    → read_size 5 (mark_last (skip_zeros (size_groups n)) ++ rest) 0 ≡ (n, rest)
read_size-groups n rest h =
    let kept = size_groups-IsKept n in
    let few : length (skip_zeros (size_groups n)) ≤ 5 = few_groups n in
    read_size-mark_last _ rest 5 0 kept.small kept.filled few (room_for _ few)
    ∙ ap (λ (v : ℕ). (v, rest)) (skip_zeros-value (size_groups n) ∙ size_groups-value n h)
