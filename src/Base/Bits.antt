-- ===== src/Base/Bits.antt =====
-- The masks of the C code as arithmetic: tables over one byte, and `|` into cleared low bits.
use Prim.Native.Nat.{
  ℕ, zero, suc, ◌+◌, ◌*◌, ◌/◌, ◌%◌, ◌^◌, ◌≤◌, ◌<◌, min, max, bit_and, bit_or, digits,
  bit_and-bitwise, bit_or-bitwise,
}
use mathlib.Core.Path.{◌≡◌, refl, ap, ◌∙◌}
use mathlib.Core.Bool.{Bool, true, ◌&&◌}
use native.Mathlib.Nat.{pow-suc}
use native.Mathlib.Decide.{dec_le}
use native.Mathlib.Omega.{arith}
use letarette.Base.Order.{◌==◌, ==_iff}

unfoldable pub all_below : ℕ → (ℕ → Bool) → Bool
all_below zero p = true
all_below (suc n) p = p n && all_below n p

pub all_below_sound : (n : ℕ) (p : ℕ → Bool) (x : ℕ) → all_below n p ≡ true → x < n → p x ≡ true
unfolding all_below
all_below_sound zero p x h lt = elim lt [ ]
all_below_sound (suc n) p x h lt = let earlier = all_below_sound n p x in ground (arith, earlier)

top_bit_table : all_below 256 (λ b. bit_and b 0x80 == b / 128 * 128) ≡ true
unfolding all_below
top_bit_table = refl

pub top_bit : (b : ℕ) → b < 256 → bit_and b 0x80 ≡ b / 128 * 128
top_bit b h = (==_iff _ _).0 (all_below_sound 256 _ b top_bit_table h)

set_top_bit_table : all_below 128 (λ b. bit_or b 0x80 == b + 128) ≡ true
unfolding all_below
set_top_bit_table = refl

pub set_top_bit : (b : ℕ) → b < 128 → bit_or b 0x80 ≡ b + 128
set_top_bit b h = (==_iff _ _).0 (all_below_sound 128 _ b set_top_bit_table h)

-- Rounds beyond the value of the first number change nothing.
module _ (empty : ℕ → ℕ) (digit : ℕ → ℕ → ℕ) where
  one_round_less : (n a b : ℕ) → a ≤ n → digits empty digit (suc n) a b ≡ digits empty digit n a b
  one_round_less zero zero b h = refl
  one_round_less zero (suc a) b h = absurd (omega arith)
  one_round_less (suc n) zero b h = refl
  one_round_less (suc n) (suc a) b h =
      ap (λ (high : ℕ). high * 2 + digit (suc a % 2) (b % 2))
        (one_round_less n (suc a / 2) (b / 2) (omega arith))

  rounds_enough : (n a b : ℕ) → a ≤ n → digits empty digit n a b ≡ digits empty digit a a b
  rounds_enough zero zero b h = refl
  rounds_enough zero (suc a) b h = absurd (omega arith)
  rounds_enough (suc n) a b h = elim (dec_le a n) [
    | yes spare ↦ one_round_less n a b spare ∙ rounds_enough n a b spare
    | no tight ↦ let last : suc n ≡ a = omega arith in ap (λ (k : ℕ). digits empty digit k a b) last
  ]

abbrev keep : ℕ → ℕ
keep b = b

abbrev clear : ℕ → ℕ
clear b = 0

bit_or_halves : (a b : ℕ) → bit_or a b ≡ bit_or (a / 2) (b / 2) * 2 + max (a % 2) (b % 2)
bit_or_halves zero b =
    let whole = bit_or-bitwise 0 b in let half = bit_or-bitwise 0 (b / 2) in omega arith
bit_or_halves (suc a) b =
    let whole = bit_or-bitwise (suc a) b in
    let half = bit_or-bitwise (suc a / 2) (b / 2) in
    let spare = rounds_enough keep max a (suc a / 2) (b / 2) (omega arith) in omega arith

bit_and_halves : (a b : ℕ) → bit_and a b ≡ bit_and (a / 2) (b / 2) * 2 + min (a % 2) (b % 2)
bit_and_halves zero b =
    let whole = bit_and-bitwise 0 b in let half = bit_and-bitwise 0 (b / 2) in omega arith
bit_and_halves (suc a) b =
    let whole = bit_and-bitwise (suc a) b in
    let half = bit_and-bitwise (suc a / 2) (b / 2) in
    let spare = rounds_enough clear min a (suc a / 2) (b / 2) (omega arith) in omega arith

bit_or-zero_below : (n a : ℕ) → a ≤ n → bit_or a 0 ≡ a
bit_or-zero_below n zero h = refl
bit_or-zero_below zero (suc a) h = absurd (omega arith)
bit_or-zero_below (suc n) (suc a) h =
    omega (arith, bit_or_halves (suc a) 0, bit_or-zero_below n (suc a / 2) (omega arith))

bit_and-zero_below : (n a : ℕ) → a ≤ n → bit_and a 0 ≡ 0
bit_and-zero_below n zero h = refl
bit_and-zero_below zero (suc a) h = absurd (omega arith)
bit_and-zero_below (suc n) (suc a) h =
    omega (arith, bit_and_halves (suc a) 0, bit_and-zero_below n (suc a / 2) (omega arith))

-- `(a << k) | b`, where `b` has `k` bits, is a sum.
pub bit_or_shift : (k a b : ℕ) → b < 2 ^ k → bit_or (a * 2 ^ k) b ≡ a * 2 ^ k + b
bit_or_shift zero a b h = ground (arith, bit_or-zero_below a a)
bit_or_shift (suc k) a b h = ground (
  arith,
  bit_or_halves (a * 2 ^ suc k) b,
  ap (λ (t : ℕ). a * t) (pow-suc 2 k),
  bit_or_shift k a (b / 2) (omega (arith, pow-suc 2 k)),
)

-- A mask of ones, one bit longer at a time.
bit_and_longer : (mask a : ℕ) → bit_and a (mask * 2 + 1) ≡ bit_and (a / 2) mask * 2 + a % 2
bit_and_longer mask a =
    let rest : (mask * 2 + 1) / 2 ≡ mask = omega arith in
    let halves : bit_and a (mask * 2 + 1)
        ≡ bit_and (a / 2) mask * 2 + min (a % 2) ((mask * 2 + 1) % 2) =
      rw rest at (bit_and_halves a (mask * 2 + 1)) in
    omega arith

low_bits_one : (a : ℕ) → bit_and a 0x01 ≡ a % 2
low_bits_one a = omega (arith, bit_and_longer 0 a, bit_and-zero_below (a / 2) (a / 2) (omega arith))

low_bits_two : (a : ℕ) → bit_and a 0x03 ≡ a % 4
low_bits_two a = omega (arith, bit_and_longer 1 a, low_bits_one (a / 2))

low_bits_three : (a : ℕ) → bit_and a 0x07 ≡ a % 8
low_bits_three a = omega (arith, bit_and_longer 3 a, low_bits_two (a / 2))

low_bits_four : (a : ℕ) → bit_and a 0x0f ≡ a % 16
low_bits_four a = omega (arith, bit_and_longer 7 a, low_bits_three (a / 2))

low_bits_five : (a : ℕ) → bit_and a 0x1f ≡ a % 32
low_bits_five a = omega (arith, bit_and_longer 15 a, low_bits_four (a / 2))

low_bits_six : (a : ℕ) → bit_and a 0x3f ≡ a % 64
low_bits_six a = omega (arith, bit_and_longer 31 a, low_bits_five (a / 2))

-- `a & 0x7f`, for a value of any width.
pub bit_and_low : (a : ℕ) → bit_and a 0x7f ≡ a % 128
bit_and_low a = omega (arith, bit_and_longer 63 a, low_bits_six (a / 2))
