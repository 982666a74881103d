-- ===== src/Spellfix/Classes.antt =====
-- The character classes CCLASS_*, their tables midClass and initClass, and className.
use letarette.Base.{
  get_or, ℕ, ◌<◌, bit_and, ◌≡◌, refl, ◌≢◌, ◌↔◌, Bool, true, ◌&&◌, ◌||◌, not, List, [], ◌∷◌, arith,
  ltb, ◌==◌, if◌then◌else◌,
}
use letarette.Base.Bits.{all_below, all_below_sound}

abbrev pub class_silent : ℕ
class_silent = 0

abbrev pub class_vowel : ℕ
class_vowel = 1

abbrev pub class_b : ℕ
class_b = 2

abbrev pub class_c : ℕ
class_c = 3

abbrev pub class_d : ℕ
class_d = 4

abbrev pub class_h : ℕ
class_h = 5

abbrev pub class_l : ℕ
class_l = 6

abbrev pub class_r : ℕ
class_r = 7

abbrev pub class_m : ℕ
class_m = 8

abbrev pub class_y : ℕ
class_y = 9

abbrev pub class_digit : ℕ
class_digit = 10

abbrev pub class_space : ℕ
class_space = 11

abbrev pub class_other : ℕ
class_other = 12

mid_class_table : List ℕ
mid_class_table =
    class_other ∷ class_other ∷ class_other ∷ class_other ∷ class_other ∷ class_other ∷ class_other
    ∷ class_other ∷ class_other ∷ class_space ∷ class_other ∷ class_other ∷ class_space
    ∷ class_space ∷ class_other ∷ class_other ∷ class_other ∷ class_other ∷ class_other
    ∷ class_other ∷ class_other ∷ class_other ∷ class_other ∷ class_other ∷ class_other
    ∷ class_other ∷ class_other ∷ class_other ∷ class_other ∷ class_other ∷ class_other
    ∷ class_other ∷ class_space ∷ class_other ∷ class_other ∷ class_other ∷ class_other
    ∷ class_other ∷ class_other ∷ class_silent ∷ class_other ∷ class_other ∷ class_other
    ∷ class_other ∷ class_other ∷ class_other ∷ class_other ∷ class_other ∷ class_digit
    ∷ class_digit ∷ class_digit ∷ class_digit ∷ class_digit ∷ class_digit ∷ class_digit
    ∷ class_digit ∷ class_digit ∷ class_digit ∷ class_other ∷ class_other ∷ class_other
    ∷ class_other ∷ class_other ∷ class_other ∷ class_other ∷ class_vowel ∷ class_b ∷ class_c
    ∷ class_d ∷ class_vowel ∷ class_b ∷ class_c ∷ class_silent ∷ class_vowel ∷ class_c ∷ class_c
    ∷ class_l ∷ class_m ∷ class_m ∷ class_vowel ∷ class_b ∷ class_c ∷ class_r ∷ class_c ∷ class_d
    ∷ class_vowel ∷ class_b ∷ class_b ∷ class_c ∷ class_vowel ∷ class_c ∷ class_other ∷ class_other
    ∷ class_other ∷ class_other ∷ class_other ∷ class_other ∷ class_vowel ∷ class_b ∷ class_c
    ∷ class_d ∷ class_vowel ∷ class_b ∷ class_c ∷ class_silent ∷ class_vowel ∷ class_c ∷ class_c
    ∷ class_l ∷ class_m ∷ class_m ∷ class_vowel ∷ class_b ∷ class_c ∷ class_r ∷ class_c ∷ class_d
    ∷ class_vowel ∷ class_b ∷ class_b ∷ class_c ∷ class_vowel ∷ class_c ∷ class_other ∷ class_other
    ∷ class_other ∷ class_other ∷ class_other ∷ []

init_class_table : List ℕ
init_class_table =
    class_other ∷ class_other ∷ class_other ∷ class_other ∷ class_other ∷ class_other ∷ class_other
    ∷ class_other ∷ class_other ∷ class_space ∷ class_other ∷ class_other ∷ class_space
    ∷ class_space ∷ class_other ∷ class_other ∷ class_other ∷ class_other ∷ class_other
    ∷ class_other ∷ class_other ∷ class_other ∷ class_other ∷ class_other ∷ class_other
    ∷ class_other ∷ class_other ∷ class_other ∷ class_other ∷ class_other ∷ class_other
    ∷ class_other ∷ class_space ∷ class_other ∷ class_other ∷ class_other ∷ class_other
    ∷ class_other ∷ class_other ∷ class_other ∷ class_other ∷ class_other ∷ class_other
    ∷ class_other ∷ class_other ∷ class_other ∷ class_other ∷ class_other ∷ class_digit
    ∷ class_digit ∷ class_digit ∷ class_digit ∷ class_digit ∷ class_digit ∷ class_digit
    ∷ class_digit ∷ class_digit ∷ class_digit ∷ class_other ∷ class_other ∷ class_other
    ∷ class_other ∷ class_other ∷ class_other ∷ class_other ∷ class_vowel ∷ class_b ∷ class_c
    ∷ class_d ∷ class_vowel ∷ class_b ∷ class_c ∷ class_silent ∷ class_vowel ∷ class_c ∷ class_c
    ∷ class_l ∷ class_m ∷ class_m ∷ class_vowel ∷ class_b ∷ class_c ∷ class_r ∷ class_c ∷ class_d
    ∷ class_vowel ∷ class_b ∷ class_b ∷ class_c ∷ class_y ∷ class_c ∷ class_other ∷ class_other
    ∷ class_other ∷ class_other ∷ class_other ∷ class_other ∷ class_vowel ∷ class_b ∷ class_c
    ∷ class_d ∷ class_vowel ∷ class_b ∷ class_c ∷ class_silent ∷ class_vowel ∷ class_c ∷ class_c
    ∷ class_l ∷ class_m ∷ class_m ∷ class_vowel ∷ class_b ∷ class_c ∷ class_r ∷ class_c ∷ class_d
    ∷ class_vowel ∷ class_b ∷ class_b ∷ class_c ∷ class_y ∷ class_c ∷ class_other ∷ class_other
    ∷ class_other ∷ class_other ∷ class_other ∷ []

-- midClass[c & 0x7f] and initClass[c & 0x7f], for a byte c.
unfoldable pub mid_class : ℕ → ℕ
unfolding mid_class_table
mid_class c = get_or mid_class_table (bit_and c 0x7f) class_other

unfoldable pub init_class : ℕ → ℕ
unfolding init_class_table
init_class c = get_or init_class_table (bit_and c 0x7f) class_other

-- className, the string ".ABCDHLRMY9 ?" and its final NUL.
abbrev pub class_names : List ℕ
class_names =
    b'.' ∷ b'A' ∷ b'B' ∷ b'C' ∷ b'D' ∷ b'H' ∷ b'L' ∷ b'R' ∷ b'M' ∷ b'Y' ∷ b'9' ∷ b' ' ∷ b'?' ∷ 0
    ∷ []

unfoldable pub class_name : ℕ → ℕ
class_name k = get_or class_names k 0

tables_within : all_below 256 (λ c. ltb (mid_class c) 13 && ltb (init_class c) 13) ≡ true
unfolding all_below mid_class init_class mid_class_table init_class_table
tables_within = refl

-- The class of every byte has a name.
pub class-lt : (c : ℕ) → c < 256 → (mid_class c < 13) × (init_class c < 13)
class-lt c h = let both = all_below_sound 256 _ c tables_within h in (ground arith, ground arith)

tables_compared :
    all_below 128 (λ c.
      if c == 39 || c == b'Y' || c == b'y'
      then not (init_class c == mid_class c)
      else init_class c == mid_class c)
    ≡ true
unfolding all_below mid_class init_class mid_class_table init_class_table
tables_compared = refl

-- The two tables differ exactly at the apostrophe, Y and y.
pub init_class-eq-mid_class :
    (c : ℕ) → c < 128 → (init_class c ≡ mid_class c) ↔ ((c ≢ 39) × (c ≢ b'Y') × (c ≢ b'y'))
init_class-eq-mid_class c h = let agreed = all_below_sound 128 _ c tables_compared h in ground arith

-- A letter of className and the one class that it names.
names : ℕ → ℕ → ℕ → Bool
names letter class k = if k == class then class_name k == letter else not (class_name k == letter)

names_compared : all_below 13 (λ k. names b'A' 1 k && names b'L' 6 k && names b'R' 7 k) ≡ true
unfolding all_below names class_name
names_compared = refl

-- Only vowels are named A, only L is named L, and only R is named R.
pub class_name_iff :
    (k : ℕ)
    → k < 13
    → ((class_name k ≡ b'A') ↔ (k ≡ class_vowel))
      × ((class_name k ≡ b'L') ↔ (k ≡ class_l))
      × ((class_name k ≡ b'R') ↔ (k ≡ class_r))
unfolding names
class_name_iff k h =
    let told = all_below_sound 13 _ k names_compared h in (ground arith, ground arith, ground arith)

names_read :
    all_below 13 (λ k.
      if k == 0 || k == 5
      then not (init_class (class_name k) == k)
      else init_class (class_name k) == k)
    ≡ true
unfolding all_below init_class init_class_table class_name
names_read = refl

-- initClass maps the symbol of a class back to the class, but for the silent class and the class H.
pub init_class-class_name :
    (k : ℕ) → k < 13 → (init_class (class_name k) ≡ k) ↔ ((k ≢ class_silent) × (k ≢ class_h))
init_class-class_name k h = let told = all_below_sound 13 _ k names_read h in ground arith
