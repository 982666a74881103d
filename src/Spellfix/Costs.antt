-- ===== src/Spellfix/Costs.antt =====
-- characterClass, insertOrDeleteCost and substituteCost: what one edit of a word costs.
use letarette.Base.{
  ℕ, ◌≤◌, ◌<◌, ◌≡◌, refl, ◌↔◌, ◌⊎◌, Bool, true, ◌&&◌, ◌||◌, arith, leb, ◌==◌, if◌then◌else◌,
}
use Prim.Native.Nat.{bit_xor}
use letarette.Base.Bits.{all_below, all_below_sound}
use letarette.Spellfix.Classes.{mid_class, init_class, class_silent, class_vowel, class_b, class_y}

unfoldable pub character_class : ℕ → ℕ → ℕ
character_class c_prev c = if c_prev == 0 then init_class c else mid_class c

unfoldable pub insert_or_delete_cost : ℕ → ℕ → ℕ → ℕ
unfolding character_class
insert_or_delete_cost c_prev c c_next =
    let class_c = character_class c_prev c in
    if class_c == class_silent
    then 1
    else if c_prev == c
    then 10
    else if class_c == class_vowel && (c_prev == b'r' || c_next == b'r')
    then 20
    else if class_c == character_class c_prev c_prev
    then (if class_c == class_vowel then 15 else 50)
    else 100

unfoldable pub is_letter : ℕ → Bool
is_letter c = (leb b'A' c && leb c b'Z') || (leb b'a' c && leb c b'z')

unfoldable pub is_consonant_class : ℕ → Bool
is_consonant_class k = leb class_b k && leb k class_y

unfoldable pub substitute_cost : ℕ → ℕ → ℕ → ℕ
unfolding character_class
substitute_cost c_prev from to =
    let class_from = character_class c_prev from in
    let class_to = character_class c_prev to in
    if from == to
    then 0
    else if from == bit_xor to 0x20 && is_letter to
    then 0
    else if class_from == class_to
    then 40
    else if is_consonant_class class_from && is_consonant_class class_to
    then 75
    else 100

-- The costs of an insertion or a deletion lie between 1 and 100, and those of a substitution are at
-- most 100; a substitution is free exactly if the characters are equal or are the two cases of one
-- letter.
pub cost_bounds :
    (c_prev c d : ℕ)
    → (1 ≤ insert_or_delete_cost c_prev c d)
      × (insert_or_delete_cost c_prev c d ≤ 100)
      × (substitute_cost c_prev c d ≤ 100)
      × ((substitute_cost c_prev c d ≡ 0)
          ↔ ((c ≡ d) ⊎ ((c ≡ bit_xor d 0x20) × (is_letter d ≡ true))))
unfolding insert_or_delete_cost substitute_cost
cost_bounds c_prev c d = (ground arith, ground arith, ground arith, ground arith)

other_case : ℕ → Bool
other_case c =
    if is_letter c then is_letter (bit_xor c 0x20) && bit_xor (bit_xor c 0x20) 0x20 == c else true

other_case_table : all_below 256 other_case ≡ true
unfolding all_below other_case is_letter
other_case_table = refl

-- The other case of a letter is a letter, and its other case is the first one.
is_letter-other_case :
    (c d : ℕ)
    → d < 256
    → c ≡ bit_xor d 0x20
    → is_letter d ≡ true
    → (is_letter c ≡ true) × (d ≡ bit_xor c 0x20)
unfolding other_case
is_letter-other_case c d h same letter =
    let told = all_below_sound 256 other_case d other_case_table h in
    rw same (ground arith, ground arith)

-- Putting one character in the place of another costs what the reverse costs.
pub substitute_cost_symm :
    (c_prev c d : ℕ) → c < 256 → d < 256 → substitute_cost c_prev c d ≡ substitute_cost c_prev d c
unfolding substitute_cost
substitute_cost_symm c_prev c d hc hd =
    ground (arith, is_letter-other_case c d hd, is_letter-other_case d c hc)
