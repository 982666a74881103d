-- ===== src/Spellfix/Edit/Examples.antt =====
-- Runs of editdist1, and its theorems at concrete words.
use letarette.Base.{ℕ, ◌≡◌, refl, true, false, none, some, List, [], ◌∷◌, arith, pos, negsuc}
use letarette.Spellfix.Classes.{mid_class, init_class}
use letarette.Spellfix.Costs.{insert_or_delete_cost, substitute_cost, is_consonant_class}
use letarette.Spellfix.Edit.{Apart, wagner, editdist1, ends_in_star}
use letarette.Spellfix.Edit.Matrix.{matrix}
use letarette.Spellfix.Edit.Result.{IsBest, wagner-IsBest}
use letarette.Spellfix.Edit.Answers.{Explains, editdist1-Explains}

-- Two words.
abbrev kitten : List ℕ
kitten = b'k' ∷ b'i' ∷ b't' ∷ b't' ∷ b'e' ∷ b'n' ∷ []

abbrev sitting : List ℕ
sitting = b's' ∷ b'i' ∷ b't' ∷ b't' ∷ b'i' ∷ b'n' ∷ b'g' ∷ []

distance : editdist1 true false (some kitten) (some sitting) ≡ some (pos 105, none)
unfolding editdist1 insert_or_delete_cost substitute_cost is_consonant_class mid_class init_class
distance = refl

-- The pattern "s*" against "zebra": the first character is the match, and is not counted.
prefix_distance :
    editdist1 true true (some (b's' ∷ b'*' ∷ [])) (some (b'z' ∷ b'e' ∷ b'b' ∷ b'r' ∷ b'a' ∷ []))
    ≡ some (pos 40, some 0)
unfolding editdist1 insert_or_delete_cost substitute_cost is_consonant_class mid_class init_class
prefix_distance = refl

-- A common prefix is not looked at: no error for a byte that is not ASCII.
foreign_prefix :
    editdist1 true true (some (0xC3 ∷ 0x9F ∷ [])) (some (0xC3 ∷ 0x9F ∷ [])) ≡ some (pos 0, some 2)
unfolding editdist1
foreign_prefix = refl

foreign : editdist1 true false (some (0xC3 ∷ [])) (some (b'a' ∷ [])) ≡ some (negsuc 1, none)
unfolding editdist1
foreign = refl

abbrev words : Apart
words = record { dc = 0; n_match = 0; a = kitten; b = sitting }

abbrev pattern_word : Apart
pattern_word = record { dc = 0; n_match = 0; a = b's' ∷ b'i' ∷ b'*' ∷ []; b = kitten }

-- A pattern without `*` and a pnMatch that is not NULL: the assertion fails.
asserted : editdist1 true true (some kitten) (some sitting) ≡ none
unfolding editdist1 insert_or_delete_cost substitute_cost is_consonant_class mid_class init_class
asserted = refl

wagner-IsBest_example :
    (found : ℕ × ℕ) × (wagner true pattern_word ≡ some found)
    × IsBest (matrix 0 3 (b's' ∷ b'i' ∷ b'*' ∷ []) kitten 2) 0 7 found
unfolding ends_in_star
wagner-IsBest_example =
    wagner-IsBest true pattern_word (omega arith) refl (omega arith) (omega arith)

editdist1-Explains_example :
    Explains true false
      (some kitten)
      (some sitting)
      (editdist1 true false (some kitten) (some sitting))
editdist1-Explains_example =
    editdist1-Explains true false (some kitten) (some sitting) (omega arith) (omega arith)
