-- ===== src/Spellfix/Examples.antt =====
-- Runs of the phonetic hash, and the theorems on words at concrete inputs.
use letarette.Base.{ℕ, ◌≤◌, ◌≡◌, refl, true, some, List, [], ◌∷◌, arith}
use letarette.Spellfix.Classes.{mid_class, init_class, class_name}
use letarette.Spellfix.Phonetic.{phonetic_hash}
use letarette.Spellfix.Phonetic.Tidy.{IsTidy, phonetic_hash-IsTidy}

-- "knight" and "nite"
abbrev knight : List ℕ
knight = 107 ∷ 110 ∷ 105 ∷ 103 ∷ 104 ∷ 116 ∷ []

abbrev nite : List ℕ
nite = 110 ∷ 105 ∷ 116 ∷ 101 ∷ []

hash_knight : phonetic_hash true knight ≡ some (b'M' ∷ b'A' ∷ b'C' ∷ b'D' ∷ [])
unfolding phonetic_hash init_class mid_class class_name
hash_knight = refl

hash_nite : phonetic_hash true nite ≡ some (b'M' ∷ b'A' ∷ b'D' ∷ b'A' ∷ [])
unfolding phonetic_hash init_class mid_class class_name
hash_nite = refl

phonetic_hash-IsTidy_example : IsTidy (b'M' ∷ b'A' ∷ b'C' ∷ b'D' ∷ []) × (4 ≤ 6)
phonetic_hash-IsTidy_example =
    phonetic_hash-IsTidy true knight (b'M' ∷ b'A' ∷ b'C' ∷ b'D' ∷ []) (omega arith) hash_knight
