-- ===== src/Spellfix/Cursor/Plan/Examples.antt =====
-- A plan, and the reading of its arguments at a concrete query.
use letarette.Base.{ℕ, zero, suc, ◌≡◌, refl, true, some, List, [], ◌∷◌, arith, get_elem?, pos}
use letarette.Sqlite.{Value}
use letarette.Spellfix.Cursor.Plan.{Op, Constraint, best_index, read_limits}
use letarette.Spellfix.Cursor.Plan.Found.{first}
use letarette.Spellfix.Cursor.Plan.Arguments.{IsPassed}
use letarette.Spellfix.Cursor.Plan.Reading.{stated, read_limits-best_index}

abbrev text : Value
text = record { bytes = b'b' ∷ b'o' ∷ b'b' ∷ []; number = pos 0 }

abbrev two : Value
two = record { bytes = b'2' ∷ []; number = pos 2 }

abbrev matched : Constraint
matched = record { usable = true; column = pos 0; op = Op.match; rhs = text }

-- langid = 2 AND word MATCH 'bob'
abbrev query : List Constraint
query = record { usable = true; column = pos 3; op = Op.eq; rhs = two } ∷ matched ∷ []

plan_number : (best_index [] query).idx_num ≡ 3
unfolding best_index
plan_number = refl

passes :
    (i k : ℕ) (c : Constraint)
    → get_elem? query i ≡ some c
    → (best_index [] query).argv_index i ≡ suc k
    → get_elem? (text ∷ two ∷ []) k ≡ some c.rhs
unfolding best_index
passes zero zero c at e = absurd (omega (arith, e))
passes zero (suc zero) c at e = ground arith
passes zero (suc (suc k)) c at e = absurd (omega (arith, e))
passes (suc zero) zero c at e = ground arith
passes (suc zero) (suc k) c at e = absurd (omega (arith, e))
passes (suc (suc i)) k c at e = cc

query-IsPassed : IsPassed query (best_index [] query).argv_index (text ∷ two ∷ [])
query-IsPassed = record { passed = passes }

read_limits-best_index_example :
    read_limits (best_index [] query).idx_num (text ∷ two ∷ []) ≡ some (stated query matched)
unfolding first
read_limits-best_index_example =
    read_limits-best_index [] query matched (text ∷ two ∷ []) refl query-IsPassed
