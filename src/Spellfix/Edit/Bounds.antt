-- ===== src/Spellfix/Edit/Bounds.antt =====
-- Bounds on the costs of editdist1.
use letarette.Base.{
  ℕ, zero, suc, ◌+◌, ◌-◌, ◌*◌, ◌≤◌, ◌<◌, ◌≡◌, refl, inl, inr, Bool, List, [], ◌∷◌, arith, ◌^◌, ◌⊎◌,
  true, false, none, some, ◌&&◌, not, Bool-cases, length, All,
}
use native.Mathlib.Decide.{dec_lt}
use letarette.Spellfix.Costs.{insert_or_delete_cost, cost_bounds}
use letarette.Spellfix.Edit.{
  Apart, Cell, insert_all, delete_all, best_cell, ends_in_star, final, sums_fit, wagner,
}
use letarette.Spellfix.Edit.Matrix.{matrix}
use letarette.Spellfix.Edit.Overflow.{sums_fit_lem}
use letarette.Spellfix.Edit.Result.{final-eq-matrix, final-IsBest}

abbrev pub NonZero : ℕ → Type 0
NonZero c = 0 < c

cost-le : (prev c next : ℕ) → insert_or_delete_cost prev c next ≤ 100
cost-le prev c next = (cost_bounds prev c next).1

best_cell-le :
    (last_a : Bool) (c_a d : ℕ) (left up : Cell) (c_b next : ℕ)
    → (best_cell last_a c_a d left up c_b next).m ≤ 100 + left.m
unfolding best_cell
best_cell-le last_a c_a d left up c_b next = ground (arith, cost_bounds left.cx c_b next)

-- A cell costs 100 for each character that was looked at, at most.
matrix-le : (dc whole : ℕ) (a b : List ℕ) (i j : ℕ) → (matrix dc whole a b i j).m ≤ 100 * (i + j)
unfolding matrix
matrix-le dc whole a b zero zero = omega arith
matrix-le dc whole a b zero (suc j) = omega (arith, matrix-le dc whole a b zero j, cost-le)
matrix-le dc whole a b (suc i) zero = omega (arith, matrix-le dc whole a b i zero, cost-le)
matrix-le dc whole a b (suc i) (suc j) =
    omega (arith, matrix-le dc whole a b (suc i) j, best_cell-le)

pub insert_all-le : (prev : ℕ) (z : List ℕ) → insert_all prev z ≤ 100 * length z
unfolding insert_all
insert_all-le prev [] = omega arith
insert_all-le prev (c ∷ z) = omega (arith, insert_all-le c z, cost-le)

pub delete_all-le : (prev : ℕ) (z : List ℕ) → delete_all prev z ≤ 100 * length z
unfolding delete_all
delete_all-le prev [] = omega arith
delete_all-le prev (c ∷ z) = omega (arith, delete_all-le c z, cost-le)

final-le :
    (s : Apart) → All NonZero s.a → 0 < length s.b → (final s).0 ≤ 100 * (length s.a + length s.b)
final-le s ok some_left = elim (Bool-cases (ends_in_star s.a)) [
  | inr plain ↦
      rw (final-eq-matrix s ok plain)
        (matrix-le s.dc (length s.a) s.a s.b (length s.a) (length s.b))
  | inl star ↦
      let best = final-IsBest s ok star some_left in
      omega
        (arith, best.res, best.within, matrix-le s.dc (length s.a) s.a s.b (length s.a - 1) best.j)
]

-- What `wagner` answers, for strings of any length.
pub wagner-le :
    (pn_match : Bool) (s : Apart)
    → All NonZero s.a
    → 0 < length s.b
    → ((wagner pn_match s ≡ none)
        × ((2 ^ 31 ≤ 100 * (length s.a + length s.b + 1))
            ⊎ ((pn_match ≡ true) × (ends_in_star s.a ≡ false))))
      ⊎ ((found : ℕ × ℕ) × (wagner pn_match s ≡ some found)
          × (found.0 ≤ 100 * (length s.a + length s.b)))
unfolding wagner
wagner-le pn_match s ok some_left = elim (Bool-cases (sums_fit s)) [
  | inr over ↦ inl (
    rw over refl,
    inl (elim (dec_lt (100 * (length s.a + length s.b + 1)) (2 ^ 31)) [
      | yes short ↦ let fits = sums_fit_lem s short in absurd (ground arith)
      | no long ↦ omega arith
    ]),
  )
  | inl fits ↦ elim (Bool-cases (pn_match && not (ends_in_star s.a))) [
    | inl wanted ↦ inl (rw (fits, wanted) refl, inr (ground arith, ground arith))
    | inr other ↦ inr (final s, rw (fits, other) refl, final-le s ok some_left)
  ]
]
