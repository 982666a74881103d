-- ===== src/Spellfix/Edit/Overflow.antt =====
-- The sums of editdist1, and the lengths for which an `int` holds them.
use letarette.Base.{
  ℕ, ◌+◌, ◌*◌, ◌^◌, ◌≤◌, ◌<◌, ◌≡◌, refl, Bool, true, List, [], ◌∷◌, arith, length, All,
}
use letarette.Spellfix.Costs.{insert_or_delete_cost, cost_bounds}
use letarette.Spellfix.Edit.{
  Apart, Cell, first, is_empty, first_cells, first_row, best_cell, next_cells, next_row, cells_fit,
  best_cell_fits, next_cells_fit, next_row_fits, all_rows_fit, sums_fit,
}

abbrev AtMost : ℕ → List Cell → Type 0
AtMost n = All (λ (cell : Cell). cell.m ≤ n)

AtMost-cells_fit : (n : ℕ) (row : List Cell) → n < 2 ^ 31 → AtMost n row → cells_fit row ≡ true
AtMost-cells_fit n [] h all = refl
AtMost-cells_fit n (cell ∷ row) h (here, all) = ground (arith, AtMost-cells_fit n row h all)

first_cells-AtMost :
    (m prev n : ℕ) (b : List ℕ) → m + 100 * length b ≤ n → AtMost n (first_cells m prev b)
unfolding first_cells
first_cells-AtMost m prev n [] h = tt
first_cells-AtMost m prev n (c ∷ b) h =
    let (_, cost, _, _) = cost_bounds prev c (first b) in
    (
      omega (arith, cost),
      first_cells-AtMost (m + insert_or_delete_cost prev c (first b)) c n b (omega (arith, cost)),
    )

first_row-AtMost : (dc : ℕ) (b : List ℕ) → AtMost (100 * length b) (first_row dc b)
unfolding first_row
first_row-AtMost dc b = (omega arith, first_cells-AtMost 0 dc (100 * length b) b (omega arith))

best_cell-le :
    (last_a : Bool) (c_a d : ℕ) (left up : Cell) (c_b next n : ℕ)
    → up.m ≤ n
    → (best_cell last_a c_a d left up c_b next).m ≤ n + 100
unfolding best_cell
best_cell-le last_a c_a d left up c_b next n h = ground (arith, cost_bounds up.cx c_a next)

best_cell_fits_lem :
    (last_a : Bool) (c_a d : ℕ) (left up : Cell) (c_b next n : ℕ)
    → n + 200 < 2 ^ 31
    → d ≤ n
    → left.m ≤ n + 100
    → up.m ≤ n
    → best_cell_fits last_a c_a d left up c_b next ≡ true
unfolding best_cell_fits
best_cell_fits_lem last_a c_a d left up c_b next n h hd hl hu =
    ground
      (arith, cost_bounds left.cx c_b next, cost_bounds up.cx c_a next, cost_bounds left.cx c_a c_b)

-- A row is at most 100 more than the row before, and its sums fit.
next_cells_fit_lem :
    (last_a : Bool) (c_a d : ℕ) (left : Cell) (row : List Cell) (b : List ℕ) (n : ℕ)
    → n + 200 < 2 ^ 31
    → d ≤ n
    → left.m ≤ n + 100
    → AtMost n row
    → (next_cells_fit last_a c_a d left row b ≡ true)
      × AtMost (n + 100) (next_cells last_a c_a d left row b)
unfolding next_cells_fit next_cells
next_cells_fit_lem last_a c_a d left [] [] n h hd hl all = (refl, tt)
next_cells_fit_lem last_a c_a d left [] (c ∷ b) n h hd hl all = (refl, tt)
next_cells_fit_lem last_a c_a d left (up ∷ row) [] n h hd hl all = (refl, tt)
next_cells_fit_lem last_a c_a d left (up ∷ row) (c ∷ b) n h hd hl (hu, all) =
    let cell = best_cell last_a c_a d left up c (first b) in
    let low : cell.m ≤ n + 100 = best_cell-le last_a c_a d left up c (first b) n hu in
    let (fits, rest) = next_cells_fit_lem last_a c_a up.m cell row b n h hu low all in
    (rw (best_cell_fits_lem last_a c_a d left up c (first b) n h hd hl hu, fits) refl, (low, rest))

next_row_fits_lem :
    (last_a : Bool) (prev c_a next : ℕ) (row : List Cell) (b : List ℕ) (n : ℕ)
    → n + 200 < 2 ^ 31
    → AtMost n row
    → (next_row_fits last_a prev c_a next row b ≡ true)
      × AtMost (n + 100) (next_row last_a prev c_a next row b)
unfolding next_row_fits next_row
next_row_fits_lem last_a prev c_a next [] b n h all = (refl, tt)
next_row_fits_lem last_a prev c_a next (zeroth ∷ row) b n h (here, all) =
    let (_, cost, _, _) = cost_bounds prev c_a next in
    let left : Cell = record zeroth { m = zeroth.m + insert_or_delete_cost prev c_a next } in
    let low : left.m ≤ n + 100 = omega (arith, cost) in
    let lem = next_cells_fit_lem last_a c_a zeroth.m left row b n h here low all in
    (ground (arith, lem.0), (low, lem.1))

all_rows_fit_lem :
    (prev : ℕ) (row : List Cell) (a b : List ℕ) (n : ℕ)
    → n + 100 * length a + 100 < 2 ^ 31
    → AtMost n row
    → all_rows_fit prev row a b ≡ true
unfolding all_rows_fit
all_rows_fit_lem prev row [] b n h all = refl
all_rows_fit_lem prev row (c ∷ a) b n h all =
    let (fits, next) = next_row_fits_lem (is_empty a) prev c (first a) row b n (omega arith) all in
    let rest = all_rows_fit_lem c _ a b (n + 100) (omega arith) next in ground (arith, fits, rest)

-- The sums fit where both strings have less than 21474836 characters together.
pub sums_fit_lem : (s : Apart) → 100 * (length s.a + length s.b + 1) < 2 ^ 31 → sums_fit s ≡ true
unfolding sums_fit
sums_fit_lem s h =
    let first = first_row-AtMost s.dc s.b in
    rw (AtMost-cells_fit (100 * length s.b) (first_row s.dc s.b) (omega arith) first)
      (all_rows_fit_lem s.dc (first_row s.dc s.b) s.a s.b (100 * length s.b) (omega arith) first)
