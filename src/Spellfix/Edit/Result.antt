-- ===== src/Spellfix/Edit/Result.antt =====
-- What editdist1 reads from the last row that it computes.
use letarette.Base.{
  ℕ, zero, suc, ◌+◌, ◌-◌, ◌≤◌, ◌<◌, ◌≡◌, refl, ◌∙◌, inl, inr, Bool, true, false, some, List, [],
  ◌∷◌, arith, ltb, ◌==◌, if◌then◌else◌, Bool-cases, length, All,
}
use native.Mathlib.Decide.{dec_lt}
use letarette.Spellfix.Edit.{
  Apart, Cell, first_row, all_rows, ends_in_star, best_prefix, last_cost, read_row, final, wagner,
}
use letarette.Spellfix.Edit.Overflow.{sums_fit_lem}
use letarette.Spellfix.Edit.Matrix.{
  matrix, cells_from, rows_done, first_row-eq-matrix, all_rows-eq-matrix,
}

-- What *pnMatch gets where the prefix of `j` characters is the best: the first prefix is not counted.
abbrev pub matched_at : ℕ → ℕ → ℕ
matched_at n_match j = if j == 1 then n_match else j + n_match

-- `j` is the first of the prefixes of 1 to `upto` - 1 characters that costs least.
pub record IsBest (cells : ℕ → Cell) (n_match upto : ℕ) (found : ℕ × ℕ) : Type 0 where
  pub j : ℕ
  pub one : 1 ≤ j
  pub within : j < upto
  pub res : found.0 ≡ (cells j).m
  pub matched : found.1 ≡ matched_at n_match j
  pub least : (k : ℕ) → 1 ≤ k → k < upto → found.0 ≤ (cells k).m
  pub earliest : (k : ℕ) → 1 ≤ k → k < j → found.0 < (cells k).m

module _ (cells : ℕ → Cell) (n_match : ℕ) where
  IsBest-better :
      {x res matched : ℕ}
      → 2 ≤ x
      → IsBest cells n_match x (res, matched)
      → (cells x).m < res
      → IsBest cells n_match (suc x) ((cells x).m, x + n_match)
  IsBest-better {x} later h better = record {
    j = x;
    one = omega arith;
    within = omega arith;
    res = refl;
    matched = ground arith;
    least = λ k lo hi. ground (arith, h.least k);
    earliest = λ k lo hi. ground (arith, h.least k);
  }

  IsBest-worse :
      {x : ℕ} {found : ℕ × ℕ}
      → IsBest cells n_match x found
      → found.0 ≤ (cells x).m
      → IsBest cells n_match (suc x) found
  IsBest-worse {x} {found} h worse = record {
    j = h.j;
    one = h.one;
    within = omega (arith, h.within);
    res = h.res;
    matched = h.matched;
    least = λ k lo hi. elim (dec_lt k x) [
      | yes p ↦ h.least k lo p
      | no p ↦ let same : x ≡ k = omega arith in rw (← same) worse
    ];
    earliest = h.earliest;
  }

  best_prefix_next :
      (x res matched : ℕ) (cell : Cell) (row : List Cell) {better : Bool}
      → ltb cell.m res ≡ better
      → best_prefix n_match res matched x (cell ∷ row)
        ≡ best_prefix n_match
            (if better then cell.m else res)
            (if better then x + n_match else matched)
            (suc x)
            row
  unfolding best_prefix
  best_prefix_next x res matched cell row e =
      let moved : x + 1 ≡ suc x = omega arith in rw (e, moved, best_prefix) refl

  best_prefix-IsBest :
      (n x res matched : ℕ)
      → 2 ≤ x
      → IsBest cells n_match x (res, matched)
      → IsBest cells n_match (x + n) (best_prefix n_match res matched x (cells_from cells x n))
  unfolding best_prefix
  best_prefix-IsBest zero x res matched later h = let same : x + 0 ≡ x = omega arith in rw same h
  best_prefix-IsBest (suc n) x res matched later h =
      let same : x + suc n ≡ suc x + n = omega arith in
      elim (Bool-cases (ltb (cells x).m res)) [
        | inl better ↦
            rw (same, best_prefix_next x res matched (cells x) (cells_from cells (suc x) n) better)
              (best_prefix-IsBest n (suc x) (cells x).m (x + n_match) (omega arith)
                (IsBest-better later h (ground arith)))
        | inr worse ↦
            rw (same, best_prefix_next x res matched (cells x) (cells_from cells (suc x) n) worse)
              (best_prefix-IsBest n (suc x) res matched (omega arith)
                (IsBest-worse h (ground arith)))
      ]

  -- The loop starts with the first prefix, which it then compares with itself.
  best_prefix_first :
      (n : ℕ)
      → IsBest cells n_match
          (2 + n)
          (best_prefix n_match (cells 1).m n_match 1 (cells_from cells 1 (suc n)))
  unfolding best_prefix
  best_prefix_first n =
      let itself : ltb (cells 1).m (cells 1).m ≡ false = ground arith in
      rw (best_prefix_next 1 (cells 1).m n_match (cells 1) (cells_from cells 2 n) itself) (
        best_prefix-IsBest n 2 (cells 1).m n_match (omega arith) (record {
          j = 1;
          one = omega arith;
          within = omega arith;
          res = refl;
          matched = refl;
          least = λ k lo hi. let same : 1 ≡ k = omega arith in rw (← same) (omega arith);
          earliest = λ k lo hi. absurd (omega arith);
        }))

last_cost-cells_from :
    (cells : ℕ → Cell) (j n : ℕ) → last_cost (cells_from cells j (suc n)) ≡ (cells (j + n)).m
unfolding last_cost
last_cost-cells_from cells j zero = let same : j + 0 ≡ j = omega arith in rw same refl
last_cost-cells_from cells j (suc n) =
    let same : j + suc n ≡ suc j + n = omega arith in rw same (last_cost-cells_from cells (suc j) n)

rows_done_lem :
    (rest : List ℕ) (i : ℕ)
    → All (λ c. 0 < c) rest
    → rows_done rest i ≡ (if ends_in_star rest then i + (length rest - 1) else i + length rest)
unfolding ends_in_star
rows_done_lem [] i ok = omega arith
rows_done_lem (c ∷ []) i ok = ground arith
rows_done_lem (c ∷ d ∷ rest) i (some_c, (some_d, ok)) =
    let later = rows_done_lem (d ∷ rest) (suc i) (some_d, ok) in
    let goes_on : (d == 0) ≡ false = ground arith in rw goes_on (ground arith)

-- The cells of the last row that is computed.
abbrev pub last_row : Apart → ℕ → Cell
last_row s = matrix s.dc (length s.a) s.a s.b (rows_done s.a 0)

module _ (s : Apart) (ok : All (λ c. 0 < c) s.a) where
  pub rows-eq-matrix :
      all_rows s.dc (first_row s.dc s.b) s.a s.b ≡ cells_from (last_row s) 0 (suc (length s.b))
  rows-eq-matrix = rw (first_row-eq-matrix s.dc (length s.a) s.a s.b) (
      all_rows-eq-matrix s.dc (length s.a) s.a s.b s.a 0
        (λ k. let same : 0 + k ≡ k = omega arith in rw same refl) ok (omega arith))

  final_rows : final s ≡ read_row s (cells_from (last_row s) 0 (suc (length s.b)))
  unfolding final
  final_rows = rw rows-eq-matrix refl

read_row_plain :
    (s : Apart) (cells : List Cell)
    → ends_in_star s.a ≡ false
    → read_row s cells ≡ (last_cost cells, s.n_match)
unfolding read_row
read_row_plain s [] plain = refl
read_row_plain s (zeroth ∷ []) plain = refl
read_row_plain s (zeroth ∷ cell ∷ row) plain = rw plain refl

read_row_star :
    (s : Apart) (zeroth cell : Cell) (row : List Cell)
    → ends_in_star s.a ≡ true
    → read_row s (zeroth ∷ cell ∷ row) ≡ best_prefix s.n_match cell.m s.n_match 1 (cell ∷ row)
unfolding read_row
read_row_star s zeroth cell row star = rw (star, read_row) refl

pub final-eq-matrix :
    (s : Apart)
    → All (λ c. 0 < c) s.a
    → ends_in_star s.a ≡ false
    → final s ≡ ((matrix s.dc (length s.a) s.a s.b (length s.a) (length s.b)).m, s.n_match)
final-eq-matrix s ok plain =
    let all : rows_done s.a 0 ≡ length s.a = ground (arith, rows_done_lem s.a 0 ok) in
    final_rows s ok
    ∙ read_row_plain s (cells_from (last_row s) 0 (suc (length s.b))) plain
    ∙ rw (last_cost-cells_from (last_row s) 0 (length s.b))
        (let whole : 0 + length s.b ≡ length s.b = omega arith in rw (whole, all) refl)

final_star :
    (s : Apart)
    → All (λ c. 0 < c) s.a
    → ends_in_star s.a ≡ true
    → (n : ℕ) → length s.b ≡ suc n
    → final s
      ≡ best_prefix s.n_match (last_row s 1).m s.n_match 1 (cells_from (last_row s) 1 (suc n))
final_star s ok star n e =
    final_rows s ok
    ∙ rw e (read_row_star s (last_row s 0) (last_row s 1) (cells_from (last_row s) 2 n) star)

pub final-IsBest :
    (s : Apart)
    → All (λ c. 0 < c) s.a
    → ends_in_star s.a ≡ true
    → 0 < length s.b
    → IsBest
        (matrix s.dc (length s.a) s.a s.b (length s.a - 1))
        s.n_match
        (length s.b + 1)
        (final s)
final-IsBest s ok star some_left =
    let all : rows_done s.a 0 ≡ length s.a - 1 = ground (arith, rows_done_lem s.a 0 ok) in
    let more : length s.b + 1 ≡ 2 + (length s.b - 1) = omega arith in
    rw (final_star s ok star (length s.b - 1) (omega arith), more, ← all)
      (best_prefix_first (last_row s) s.n_match (length s.b - 1))

-- For a pattern that ends in `*`, with strings of less than 21474836 characters together: the sums
-- fit an `int`, and the cost is the least one of turning the rest of the pattern into a prefix of the
-- word of one character or more. *pnMatch gets the length of the first prefix of that cost, counted
-- with the common prefix; but if the first prefix has one character, that character is not counted.
pub wagner-IsBest :
    (pn_match : Bool) (s : Apart)
    → All (λ c. 0 < c) s.a
    → ends_in_star s.a ≡ true
    → 0 < length s.b
    → length s.a + length s.b < 21474836
    → (found : ℕ × ℕ) × (wagner pn_match s ≡ some found)
      × IsBest (matrix s.dc (length s.a) s.a s.b (length s.a - 1)) s.n_match (length s.b + 1) found
unfolding wagner
wagner-IsBest pn_match s ok star some_left short = (
  final s,
  rw (sums_fit_lem s (omega arith)) (ground (arith, star)),
  final-IsBest s ok star some_left,
)
