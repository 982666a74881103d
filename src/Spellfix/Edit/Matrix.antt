-- ===== src/Spellfix/Edit/Matrix.antt =====
-- The row that editdist1 rewrites in place holds the rows of the whole Wagner matrix, one by one.
use letarette.Base.{
  ℕ, zero, suc, ◌+◌, ◌<◌, ◌≡◌, refl, sym, ap, ◌∙◌, inl, inr, false, ◌&&◌, List, [], ◌∷◌, arith,
  ◌==◌, if◌then◌else◌, Bool-cases, length, get_or, All,
}
use letarette.Spellfix.Costs.{insert_or_delete_cost}
use letarette.Spellfix.Edit.{
  Cell, first, is_empty, first_cells, first_row, best_cell, next_cells, next_row, all_rows,
}

-- The character before the one at `i`.
abbrev pub char_before : ℕ → List ℕ → ℕ → ℕ
char_before dc z zero = dc
char_before dc z (suc i) = get_or z i 0

-- The cell for the first `i` characters of `a` and the first `j` characters of `b`. `whole` is the
-- length of the pattern, whose last row has cheaper insertions.
unfoldable pub matrix : ℕ → ℕ → List ℕ → List ℕ → ℕ → ℕ → Cell
matrix dc whole a b zero zero = record { m = 0; cx = dc }
matrix dc whole a b zero (suc j) = record {
  m =
      (matrix dc whole a b zero j).m
      + insert_or_delete_cost (char_before dc b j) (get_or b j 0) (get_or b (suc j) 0);
  cx = get_or b j 0;
}
matrix dc whole a b (suc i) zero = record {
  m =
      (matrix dc whole a b i zero).m
      + insert_or_delete_cost (char_before dc a i) (get_or a i 0) (get_or a (suc i) 0);
  cx = dc;
}
matrix dc whole a b (suc i) (suc j) =
    best_cell (suc i == whole) (get_or a i 0) (matrix dc whole a b i j).m
      (matrix dc whole a b (suc i) j) (matrix dc whole a b i (suc j)) (get_or b j 0)
      (get_or b (suc j) 0)

-- `n` cells of a row, from the one at `j` on.
abbrev pub cells_from : (ℕ → Cell) → ℕ → ℕ → List Cell
cells_from row j zero = []
cells_from row j (suc n) = row j ∷ cells_from row (suc j) n

-- `rest` is what follows the first `j` characters of `z`.
abbrev pub Follows : List ℕ → List ℕ → ℕ → Type 0
Follows rest z j = (k : ℕ) → get_or rest k 0 ≡ get_or z (j + k) 0

Follows-tail : (c : ℕ) (rest z : List ℕ) (j : ℕ) → Follows (c ∷ rest) z j → Follows rest z (suc j)
Follows-tail c rest z j h k =
    let moved : j + suc k ≡ suc j + k = omega arith in
    h (suc k) ∙ ap (λ (i : ℕ). get_or z i 0) moved

Follows-head : (rest z : List ℕ) (j : ℕ) → Follows rest z j → first rest ≡ get_or z j 0
Follows-head rest z j h =
    let same : j + 0 ≡ j = omega arith in h 0 ∙ ap (λ (i : ℕ). get_or z i 0) same

-- The rows that the loop computes: all, but for that of a `*` at the end.
abbrev pub rows_done : List ℕ → ℕ → ℕ
rows_done [] i = i
rows_done (c ∷ rest) i = if c == b'*' && is_empty rest then i else rows_done rest (suc i)

module _ (dc whole : ℕ) (a b : List ℕ) where
  first_cells-eq-matrix :
      (rest : List ℕ) (j : ℕ)
      → Follows rest b j
      → first_cells (matrix dc whole a b 0 j).m (char_before dc b j) rest
        ≡ cells_from (matrix dc whole a b 0) (suc j) (length rest)
  unfolding first_cells matrix
  first_cells-eq-matrix [] j h = refl
  first_cells-eq-matrix (c ∷ rest) j h =
      let here = Follows-head (c ∷ rest) b j h in
      let next = Follows-head rest b (suc j) (Follows-tail c rest b j h) in
      let later = first_cells-eq-matrix rest (suc j) (Follows-tail c rest b j h) in
      rw (here, next) (ap (λ cells. matrix dc whole a b 0 (suc j) ∷ cells) later)

  next_cells-eq-matrix :
      (i j : ℕ) (rest : List ℕ)
      → Follows rest b j
      → next_cells
          (suc i == whole)
          (get_or a i 0)
          (matrix dc whole a b i j).m
          (matrix dc whole a b (suc i) j)
          (cells_from (matrix dc whole a b i) (suc j) (length rest))
          rest
        ≡ cells_from (matrix dc whole a b (suc i)) (suc j) (length rest)
  unfolding next_cells matrix
  next_cells-eq-matrix i j [] h = refl
  next_cells-eq-matrix i j (c ∷ rest) h =
      let here = Follows-head (c ∷ rest) b j h in
      let next = Follows-head rest b (suc j) (Follows-tail c rest b j h) in
      let later = next_cells-eq-matrix i (suc j) rest (Follows-tail c rest b j h) in
      rw (here, next) (ap (λ cells. matrix dc whole a b (suc i) (suc j) ∷ cells) later)

  pub Follows-self : Follows b b 0
  Follows-self k = let same : 0 + k ≡ k = omega arith in ap (λ (i : ℕ). get_or b i 0) (sym same)

  pub first_row-eq-matrix : first_row dc b ≡ cells_from (matrix dc whole a b 0) 0 (suc (length b))
  unfolding first_row matrix
  first_row-eq-matrix =
      ap (λ cells. matrix dc whole a b 0 0 ∷ cells) (first_cells-eq-matrix b 0 Follows-self)

  abbrev pub row : ℕ → List Cell
  row i = cells_from (matrix dc whole a b i) 0 (suc (length b))

  next_row-eq-matrix :
      (i : ℕ)
      → next_row (suc i == whole) (char_before dc a i) (get_or a i 0) (get_or a (suc i) 0) (row i) b
        ≡ row (suc i)
  unfolding next_row matrix
  next_row-eq-matrix i =
      let corner : (matrix dc whole a b i 0).cx ≡ dc =
        elim i as (λ k. (matrix dc whole a b k 0).cx ≡ dc) [ zero ↦ refl | suc k ↦ refl ] in
      rw corner (
        ap (λ cells. matrix dc whole a b (suc i) 0 ∷ cells)
          (next_cells-eq-matrix i 0 b Follows-self))

  -- A string without NUL ends where its first byte is 0.
  last_iff :
      (rest : List ℕ) (i : ℕ)
      → All (λ c. 0 < c) rest
      → i + suc (length rest) ≡ whole
      → is_empty rest ≡ (suc i == whole)
  last_iff [] i ok size = ground arith
  last_iff (d ∷ rest) i (some_char, ok) size = ground arith

  all_rows_next :
      (prev c : ℕ) (cells : List Cell) (rest : List ℕ)
      → (c == b'*' && is_empty rest) ≡ false
      → all_rows prev cells (c ∷ rest) b
        ≡ all_rows c (next_row (is_empty rest) prev c (first rest) cells b) rest b
  unfolding all_rows
  all_rows_next prev c cells rest plain = rw plain refl

  pub all_rows-eq-matrix :
      (rest : List ℕ) (i : ℕ)
      → Follows rest a i
      → All (λ c. 0 < c) rest
      → i + length rest ≡ whole
      → all_rows (char_before dc a i) (row i) rest b ≡ row (rows_done rest i)
  unfolding all_rows
  all_rows-eq-matrix [] i h ok size = refl
  all_rows-eq-matrix (c ∷ rest) i h (some_char, ok) size =
      elim (Bool-cases (c == b'*' && is_empty rest)) [
        | inl star ↦
            let done : i ≡ rows_done (c ∷ rest) i = ground arith in
            let stay : all_rows (char_before dc a i) (row i) (c ∷ rest) b ≡ row i = ground arith in
            stay ∙ ap row done
        | inr plain ↦
            let done : rows_done rest (suc i) ≡ rows_done (c ∷ rest) i = ground arith in
            let here = Follows-head (c ∷ rest) a i h in
            let next = Follows-head rest a (suc i) (Follows-tail c rest a i h) in
            let last = last_iff rest i ok size in
            let later =
              all_rows-eq-matrix rest (suc i) (Follows-tail c rest a i h) ok (omega arith) in
            let go_on : all_rows (char_before dc a i) (row i) (c ∷ rest) b
                ≡ all_rows (get_or a i 0) (row (suc i)) rest b =
              all_rows_next (char_before dc a i) c (row i) rest plain
              ∙ rw (last, here, next, next_row-eq-matrix i) refl in
            go_on ∙ later ∙ ap row done
      ]
