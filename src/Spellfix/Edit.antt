-- ===== src/Spellfix/Edit.antt =====
-- editdist1: the cost of turning one ASCII word into another, by one row of the Wagner matrix that is
-- rewritten in place. A string is the list of its bytes before the NUL.
pub mod Matrix
pub mod Overflow
pub mod Result
pub mod Bounds
pub mod Answers
mod Examples
use letarette.Base.{
  ℕ, zero, suc, ◌+◌, ◌-◌, ◌*◌, ◌/◌, ◌%◌, ◌^◌, ◌≤◌, ◌<◌, bit_and, bit_or, ◌≡◌, refl, sym, ap, ◌∙◌,
  ◌≢◌, ◌↔◌, ◌⊎◌, inl, inr, Bool, true, false, ◌&&◌, ◌||◌, not, Option, none, some, List, [], ◌∷◌,
  ◌++◌, append_assoc, append-nil, arith, ltb, leb, ◌==◌, ==_iff, if◌then◌else◌, Bool-cases,
  Option-cases, length, get_elem?, get_or, drop-length_append, take, drop, length-append, All,
  IsByte, ℤ, pos, negsuc, pos_part, neg_part, ltb_ℤ, eqb_ℤ, eqb_ℤ→eq, to_int32,
}
use letarette.Sqlite.{Rc, no_mem, Answer, int}
use letarette.Spellfix.Costs.{insert_or_delete_cost, substitute_cost}

-- `z[0]`, which is 0 at the end of the string.
abbrev pub first : List ℕ → ℕ
first z = get_or z 0 0

abbrev pub is_empty : List ℕ → Bool
is_empty z = first z == 0

-- The strings behind their common prefix, its length, and its last character.
pub record Apart : Type 0 where
  pub dc : ℕ
  pub n_match : ℕ
  pub a : List ℕ
  pub b : List ℕ

pub skip_common : ℕ → ℕ → List ℕ → List ℕ → Apart
skip_common dc n [] b = record { dc = dc; n_match = n; a = []; b = b }
skip_common dc n (c ∷ a) [] = record { dc = dc; n_match = n; a = c ∷ a; b = [] }
skip_common dc n (c ∷ a) (d ∷ b) =
    let rest = skip_common c (n + 1) a b in
    if not (c == 0) && c == d then rest else record { dc = dc; n_match = n; a = c ∷ a; b = d ∷ b }

pub is_ascii : List ℕ → Bool
is_ascii [] = true
is_ascii (c ∷ z) = bit_and c 0x80 == 0 && is_ascii z

abbrev pub final_ins_cost_div : ℕ
final_ins_cost_div = 4

-- The words where the other one is empty.
pub insert_all : ℕ → List ℕ → ℕ
insert_all prev [] = 0
insert_all prev (c ∷ z) =
    insert_or_delete_cost prev c (first z) / final_ins_cost_div + insert_all c z

pub delete_all : ℕ → List ℕ → ℕ
delete_all prev [] = 0
delete_all prev (c ∷ z) = insert_or_delete_cost prev c (first z) + delete_all c z

-- m[x] and cx[x]
pub record Cell : Type 0 where
  pub m : ℕ
  pub cx : ℕ

pub first_cells : ℕ → ℕ → List ℕ → List Cell
first_cells m prev [] = []
first_cells m prev (c ∷ b) =
    let m' = m + insert_or_delete_cost prev c (first b) in
    record { m = m'; cx = c } ∷ first_cells m' c b

pub first_row : ℕ → List ℕ → List Cell
unfolding first_cells
first_row dc b = record { m = 0; cx = dc } ∷ first_cells 0 dc b

-- The best of an insertion, a deletion and a substitution: `left` is m[xB-1] of this row, `up` is
-- m[xB] of the row before, and `d` is m[xB-1] of the row before.
pub best_cell : Bool → ℕ → ℕ → Cell → Cell → ℕ → ℕ → Cell
best_cell last_a c_a d left up c_b next =
    let ins = insert_or_delete_cost left.cx c_b next in
    let ins_cost = if last_a then ins / final_ins_cost_div else ins in
    let inserted = ins_cost + left.m in
    let deleted = insert_or_delete_cost up.cx c_a next + up.m in
    let replaced = substitute_cost left.cx c_a c_b + d in
    let total = if ltb deleted inserted then deleted else inserted in
    record {
      m = if ltb replaced total then replaced else total;
      cx = if ltb deleted inserted then c_a else c_b;
    }

-- The inner loop, from the cells of the row before to those of this row.
pub next_cells : Bool → ℕ → ℕ → Cell → List Cell → List ℕ → List Cell
unfolding best_cell
next_cells last_a c_a d left (up ∷ row) (c ∷ b) =
    let cell = best_cell last_a c_a d left up c (first b) in
    cell ∷ next_cells last_a c_a up.m cell row b
next_cells last_a c_a d left _ _ = []

pub next_row : Bool → ℕ → ℕ → ℕ → List Cell → List ℕ → List Cell
unfolding next_cells
next_row last_a prev c_a next [] b = []
next_row last_a prev c_a next (zeroth ∷ row) b =
    let left = record zeroth { m = zeroth.m + insert_or_delete_cost prev c_a next } in
    left ∷ next_cells last_a c_a zeroth.m left row b

-- The outer loop, which leaves out a `*` at the end of zA.
pub all_rows : ℕ → List Cell → List ℕ → List ℕ → List Cell
unfolding next_row
all_rows prev row [] b = row
all_rows prev row (c ∷ a) b =
    let rest = all_rows c (next_row (is_empty a) prev c (first a) row b) a b in
    if c == b'*' && is_empty a then row else rest

pub ends_in_star : List ℕ → Bool
ends_in_star [] = false
ends_in_star (c ∷ a) = if is_empty a then c == b'*' else ends_in_star a

-- The least cost of a prefix of zB of one character or more; `x` is the index of the first cell.
pub best_prefix : ℕ → ℕ → ℕ → ℕ → List Cell → ℕ × ℕ
best_prefix n_match res matched x [] = (res, matched)
best_prefix n_match res matched x (cell ∷ row) =
    let better = ltb cell.m res in
    best_prefix n_match (if better then cell.m else res) (if better then x + n_match else matched)
      (x + 1) row

pub last_cost : List Cell → ℕ
last_cost [] = 0
last_cost (cell ∷ []) = cell.m
last_cost (cell ∷ next ∷ row) = last_cost (next ∷ row)

-- The result and what *pnMatch holds, if pnMatch is not NULL.
pub read_row : Apart → List Cell → ℕ × ℕ
unfolding ends_in_star best_prefix last_cost
read_row s (zeroth ∷ cell ∷ row) =
    if ends_in_star s.a
    then best_prefix s.n_match cell.m s.n_match 1 (cell ∷ row)
    else (last_cost (zeroth ∷ cell ∷ row), s.n_match)
read_row s row = (last_cost row, s.n_match)

-- What is read from the last row that the loops compute.
pub final : Apart → ℕ × ℕ
unfolding first_row all_rows read_row
final s = read_row s (all_rows s.dc (first_row s.dc s.b) s.a s.b)

-- An `int` holds the numbers below 2^31; a larger sum is undefined.
abbrev pub fits_int : ℕ → Bool
fits_int n = ltb n (2 ^ 31)

abbrev pub cells_fit : List Cell → Bool
cells_fit [] = true
cells_fit (cell ∷ row) = fits_int cell.m && cells_fit row

-- The three sums of `best_cell`.
pub best_cell_fits : Bool → ℕ → ℕ → Cell → Cell → ℕ → ℕ → Bool
best_cell_fits last_a c_a d left up c_b next =
    let ins = insert_or_delete_cost left.cx c_b next in
    let ins_cost = if last_a then ins / final_ins_cost_div else ins in
    fits_int (ins_cost + left.m)
    && (fits_int (insert_or_delete_cost up.cx c_a next + up.m)
        && fits_int (substitute_cost left.cx c_a c_b + d))

-- The sums of the inner loop.
pub next_cells_fit : Bool → ℕ → ℕ → Cell → List Cell → List ℕ → Bool
unfolding best_cell best_cell_fits
next_cells_fit last_a c_a d left (up ∷ row) (c ∷ b) =
    let rest = next_cells_fit last_a c_a up.m (best_cell last_a c_a d left up c (first b)) row b in
    best_cell_fits last_a c_a d left up c (first b) && rest
next_cells_fit last_a c_a d left _ _ = true

pub next_row_fits : Bool → ℕ → ℕ → ℕ → List Cell → List ℕ → Bool
unfolding next_cells_fit
next_row_fits last_a prev c_a next [] b = true
next_row_fits last_a prev c_a next (zeroth ∷ row) b =
    let left = record zeroth { m = zeroth.m + insert_or_delete_cost prev c_a next } in
    fits_int left.m && next_cells_fit last_a c_a zeroth.m left row b

-- The sums of the outer loop.
pub all_rows_fit : ℕ → List Cell → List ℕ → List ℕ → Bool
unfolding next_row next_row_fits
all_rows_fit prev row [] b = true
all_rows_fit prev row (c ∷ a) b =
    let rest = all_rows_fit c (next_row (is_empty a) prev c (first a) row b) a b in
    (c == b'*' && is_empty a) || (next_row_fits (is_empty a) prev c (first a) row b && rest)

pub sums_fit : Apart → Bool
unfolding first_row all_rows_fit
sums_fit s = cells_fit (first_row s.dc s.b) && all_rows_fit s.dc (first_row s.dc s.b) s.a s.b

-- `pn_match` says whether pnMatch is not NULL. `none` is a sum that no `int` holds, or the assertion
-- that pnMatch is NULL where the pattern does not end in `*`.
pub wagner : Bool → Apart → Option (ℕ × ℕ)
unfolding final sums_fit
wagner pn_match s =
    if not (sums_fit s)
    then none
    else if pn_match && not (ends_in_star s.a)
    then none
    else some (final s)

-- The bytes of mStack.
abbrev pub stack_size : ℕ
stack_size = (60 + 15) * 4

abbrev pub fits_stack : ℕ → Bool
fits_stack n_b = ltb n_b (stack_size * 4 / (4 * 5))

-- (nB+1)*5 is computed as an `int`.
abbrev pub heap_size_fits : ℕ → Bool
heap_size_fits n_b = fits_int ((n_b + 1) * 5)

abbrev pub cost_of : ℕ → ℕ → Option (ℤ × ℕ)
cost_of cost matched = if fits_int cost then some (pos cost, matched) else none

abbrev pub matrix_answer : Option (ℕ × ℕ) → Option (ℤ × ℕ)
matrix_answer none = none
matrix_answer (some (cost, matched)) = some (pos cost, matched)

-- The strings of SQLite are shorter than 2^31 bytes, so that nA, nB and nMatch fit. `none` is
-- undefined behaviour, as for `wagner`.
pub compare_apart : Bool → Bool → Apart → Option (ℤ × ℕ)
unfolding is_ascii insert_all delete_all wagner
compare_apart malloc pn_match s =
    if is_empty s.a && is_empty s.b
    then some (pos 0, s.n_match)
    else if not (is_ascii s.a) || not (is_ascii s.b)
    then some (negsuc 1, s.n_match)
    else if is_empty s.a
    then cost_of (insert_all s.dc s.b) s.n_match
    else if is_empty s.b
    then cost_of (delete_all s.dc s.a) s.n_match
    else if first s.a == b'*' && get_or s.a 1 0 == 0
    then some (pos 0, s.n_match)
    else if not (fits_stack (length s.b)) && not (heap_size_fits (length s.b))
    then none
    else if not (fits_stack (length s.b)) && not malloc
    then some (negsuc 2, s.n_match)
    else matrix_answer (wagner pn_match s)

abbrev pub with_match : Bool → Option (ℤ × ℕ) → Option (ℤ × Option ℕ)
with_match pn_match none = none
with_match pn_match (some (res, matched)) = some (res, if pn_match then some matched else none)

-- A string may be NULL; the second part of the result is none where *pnMatch is not written.
unfoldable pub editdist1 : Bool → Bool → Option (List ℕ) → Option (List ℕ) → Option (ℤ × Option ℕ)
unfolding skip_common compare_apart
editdist1 malloc pn_match (some a) (some b) =
    with_match pn_match (compare_apart malloc pn_match (skip_common 0 0 a b))
editdist1 malloc pn_match _ _ = some (negsuc 0, none)

abbrev edit_answer : ℤ → Answer
edit_answer (pos cost) = int (pos cost)
edit_answer (negsuc n) = if n == 2 then Answer.error no_mem else Answer.error Rc.error

-- editdist(A,B); the two messages are one error code.
pub editdist_sql_func : Bool → Option (List ℕ) → Option (List ℕ) → Answer
unfolding editdist1
editdist_sql_func malloc a b = elim (editdist1 malloc false a b) [
  | none ↦ Answer.fault
  | some (res, matched) ↦ edit_answer res
]
