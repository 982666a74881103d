-- ===== src/Spellfix/Edit3.antt =====
-- The edit distance with configured costs: the FROM string, the updates of the Wagner matrix in
-- their order, editDist3Core and editDist3SqlFunc.
pub mod Script
pub mod Matches
pub mod Updates
pub mod Reached
pub mod Carries
pub mod Distance
pub mod Aligned
pub mod Settled
pub mod Rows
pub mod Least
pub mod Inequalities
pub mod Minimum
pub mod Optimal
mod Examples
use letarette.Base.{
  ℕ, zero, suc, ◌+◌, ◌-◌, ◌*◌, ◌/◌, ◌%◌, ◌^◌, ◌≤◌, ◌<◌, bit_and, bit_or, ◌≡◌, refl, sym, ap, ◌∙◌,
  ◌≢◌, ◌↔◌, ◌⊎◌, inl, inr, Bool, true, false, ◌&&◌, ◌||◌, not, Option, none, some, List, [], ◌∷◌,
  ◌++◌, append_assoc, append-nil, arith, ltb, leb, ◌==◌, ==_iff, if◌then◌else◌, Bool-cases,
  Option-cases, length, get_elem?, get_or, drop-length_append, take, drop, length-append, All,
  IsByte, ℤ, pos, negsuc, pos_part, neg_part, ltb_ℤ, eqb_ℤ, eqb_ℤ→eq, to_int32,
}
use Prim.Native.Nat.{Ordering}
use letarette.Sqlite.{Rc, ok, no_mem, is_ok, Answer}
use letarette.Spellfix.Utf8.{is_continuation}
use letarette.Spellfix.Config.{Cost, Lang, compare_bytes, Table, config_load, find_lang}

-- z[0], with the NUL behind the last byte.
abbrev pub head : List ℕ → ℕ
head [] = 0
head (c ∷ z) = c

pub utf8_len : ℕ → ℕ → ℕ
utf8_len c n =
    let len =
      if leb c 0x7f
      then 1
      else if bit_and c 0xe0 == 0xc0
      then 2
      else if bit_and c 0xf0 == 0xe0
      then 3
      else 4 in
    if ltb n len then n else len

abbrev is_same : Ordering → Bool
is_same Ordering.eq = true
is_same _ = false

-- strncmp over the bytes that both strings have.
pub same_bytes : List ℕ → List ℕ → Bool
unfolding compare_bytes
same_bytes a b = is_same (compare_bytes a b)

pub match_to : Cost → List ℕ → Bool
unfolding same_bytes
match_to p z = head p.to == head z && leb (length p.to) (length z) && same_bytes p.to z

-- The FROM string has no more bytes than `z`.
pub match_from : Cost → List ℕ → Bool
unfolding same_bytes
match_from p z = length p.from == 0 || (head p.from == head z && same_bytes p.from z)

-- `z1` goes on from the character with `n_byte` bytes.
pub match_from_to : ℕ → List ℕ → List ℕ → Bool
unfolding same_bytes
match_from_to n_byte z1 z2 =
    leb n_byte (length z2) && head z1 == head z2 && same_bytes (take n_byte z1) z2

-- EditDist3From, with the costs in the order of their arrays.
pub record FromChar : Type 0 where
  pub n_byte : ℕ
  pub subst : List Cost
  pub del : List Cost

-- EditDist3FromString; `z` is without the '*' of a prefix, and has a character at each byte.
pub record FromString : Type 0 where
  pub z : List ℕ
  pub is_prefix : Bool
  pub chars : List FromChar

abbrev pub has_to : Cost → Bool
has_to p = ltb 0 (length p.to)

-- The costs whose FROM string begins `z`: those with a TO string, or those without one.
pub from_costs : Bool → List ℕ → List Cost → List Cost
unfolding match_from
from_costs to z [] = []
from_costs to z (p ∷ costs) =
    let rest = from_costs to z costs in
    if ltb (length z) (length p.from)
    then rest
    else if not (match_from p z)
    then rest
    else if to
    then (if has_to p then p ∷ rest else rest)
    else if has_to p
    then rest
    else p ∷ rest

pub from_char : Lang → List ℕ → FromChar
unfolding utf8_len from_costs
from_char lang z = record {
  n_byte = utf8_len (head z) (length z);
  subst = from_costs true z lang.costs;
  del = from_costs false z lang.costs;
}

pub from_chars : Lang → List ℕ → List FromChar
unfolding from_char
from_chars lang [] = []
from_chars lang (c ∷ z) = from_char lang (c ∷ z) ∷ from_chars lang z

-- A character has an array, for which memory is asked.
abbrev needs_arrays : List FromChar → Bool
needs_arrays [] = false
needs_arrays (c ∷ chars) = ltb 0 (length c.subst + length c.del) || needs_arrays chars

pub is_prefix_pattern : List ℕ → Bool
is_prefix_pattern [] = false
is_prefix_pattern (c ∷ []) = c == b'*'
is_prefix_pattern (c ∷ d ∷ z) = is_prefix_pattern (d ∷ z)

unfoldable pub without_star : List ℕ → List ℕ
without_star [] = []
without_star (c ∷ []) = if c == b'*' then [] else c ∷ []
without_star (c ∷ d ∷ z) = c ∷ without_star (d ∷ z)

-- The two Booleans say whether the string and the arrays get their memory; `none` is the null
-- pointer, also for the null text.
unfoldable pub from_string_new : Bool → Bool → Lang → Option (List ℕ) → Option FromString
unfolding from_chars is_prefix_pattern without_star
from_string_new malloc realloc lang none = none
from_string_new malloc realloc lang (some z) =
    let chars = from_chars lang (without_star z) in
    if not malloc || (needs_arrays chars && not realloc)
    then none
    else some (record { z = without_star z; is_prefix = is_prefix_pattern z; chars = chars })

-- EditDist3To.
pub record ToChar : Type 0 where
  pub n_byte : ℕ
  pub ins : List Cost

-- A `char`, which is signed.
abbrev pub signed_char : ℕ → ℤ
signed_char c = if ltb c 128 then pos c else negsuc (255 - c)

-- The loop over the costs with an empty FROM string. It ends at the first one whose TO string starts
-- behind the character; an empty TO string, whose first byte is never set, counts as a NUL.
pub ins_costs : List ℕ → List Cost → List Cost
unfolding match_to
ins_costs z [] = []
ins_costs z (p ∷ costs) =
    let rest = ins_costs z costs in
    if ltb 0 (length p.from)
    then []
    else if ltb (length z) (length p.to)
    then rest
    else if ltb_ℤ (signed_char (head z)) (signed_char (head p.to))
    then []
    else if match_to p z
    then p ∷ rest
    else rest

pub to_chars : Lang → List ℕ → List ToChar
unfolding utf8_len ins_costs
to_chars lang [] = []
to_chars lang (c ∷ z) =
    record { n_byte = utf8_len c (length (c ∷ z)); ins = ins_costs (c ∷ z) lang.costs }
    ∷ to_chars lang z

abbrev needs_ins : List ToChar → Bool
needs_ins [] = false
needs_ins (c ∷ chars) = ltb 0 (length c.ins) || needs_ins chars

-- A call of updateCost: the index of the cell, that of the cell that it is compared with, and iCost.
pub record Update : Type 0 where
  pub cell : ℕ
  pub source : ℕ
  pub cost : ℕ

module _ {ℓ} {A : Type ℓ} where
  -- A write out of bounds changes nothing; `updates_fit` rules it out.
  abbrev pub set_at : List A → ℕ → A → List A
  set_at [] i x = []
  set_at (y ∷ ys) zero x = x ∷ ys
  set_at (y ∷ ys) (suc i) x = y ∷ set_at ys i x

pub update_cost : List ℕ → Update → List ℕ
update_cost m u =
    let b = (get_or m u.source 0 + u.cost) % 2 ^ 32 in
    if ltb b (get_or m u.cell 0) then set_at m u.cell b else m

pub update_all : List ℕ → List Update → List ℕ
unfolding update_cost
update_all m [] = m
update_all m (u ∷ us) = update_all (update_cost m u) us

-- The deletion costs of a character: from the cell at `at` to the cells behind it in its row.
pub del_updates : List Cost → ℕ → List Update
del_updates [] at = []
del_updates (p ∷ costs) at =
    record { cell = at + length p.from; source = at; cost = p.i_cost } ∷ del_updates costs at

-- The top row. `skip` is the number of bytes that are still in the last character.
pub top_updates : Lang → ℕ → ℕ → List FromChar → List Update
unfolding del_updates
top_updates lang i skip [] = []
top_updates lang i (suc skip) (c ∷ chars) = top_updates lang (suc i) skip chars
top_updates lang i zero (c ∷ chars) =
    record { cell = i + c.n_byte; source = i; cost = lang.i_del_cost }
    ∷ (del_updates c.del i ++ top_updates lang (suc i) (c.n_byte - 1) chars)

-- The insertion costs, which are applied in the first column.
pub ins_updates : ℕ → ℕ → List Cost → List Update
ins_updates sz i2 [] = []
ins_updates sz i2 (p ∷ costs) =
    record { cell = sz * (i2 + length p.to); source = sz * i2; cost = p.i_cost }
    ∷ ins_updates sz i2 costs

pub subst_updates : ℕ → ℕ → List ℕ → List Cost → List Update
unfolding match_to
subst_updates sz cxd z2 [] = []
subst_updates sz cxd z2 (p ∷ costs) =
    let rest = subst_updates sz cxd z2 costs in
    if match_to p z2
    then record { cell = cxd + length p.from + sz * length p.to; source = cxd; cost = p.i_cost }
      ∷ rest
    else rest

-- The body of the loop over i1: `z1` goes on from the byte i1, and `z2` from the byte i2.
pub cell_updates : Lang → ℕ → ℕ → ℕ → ℕ → FromChar → List ℕ → List ℕ → List Update
unfolding del_updates subst_updates match_from_to
cell_updates lang sz rx rxp i1 c z1 z2 =
    let cxp = rx + i1 in
    let cx = cxp + c.n_byte in
    let cxd = rxp + i1 in
    let cxu = cxd + c.n_byte in
    record { cell = cx; source = cxp; cost = lang.i_del_cost }
    ∷ (del_updates c.del cxp
        ++ (record { cell = cx; source = cxu; cost = lang.i_ins_cost }
            ∷ ((if match_from_to c.n_byte z1 z2
                  then record { cell = cx; source = cxd; cost = 0 } ∷ []
                  else [])
                ++ (record { cell = cx; source = cxd; cost = lang.i_sub_cost }
                    ∷ subst_updates sz cxd z2 c.subst))))

pub row_updates : Lang → ℕ → ℕ → ℕ → ℕ → ℕ → List FromChar → List ℕ → List ℕ → List Update
unfolding cell_updates
row_updates lang sz rx rxp i1 skip [] z1 z2 = []
row_updates lang sz rx rxp i1 (suc skip) (c ∷ chars) z1 z2 =
    row_updates lang sz rx rxp (suc i1) skip chars (drop 1 z1) z2
row_updates lang sz rx rxp i1 zero (c ∷ chars) z1 z2 =
    cell_updates lang sz rx rxp i1 c z1 z2
    ++ row_updates lang sz rx rxp (suc i1) (c.n_byte - 1) chars (drop 1 z1) z2

-- The loop over i2, where `z2` goes on from the byte i2 and `sz` is szRow.
pub rows_updates : Lang → ℕ → FromString → ℕ → ℕ → List ToChar → List ℕ → List Update
unfolding ins_updates row_updates
rows_updates lang sz f i2 skip [] z2 = []
rows_updates lang sz f i2 (suc skip) (d ∷ tos) z2 =
    rows_updates lang sz f (suc i2) skip tos (drop 1 z2)
rows_updates lang sz f i2 zero (d ∷ tos) z2 =
    record { cell = sz * (i2 + d.n_byte); source = sz * i2; cost = lang.i_ins_cost }
    ∷ (ins_updates sz i2 d.ins
        ++ (row_updates lang sz (sz * (i2 + d.n_byte)) (sz * i2) 0 0 f.chars f.z z2
            ++ rows_updates lang sz f (suc i2) (d.n_byte - 1) tos (drop 1 z2)))

pub all_updates : Lang → FromString → List ToChar → List ℕ → List Update
unfolding top_updates rows_updates
all_updates lang f tos z2 =
    top_updates lang 0 0 f.chars ++ rows_updates lang (length f.chars + 1) f 0 0 tos z2

-- memset(m, 0x01, ...)
abbrev pub unreached : ℕ
unreached = 0x01010101

pub fresh_cells : ℕ → List ℕ
fresh_cells zero = []
fresh_cells (suc n) = unreached ∷ fresh_cells n

pub fill_matrix : Lang → FromString → List ℕ → List ℕ
unfolding all_updates to_chars fresh_cells update_all
fill_matrix lang f z2 =
    let sz = length f.chars + 1 in
    update_all (set_at (fresh_cells ((length z2 + 1) * sz)) 0 0)
      (all_updates lang f (to_chars lang z2) z2)

-- The last loop for a prefix: `n` is the length of z2, and the rounds left count down from it.
pub best_row : List ℕ → ℕ → ℕ → ℕ → ℕ → ℕ → ℕ × ℕ
best_row m sz zero i2 res n = (res, n)
best_row m sz (suc rounds) i2 res n =
    let b = get_or m (sz * i2 - 1) 0 in
    best_row m sz rounds (i2 + 1) (if leb b res then b else res) (if leb b res then i2 - 1 else n)

-- `n - nExtra`: the bytes that begin a character.
pub count_chars : List ℕ → ℕ
count_chars [] = 0
count_chars (c ∷ z) = if is_continuation c then count_chars z else suc (count_chars z)

-- The result and the number of bytes that are matched.
pub read_matrix : FromString → ℕ → List ℕ → ℕ × ℕ
unfolding best_row
read_matrix f n2 m =
    let sz = length f.chars + 1 in
    let res = get_or m (sz * (n2 + 1) - 1) 0 in
    if f.is_prefix then best_row m sz n2 1 res n2 else (res, n2)

-- Bytes of the matrix and of the characters of TO; what an `int` does not hold is not modelled.
abbrev pub matrix_bytes : ℕ → ℕ → ℕ
matrix_bytes n n2 = ((n + 1) * (n2 + 1) + 1) / 2 * 2 * 4 + 16 * n2

-- The distance, or -1 where there is no memory, and *pnMatch; the Booleans are the answers to the
-- requests for the matrix and for the arrays of insertion costs.
unfoldable pub edit_dist3_core : Bool → Bool → Lang → FromString → List ℕ → ℤ × ℕ
unfolding fill_matrix read_matrix count_chars to_chars
edit_dist3_core malloc realloc lang f z2 =
    let (res, n) = read_matrix f (length z2) (fill_matrix lang f z2) in
    if (ltb 1024 (matrix_bytes (length f.chars) (length z2)) && not malloc)
      || (needs_ins (to_chars lang z2) && not realloc)
    then (negsuc 0, 0)
    else (pos res, count_chars (take n z2))

-- editdist3(A,B,iLang): the languages that are configured, and whether the memory is given for the
-- FROM string, its arrays, the matrix and the arrays of insertion costs. A text that is NULL has no
-- bytes for zB.
pub edit_dist3_sql_func :
    Bool → Bool → Bool → Bool → List Lang → Option (List ℕ) → List ℕ → Option ℤ → Answer
unfolding from_string_new edit_dist3_core find_lang
edit_dist3_sql_func malloc arrays core_malloc ins_arrays config z_a z_b i_lang =
    let lang = find_lang config (elim i_lang [ none ↦ pos 0 | some i ↦ i ]) in
    elim (from_string_new malloc arrays lang z_a) [
      | none ↦ Answer.error no_mem
      | some f ↦ elim (edit_dist3_core core_malloc ins_arrays lang f z_b).0 [
        | negsuc n ↦ Answer.error no_mem
        | pos dist ↦ Answer.int (pos dist)
      ]
    ]

-- editdist3(tablename); the first part is the answer, null where the costs are loaded.
pub load_costs : Table → List Lang → Answer × List Lang
unfolding config_load
load_costs table config =
    let (rc, config') = config_load table config in
    (if is_ok rc then Answer.null else Answer.error rc, config')
