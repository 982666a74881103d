-- ===== src/Spellfix/Edit3/Distance.antt =====
-- The result of editdist3: the cost of an edit script.
use letarette.Base.{
  ℕ, zero, suc, ◌+◌, ◌-◌, ◌*◌, ◌≤◌, ◌≡◌, refl, sym, ap, ◌∙◌, ◌⊎◌, inl, inr, Bool, true, false, ◌&&◌,
  ◌||◌, some, List, [], ◌∷◌, arith, ltb, leb, if◌then◌else◌, Bool-cases, length, get_or, take, All,
  ℤ, pos,
}
use native.Mathlib.Nat.{mul-add}
use mathlib.Core.Path.{subst}
use letarette.Sqlite.{Answer}
use letarette.Spellfix.Config.{Lang, Table, find_lang}
use letarette.Spellfix.Config.Load.{IsLoaded, config_load-IsLoaded}
use letarette.Spellfix.Edit3.{
  FromString, from_chars, unreached, fill_matrix, best_row, count_chars, read_matrix,
  is_prefix_pattern, without_star, from_string_new, needs_arrays, needs_ins, to_chars, matrix_bytes,
  edit_dist3_core, edit_dist3_sql_func, load_costs,
}
use letarette.Spellfix.Edit3.Script.{Script}
use letarette.Spellfix.Edit3.Matches.{NonZero}
use letarette.Spellfix.Edit3.Updates.{length-from_chars, from_string}
use letarette.Spellfix.Edit3.Reached.{fill_matrix-IsReached}
use letarette.Spellfix.Edit3.Carries.{fill_matrix-last}

-- The last cell of a row of the matrix.
abbrev pub row_end : List ℕ → ℕ → ℕ → ℕ
row_end m n1 j = get_or m ((n1 + 1) * j + n1) 0

pub row_end_before : (n1 i : ℕ) → (n1 + 1) * (i + 1) - 1 ≡ (n1 + 1) * i + n1
row_end_before n1 i = let d = mul-add (n1 + 1) i 1 in omega arith

one_back : (i : ℕ) → i ≡ i + 1 - 1
one_back i = omega arith

-- The result is that of a row, and no more than that of the last row.
abbrev Reads : List ℕ → ℕ → ℕ → ℕ × ℕ → Type 0
Reads m n1 n2 (res, n) = (res ≡ row_end m n1 n) × (n ≤ n2) × (res ≤ row_end m n1 n2)

best_row-Reads :
    (m : List ℕ) (n1 n2 rounds i res n : ℕ)
    → i + rounds ≤ n2
    → Reads m n1 n2 (res, n)
    → Reads m n1 n2 (best_row m (n1 + 1) rounds (i + 1) res n)
unfolding best_row
best_row-Reads m n1 n2 zero i res n h reads = reads
best_row-Reads m n1 n2 (suc rounds) i res n h (e, l, le) =
    let before = ap (λ c. get_or m c 0) (row_end_before n1 i) in
    elim (Bool-cases (leb (get_or m ((n1 + 1) * (i + 1) - 1) 0) res)) [
      | inl better ↦
          rw (better, best_row)
            (best_row-Reads m n1 n2 rounds (i + 1) _ (i + 1 - 1) (omega arith) (
              subst (λ k. Reads m n1 n2 (get_or m ((n1 + 1) * (i + 1) - 1) 0, k)) (one_back i)
                (before, omega arith, ground arith)))
      | inr worse ↦
          rw (worse, best_row)
            (best_row-Reads m n1 n2 rounds (i + 1) res n (omega arith) (e, l, le))
    ]

-- read_matrix with the length of the row written out.
abbrev pub read_rows : Bool → ℕ → ℕ → List ℕ → ℕ × ℕ
read_rows is_prefix n1 n2 m =
    let res = get_or m ((n1 + 1) * (n2 + 1) - 1) 0 in
    if is_prefix then best_row m (n1 + 1) n2 1 res n2 else (res, n2)

abbrev IsRead : Bool → List ℕ → ℕ → ℕ → ℕ × ℕ → Type 0
IsRead is_prefix m n1 n2 (res, n) = Reads m n1 n2 (res, n) × ((n ≡ n2) ⊎ (is_prefix ≡ true))

read_rows-IsRead :
    (is_prefix : Bool) (n1 n2 : ℕ) (m : List ℕ)
    → IsRead is_prefix m n1 n2 (read_rows is_prefix n1 n2 m)
read_rows-IsRead true n1 n2 m =
    let last = ap (λ c. get_or m c 0) (row_end_before n1 n2) in
    (best_row-Reads m n1 n2 n2 0 _ n2 (omega arith) (last, omega arith, omega arith), inr refl)
read_rows-IsRead false n1 n2 m =
    let last = ap (λ c. get_or m c 0) (row_end_before n1 n2) in
    ((last, omega arith, omega arith), inl refl)

-- The distance is the cost of a script for all of FROM and the first `n` bytes of TO, or the value
-- that a cell has before it is reached; it is no more than it costs to delete FROM and insert TO.
abbrev pub IsDistance : Lang → List ℕ → List ℕ → ℕ → ℕ → Type 0
IsDistance lang w1 w2 n d =
    (n ≤ length w2)
    × ((d ≡ unreached) ⊎ Script lang w1 w2 (length w1) n d)
    × (d ≤ length w2 * lang.i_ins_cost + length w1 * lang.i_del_cost)

read_matrix-IsDistance :
    (lang : Lang) (w1 w2 : List ℕ) (is_prefix : Bool)
    → IsLoaded lang
    → NonZero w1
    → NonZero w2
    → (d : ℕ) × (n : ℕ) × (read_matrix
          (from_string lang w1 is_prefix)
          (length w2)
          (fill_matrix lang (from_string lang w1 is_prefix) w2)
        ≡ (d, n))
      × ((n ≡ length w2) ⊎ (is_prefix ≡ true))
      × (d
          ≡ (read_rows is_prefix
              (length w1)
              (length w2)
              (fill_matrix lang (from_string lang w1 is_prefix) w2)).0)
      × IsDistance lang w1 w2 n d
unfolding read_matrix
read_matrix-IsDistance lang w1 w2 is_prefix loaded nz1 nz2 =
    let m = fill_matrix lang (from_string lang w1 is_prefix) w2 in
    let ((e, l, le), whole) = read_rows-IsRead is_prefix (length w1) (length w2) m in
    let read = read_rows is_prefix (length w1) (length w2) m in
    let r = fill_matrix-IsReached lang w1 w2 is_prefix loaded nz1 nz2 in
    let (bound, reached) = r.cell (length w1) read.1 (omega arith) l in
    let last = fill_matrix-last lang w1 w2 is_prefix loaded nz1 nz2 in
    (
      read.0,
      read.1,
      ap (λ n. read_rows is_prefix n (length w2) m) (length-from_chars lang w1),
      whole,
      refl,
      (
        l,
        subst (λ v. (v ≡ unreached) ⊎ Script lang w1 w2 (length w1) read.1 v) (sym e) reached,
        omega arith,
      ),
    )

pub without_star-NonZero : (z : List ℕ) → NonZero z → NonZero (without_star z)
unfolding without_star
without_star-NonZero [] h = tt
without_star-NonZero (c ∷ []) h = ground arith
without_star-NonZero (c ∷ d ∷ z) (p, h) = (p, without_star-NonZero (d ∷ z) h)

and_false_else {ℓ} : {A : Type ℓ} (b : Bool) (x y : A) → (if b && false then x else y) ≡ y
and_false_else true x y = refl
and_false_else false x y = refl

pub from_string_new_lem :
    (lang : Lang) (z : List ℕ)
    → from_string_new true true lang (some z)
      ≡ some (from_string lang (without_star z) (is_prefix_pattern z))
unfolding from_string_new
from_string_new_lem lang z = and_false_else (needs_arrays (from_chars lang (without_star z))) _ _

-- Nothing fails where both requests for memory are met.
no_failure {ℓ} :
    {A : Type ℓ} (b c : Bool) (x y : A) → (if (b && false) || (c && false) then x else y) ≡ y
no_failure true true x y = refl
no_failure true false x y = refl
no_failure false true x y = refl
no_failure false false x y = refl

pub core-IsDistance :
    (lang : Lang) (w1 w2 : List ℕ) (is_prefix : Bool)
    → IsLoaded lang
    → NonZero w1
    → NonZero w2
    → (d : ℕ) × (n : ℕ) × (edit_dist3_core true true lang (from_string lang w1 is_prefix) w2
        ≡ (pos d, count_chars (take n w2)))
      × ((n ≡ length w2) ⊎ (is_prefix ≡ true))
      × (d
          ≡ (read_rows is_prefix
              (length w1)
              (length w2)
              (fill_matrix lang (from_string lang w1 is_prefix) w2)).0)
      × IsDistance lang w1 w2 n d
unfolding edit_dist3_core
core-IsDistance lang w1 w2 is_prefix loaded nz1 nz2 =
    let (d, n, e, whole, read, distance) =
      read_matrix-IsDistance lang w1 w2 is_prefix loaded nz1 nz2 in
    (
      d,
      n,
      no_failure (ltb 1024 (matrix_bytes (length (from_chars lang w1)) (length w2)))
            (needs_ins (to_chars lang w2)) _ _
          ∙ ap (λ r. (pos r.0, count_chars (take r.1 w2))) e,
      whole,
      read,
      distance,
    )

-- With memory, editDist3FromStringNew and editDist3Core answer the cost of an edit script that turns
-- the FROM string, without a '*' at its end, into the first n bytes of the TO string, or 0x01010101,
-- and never more than it costs to delete the one and insert the other; *pnMatch is the number of the
-- characters in those bytes, which are all of TO unless FROM ends in '*'. The costs are less than
-- 10000, and neither string has a NUL.
pub edit_dist3_core-IsDistance :
    (lang : Lang) (z z2 : List ℕ)
    → IsLoaded lang
    → NonZero z
    → NonZero z2
    → (f : FromString) × (d : ℕ) × (n : ℕ) × (from_string_new true true lang (some z) ≡ some f)
      × (edit_dist3_core true true lang f z2 ≡ (pos d, count_chars (take n z2)))
      × ((n ≡ length z2) ⊎ (is_prefix_pattern z ≡ true))
      × IsDistance lang (without_star z) z2 n d
edit_dist3_core-IsDistance lang z z2 loaded nz nz2 =
    let (d, n, e, whole, read, distance) =
      core-IsDistance lang (without_star z) z2 (is_prefix_pattern z) loaded
        (without_star-NonZero z nz) nz2 in
    (
      from_string lang (without_star z) (is_prefix_pattern z),
      d,
      n,
      from_string_new_lem lang z,
      e,
      whole,
      distance,
    )

sql_answer :
    (config : List Lang) (z z2 : List ℕ) (i_lang : ℤ) (d k : ℕ)
    → edit_dist3_core true true
        (find_lang config i_lang)
        (from_string (find_lang config i_lang) (without_star z) (is_prefix_pattern z))
        z2
      ≡ (pos d, k)
    → edit_dist3_sql_func true true true true config (some z) z2 (some i_lang) ≡ Answer.int (pos d)
unfolding edit_dist3_sql_func
sql_answer config z z2 i_lang d k e =
    rw (from_string_new_lem (find_lang config i_lang) z, e, edit_dist3_sql_func) refl

-- After editdist3(tablename), whatever the table holds and whatever failed while it was loaded,
-- editdist3(A,B,iLang) answers, with memory and for texts without a NUL, the cost of an edit script
-- under the costs of the language that is found, as editDist3Core does, or 0x01010101.
pub edit_dist3_sql_func-load_costs :
    (table : Table) (config : List Lang) (z z2 : List ℕ) (i_lang : ℤ)
    → All IsLoaded config
    → NonZero z
    → NonZero z2
    → (d : ℕ) × (n : ℕ) × (edit_dist3_sql_func true true true true
          (load_costs table config).1
          (some z)
          z2
          (some i_lang)
        ≡ Answer.int (pos d))
      × ((n ≡ length z2) ⊎ (is_prefix_pattern z ≡ true))
      × IsDistance (find_lang (load_costs table config).1 i_lang) (without_star z) z2 n d
unfolding load_costs
edit_dist3_sql_func-load_costs table config z z2 i_lang h nz nz2 =
    let (all, found, sorted) = config_load-IsLoaded table config i_lang h in
    let lang = find_lang (load_costs table config).1 i_lang in
    let (d, n, e, whole, read, distance) =
      core-IsDistance lang (without_star z) z2 (is_prefix_pattern z) found
        (without_star-NonZero z nz) nz2 in
    (
      d,
      n,
      sql_answer (load_costs table config).1 z z2 i_lang d (count_chars (take n z2)) e,
      whole,
      distance,
    )
