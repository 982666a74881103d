-- ===== src/Spellfix/Cursor/Query.antt =====
-- The query over the shadow table: spellfix1RunQuery, which keeps the rows with the least scores.
pub mod Worst
pub mod Replaced
pub mod Kept
pub mod Best
pub mod Range
pub mod Safe
pub mod Whole
use letarette.Base.{
  ℕ, zero, suc, ◌+◌, ◌-◌, ◌*◌, ◌/◌, ◌%◌, ◌^◌, ◌≤◌, ◌<◌, bit_and, bit_or, ◌≡◌, refl, sym, ap, ◌∙◌,
  ◌≢◌, ◌↔◌, ◌⊎◌, inl, inr, Bool, true, false, ◌&&◌, ◌||◌, not, Option, none, some, List, [], ◌∷◌,
  ◌++◌, append_assoc, append-nil, arith, ltb, leb, ◌==◌, ==_iff, if◌then◌else◌, Bool-cases,
  Option-cases, length, get_elem?, get_or, drop-length_append, take, drop, length-append, All,
  IsByte, ℤ, pos, negsuc, pos_part, neg_part, ltb_ℤ, eqb_ℤ, eqb_ℤ→eq, to_int32,
}
use letarette.Sqlite.{Rc, ok, no_mem, is_ok}
use letarette.Spellfix.Phonetic.{phonetic_hash}
use letarette.Spellfix.Edit.{editdist1}
use letarette.Spellfix.Cursor.{Row, Cursor, cells, n_row, resize_cursor, score}

-- A row of the vocabulary as the statement reports it, and whether the memory is given for its
-- distance, for the copy of its word and for a longer array. `overflow` is any number: what an
-- overflow in editdist1 leaves in iDist, where C defines nothing.
pub record Fetched : Type 0 where
  pub id : ℤ
  pub word : List ℕ
  pub rank : ℤ
  pub k1 : Option (List ℕ)
  pub edit_malloc : Bool
  pub overflow : ℤ
  pub mprintf : Bool
  pub realloc : Bool

-- MatchQuery, by what the loop reads of it. `core` is editDist3Core where there is an edit-distance
-- string, with the distance and iMatchlen; iMaxDist is none where it is -1.
pub record MatchQuery : Type 0 where
  pub z_pattern : List ℕ
  pub core : Option (Fetched → ℤ × ℤ)
  pub i_max_dist : Option ℕ
  pub has_top : Bool
  pub hash : List ℕ

-- The cursor, iWorst and idxWorst with none for -1, and p->rc.
pub record Search : Type 0 where
  pub cursor : Cursor
  pub i_worst : ℕ
  pub idx_worst : Option ℕ
  pub rc : Rc

-- What a round of the loop ends with. `fault` is a write outside the array.
pub data Round : Type 0 where
  go : Search → Round
  stop : Search → Round
  fault : Round

module _ {ℓ} {A : Type ℓ} where
  -- A write behind the last cell adds one.
  abbrev pub set : List A → ℕ → A → List A
  set [] i x = x ∷ []
  set (y ∷ ys) zero x = x ∷ ys
  set (y ∷ ys) (suc i) x = y ∷ set ys i x

-- The loop that looks for the worst row, from index `i` on.
pub find_worst : List Row → ℕ → ℕ → ℕ → ℕ × ℕ
find_worst [] i worst idx = (worst, idx)
find_worst (r ∷ rows) i worst idx =
    find_worst rows (i + 1) (if ltb worst r.i_score then r.i_score else worst)
      (if ltb worst r.i_score then i else idx)

-- iWorst and idxWorst of a full array.
pub worst_of : List Row → Search → Search
unfolding find_worst
worst_of [] s = s
worst_of (r ∷ rows) s =
    let (worst, idx) = find_worst rows 1 r.i_score 0 in
    record s { i_worst = worst; idx_worst = some idx }

abbrev pub with_rows : List Row → Search → Search
with_rows rows s = record s { cursor = record (s.cursor) { rows = some rows } }

abbrev pub row_of : MatchQuery → Fetched → ℕ → ℤ → Row
row_of q f distance i_matchlen = record {
  i_rowid = f.id;
  z_word = some f.word;
  i_rank = f.rank;
  i_distance = distance;
  i_score = score distance f.rank;
  i_matchlen = i_matchlen;
  z_hash = q.hash;
}

-- a[idx].zWord stays null where the copy fails; behind the last row nobody sees it.
pub spoil : List Row → ℕ → List Row
spoil [] idx = []
spoil (r ∷ rows) zero = record r { z_word = none } ∷ rows
spoil (r ∷ rows) (suc idx) = r ∷ spoil rows idx

-- The row is written to a[idx], and the worst one is looked for where the array is full.
pub write_row : MatchQuery → Fetched → ℕ → ℤ → ℕ → Search → Round
unfolding worst_of spoil
write_row q f distance i_matchlen idx s =
    let written = with_rows (set (cells s.cursor.rows) idx (row_of q f distance i_matchlen)) s in
    let spoilt = with_rows (spoil (cells s.cursor.rows) idx) s in
    if not f.mprintf
    then stop (record spoilt { rc = no_mem })
    else if n_row written.cursor == s.cursor.n_alloc
    then go (worst_of (cells written.cursor.rows) written)
    else go written

-- The row is added, takes the place of the worst one, or is passed over.
pub keep_row : MatchQuery → Fetched → ℕ → ℤ → Search → Round
unfolding write_row
keep_row q f distance i_matchlen s =
    if ltb (n_row s.cursor) s.cursor.n_alloc
    then write_row q f distance i_matchlen (n_row s.cursor) s
    else if ltb (score distance f.rank) s.i_worst
    then elim s.idx_worst [
      | none ↦ fault
      | some idx ↦
          if ltb idx (n_row s.cursor) then write_row q f distance i_matchlen idx s else fault
    ]
    else go s

-- After the array was to grow.
pub grow_row : MatchQuery → Fetched → ℕ → ℤ → Search → Round
unfolding keep_row
grow_row q f distance i_matchlen s = elim s.cursor.rows [
  | none ↦ stop s
  | some rows ↦ keep_row q f distance i_matchlen s
]

-- A limit on the distance drops the row, or lets the array grow.
pub limit_row : MatchQuery → Fetched → ℕ → ℤ → Search → Round
unfolding keep_row grow_row resize_cursor
limit_row q f distance i_matchlen s = elim q.i_max_dist [
  | none ↦ keep_row q f distance i_matchlen s
  | some most ↦
      if ltb most distance
      then go s
      else if leb s.cursor.n_alloc (n_row s.cursor) && not q.has_top
      then grow_row q f distance i_matchlen
          (record s { cursor = resize_cursor f.realloc (s.cursor.n_alloc * 2 + 10) s.cursor })
      else keep_row q f distance i_matchlen s
]

-- iDist, which is `overflow` where an `int` of editdist1 overflows.
abbrev edit_cost : ℤ → Option (ℤ × Option ℕ) → ℤ
edit_cost overflow none = overflow
edit_cost overflow (some (res, matched)) = res

-- The distance of a row and iMatchlen; `none` is a row without a sound, which is passed over.
unfoldable pub measure : MatchQuery → Fetched → Option (ℤ × ℤ)
unfolding editdist1
measure q f = elim q.core [
  | some core ↦ some (core f)
  | none ↦ elim f.k1 [
    | none ↦ none
    | some k1 ↦ some (
      edit_cost f.overflow (editdist1 f.edit_malloc false (some q.z_pattern) (some k1)),
      negsuc 0,
    )
  ]
]

abbrev count_search : Search → Search
count_search s = record s { cursor = record (s.cursor) { n_search = s.cursor.n_search + 1 } }

pub take_measured : MatchQuery → Fetched → Option (ℤ × ℤ) → Search → Round
unfolding limit_row
take_measured q f none s = go s
take_measured q f (some (negsuc _, i_matchlen)) s = stop (record s { rc = no_mem })
take_measured q f (some (pos distance, i_matchlen)) s =
    limit_row q f distance i_matchlen (count_search s)

pub take_row : MatchQuery → Fetched → Search → Round
unfolding take_measured measure
take_row q f s = take_measured q f (measure q f) s

-- The loop over the rows that the statement gives; `none` is a fault.
unfoldable pub run_rows : MatchQuery → List Fetched → Search → Option Search
unfolding take_row
run_rows q [] s = some s
run_rows q (f ∷ rest) s = elim (take_row q f s) [
  | go s' ↦ run_rows q rest s'
  | stop s' ↦ some s'
  | fault ↦ none
]

-- SPELLFIX_MX_HASH
abbrev pub mx_hash : ℕ
mx_hash = 32

-- zClass, cut to its buffer.
abbrev pub cut_class : List ℕ → List ℕ
cut_class z = if ltb (mx_hash - 2) (length z) then take (mx_hash - 2) z else z

-- The number of symbols of the class that are compared.
pub scope_of : ℕ → ℕ → ℕ
scope_of n_class i_scope =
    if leb n_class i_scope then (if ltb 2 n_class then n_class - 1 else n_class) else i_scope

-- zHash1 and zHash2: the range of the phonetic hashes that the statement selects.
pub hash_range : ℕ → List ℕ → List ℕ × List ℕ
unfolding scope_of
hash_range i_scope z =
    let z_class = cut_class z in
    let hash = take (scope_of (length z_class) i_scope) z_class in (hash, hash ++ b'Z' ∷ [])

-- What the allocator and the statement answer: the rows depend on the range that is bound.
pub record Shadow : Type 0 where
  pub malloc : Bool
  pub bind1 : Rc
  pub bind2 : Rc
  pub rows : List ℕ → List ℕ → List Fetched
  pub reset : Rc

abbrev pub is_no_mem : Rc → Bool
is_no_mem (Rc.other n) = n == 7
is_no_mem _ = false

-- p->rc and the cursor, after sqlite3_reset.
abbrev pub after_reset : Rc → Search → Rc × Cursor
after_reset reset s = (if is_ok reset then s.rc else reset, s.cursor)

abbrev pub start : Cursor → Search
start c = record { cursor = c; i_worst = 0; idx_worst = none; rc = ok }

pub query_range : Shadow → MatchQuery → Cursor → List ℕ × List ℕ → Option (Rc × Cursor)
unfolding run_rows
query_range shadow q c (hash1, hash2) =
    if is_no_mem shadow.bind1 || is_no_mem shadow.bind2
    then some (no_mem, c)
    else elim (run_rows (record q { hash = hash1 }) (shadow.rows hash1 hash2) (start c)) [
      | none ↦ none
      | some s ↦ some (after_reset shadow.reset s)
    ]

-- The query where p->rc is SQLITE_OK at first, as it is at the only call; `none` is a fault.
pub run_query : Shadow → ℕ → List ℕ → MatchQuery → Cursor → Option (Rc × Cursor)
unfolding query_range hash_range
run_query shadow i_scope z_query q c = elim c.rows [
  | none ↦ some (ok, c)
  | some rows ↦ elim (phonetic_hash shadow.malloc z_query) [
    | none ↦ some (no_mem, c)
    | some z_class ↦ query_range shadow q c (hash_range i_scope z_class)
  ]
]
