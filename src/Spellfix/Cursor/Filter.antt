-- ===== src/Spellfix/Cursor/Filter.antt =====
-- The methods that start a query: spellfix1FilterForMatch, spellfix1FilterForFullScan and
-- spellfix1Filter.
pub mod Sorted
pub mod Answers
pub mod Safety
pub mod Scanned
mod Examples
use letarette.Base.{
  ℕ, zero, suc, ◌+◌, ◌-◌, ◌*◌, ◌/◌, ◌%◌, ◌^◌, ◌≤◌, ◌<◌, bit_and, bit_or, ◌≡◌, refl, sym, ap, ◌∙◌,
  ◌≢◌, ◌↔◌, ◌⊎◌, inl, inr, Bool, true, false, ◌&&◌, ◌||◌, not, Option, none, some, List, [], ◌∷◌,
  ◌++◌, append_assoc, append-nil, arith, ltb, leb, ◌==◌, ==_iff, if◌then◌else◌, Bool-cases,
  Option-cases, length, get_elem?, get_or, drop-length_append, take, drop, length-append, All,
  IsByte, ℤ, pos, negsuc, pos_part, neg_part, ltb_ℤ, eqb_ℤ, eqb_ℤ→eq, to_int32,
}
use letarette.Sqlite.{Rc, ok, row, done, no_mem, is_ok, Value}
use letarette.Auxiliary.{text_until}
use letarette.Spellfix.Translit.{Ascii, transliterate}
use letarette.Spellfix.Config.{Lang, Table, config_load, find_lang}
use letarette.Spellfix.Edit3.{FromString, without_star, from_string_new, edit_dist3_core}
use letarette.Spellfix.Cursor.{
  Row, ScanRow, Statement, step, settle, Cursor, reset_cursor, resize_cursor, is_row,
}
use letarette.Spellfix.Cursor.Query.{Fetched, MatchQuery, Shadow, run_query}
use letarette.Spellfix.Cursor.Plan.{Limits, has_flag, read_limits}

-- spellfix1_vtab, by what a query reads of it: zCostTable with what loading the table answers, and
-- pConfig3. `none` is the null pointer.
pub record Vtab : Type 0 where
  pub z_cost_table : Option Table
  pub p_config3 : Option (List Lang)

-- What SQLite, the allocator and the C library answer: sqlite3_value_text, with none for null, the
-- requests for memory in the order in which they are made, the statement over the shadow table, for
-- a language, and qsort() with spellfix1RowCompare.
pub record Services : Type 0 where
  pub value_text : Value → Option (List ℕ)
  pub config_malloc : Bool
  pub realloc : Bool
  pub from_malloc : Bool
  pub from_arrays : Bool
  pub translit_malloc : Bool
  pub mprintf : Bool
  pub prepare : Rc
  pub shadow : ℤ → Shadow
  pub qsort : List Row → List Row

-- The cost table is loaded if it was not; the configuration stays, whatever the load answers.
pub load_config : Bool → Vtab → Rc × Vtab
load_config malloc p = elim p.z_cost_table [
  | none ↦ (ok, p)
  | some table ↦ elim p.p_config3 [
    | some config ↦ (ok, p)
    | none ↦
        let (rc, config) = config_load table [] in
        if malloc then (rc, record p { p_config3 = some config }) else (no_mem, p)
  ]
]

-- pMatchStr3 with its language, where there is a configuration; `none` says that there is no memory.
pub match_string :
    Bool → Bool → Option (List Lang) → ℤ → List ℕ → Option (Option (Lang × FromString))
match_string malloc arrays none i_lang z = some none
match_string malloc arrays (some config) i_lang z =
    let lang = find_lang config i_lang in
    elim (from_string_new malloc arrays lang (some (text_until z (length z)))) [
      | none ↦ none
      | some f ↦ some (some (lang, f))
    ]

-- editDist3Core for a row of the vocabulary, with iMatchlen.
pub core_of : Option (Lang × FromString) → Option (Fetched → ℤ × ℤ)
core_of none = none
core_of (some (lang, f)) = some (λ fetched.
    let (distance, matched) =
      edit_dist3_core fetched.edit_malloc fetched.edit_malloc lang f fetched.word in
    (distance, pos matched))

-- The MatchQuery `x`.
abbrev pub query_of : ℕ → Limits → List ℕ → Option (Lang × FromString) → MatchQuery
query_of idx_num limits z_pattern match3 = record {
  z_pattern = z_pattern;
  core = core_of match3;
  i_max_dist = limits.i_max_dist;
  has_top = has_flag idx_num 4;
  hash = [];
}

-- What follows the query: the rows are sorted. The local iScope is 3.
pub sort_rows : (List Row → List Row) → Limits → Rc × Cursor → Rc × Cursor
sort_rows qsort limits (rc, c) = elim c.rows [
  | none ↦ (no_mem, c)
  | some rows ↦ (rc, record c { rows = some (qsort rows); i_top = pos limits.i_limit; i_scope = 3 })
]

pub finish_match : (List Row → List Row) → Limits → Option (Rc × Cursor) → Option (Rc × Cursor)
unfolding sort_rows
finish_match qsort limits none = none
finish_match qsort limits (some answer) = some (sort_rows qsort limits answer)

-- The query itself, with zPattern and the cursor that holds it. An empty zPattern is read in front
-- of its first byte.
pub ask : Services → Limits → Option (Lang × FromString) → List ℕ → Cursor → Option (Rc × Cursor)
unfolding finish_match
ask os limits match3 [] c = none
ask os limits match3 (b ∷ z) c =
    if not os.mprintf
    then some (no_mem, c)
    else let c' = record c { i_lang = limits.i_lang } in
      finish_match os.qsort limits (
        if is_ok os.prepare
        then run_query (os.shadow limits.i_lang) limits.i_scope (without_star (b ∷ z))
            (query_of c.idx_num limits (b ∷ z) match3) c'
        else some (os.prepare, c'))

-- The transliteration takes the place of the cursor's pattern.
pub transliterated :
    Services → Limits → Option (Lang × FromString) → Cursor → Ascii → Option (Rc × Cursor)
unfolding ask
transliterated os limits match3 c Ascii.no_memory = some (no_mem, record c { z_pattern = none })
transliterated os limits match3 c Ascii.undefined = none
transliterated os limits match3 c (Ascii.ascii out) =
    let z_pattern = text_until out (length out) in
    ask os limits match3 z_pattern (record c { z_pattern = some z_pattern })

-- From the MATCH text on; the cursor has its empty array.
pub match_text :
    Services → Option (List Lang) → Limits → Cursor → Option (List ℕ) → Option (Rc × Cursor)
unfolding transliterated
match_text os config limits c none = some (ok, c)
match_text os config limits c (some z) =
    elim (match_string os.from_malloc os.from_arrays config limits.i_lang z) [
      | none ↦ some (no_mem, c)
      | some match3 ↦ transliterated os limits match3 c (transliterate os.translit_malloc z)
    ]

-- The cursor after spellfix1ResetCursor and spellfix1ResizeCursor.
abbrev pub fresh_array : Bool → ℕ → Cursor → Cursor
fresh_array realloc n c = resize_cursor realloc n (reset_cursor c)

abbrev with_vtab : Vtab → Option (Rc × Cursor) → Option (Rc × Vtab × Cursor)
with_vtab p none = none
with_vtab p (some (rc, c)) = some (rc, p, c)

-- `none` is a read outside an array or a write outside one.
pub filter_for_match : Services → Vtab → Cursor → List Value → Option (Rc × Vtab × Cursor)
unfolding load_config match_text
filter_for_match os p c argv =
    let (rc, p') = load_config os.config_malloc p in
    if not (is_ok rc) then some (rc, p', c) else elim (read_limits c.idx_num argv) [
      | none ↦ none
      | some limits ↦ with_vtab p' (
          match_text os p'.p_config3 limits (fresh_array os.realloc limits.i_limit c)
            (os.value_text limits.pattern))
    ]

-- What a full scan asks for: the SQL, and the statement for the rowid that is bound, if any.
pub record Scanning : Type 0 where
  pub mprintf : Bool
  pub prepare : Rc
  pub bind : Rc
  pub statement : Option Value → Statement

-- The first step of the statement.
pub first_step : Cursor → Rc × Statement → Rc × Cursor
first_step c (rc, st) =
    (settle rc, record c { full_scan = some st; i_row = if is_row rc then negsuc 0 else c.i_row })

abbrev pub bound_rowid : Bool → List Value → Option (Option Value)
bound_rowid false argv = some none
bound_rowid true [] = none
bound_rowid true (v ∷ argv) = some (some v)

-- sqlite3_prepare_v2 sets the statement to null where it fails.
pub filter_for_full_scan : Scanning → Cursor → List Value → Option (Rc × Cursor)
unfolding first_step
filter_for_full_scan db c argv =
    let c' = reset_cursor c in
    if not db.mprintf
    then some (no_mem, c')
    else if not (is_ok db.prepare)
    then some (db.prepare, c')
    else elim (bound_rowid (has_flag c.idx_num 64) argv) [
      | none ↦ none
      | some v ↦
          if has_flag c.idx_num 64 && not (is_ok db.bind)
          then some (db.bind, record c' { full_scan = some (db.statement v) })
          else some (first_step c' (step (db.statement v)))
    ]

pub filter : Services → Scanning → Vtab → Cursor → ℕ → List Value → Option (Rc × Vtab × Cursor)
unfolding filter_for_match filter_for_full_scan
filter os db p c idx_num argv =
    let c' = record c { idx_num = idx_num } in
    if has_flag idx_num 1
    then filter_for_match os p c' argv
    else with_vtab p (filter_for_full_scan db c' argv)
