-- ===== src/Spellfix/Cursor/Filter/Answers.antt =====
-- A query for a MATCH text stays within its arrays, unless the pattern is empty; and its rows are
-- the best ones, in the order of their scores.
use letarette.Base.{
  ℕ, suc, ◌≤◌, ◌≡◌, refl, ap, ◌∙◌, Bool, true, false, ◌&&◌, ◌||◌, not, Option, none, some, List, [],
  ◌∷◌, arith, ltb, if◌then◌else◌, length, All, pos,
}
use letarette.Sqlite.{Rc, ok, no_mem, is_ok, Value}
use letarette.Auxiliary.{text_until}
use letarette.Spellfix.Phonetic.{phonetic_hash}
use letarette.Spellfix.Translit.{Ascii, transliterate}
use letarette.Spellfix.Config.{Lang}
use letarette.Spellfix.Edit3.{FromString, without_star}
use letarette.Spellfix.Cursor.{Row, Cursor, cells, emptied, reset_cursor, resize_cursor}
use letarette.Spellfix.Cursor.Query.{Fetched, MatchQuery, run_query, is_no_mem}
use letarette.Spellfix.Cursor.Query.Best.{IsServed, IsBest, all_accepted}
use letarette.Spellfix.Cursor.Query.Whole.{IsRewound, run_query-IsBest, hashed, asked}
use letarette.Spellfix.Cursor.Scan.{read_all, rowids, read_all-rowids}
use letarette.Spellfix.Cursor.Plan.{Limits, read_limits}
use letarette.Spellfix.Cursor.Plan.Limit.{read_limits-limit}
use letarette.Spellfix.Cursor.Filter.Sorted.{IsQsort, Ascending, InOrder-Ascending, IsBest-perm}
use letarette.Spellfix.Cursor.Filter.{
  Vtab, Services, load_config, match_string, query_of, sort_rows, finish_match, ask, transliterated,
  match_text, fresh_array, with_vtab, filter_for_match,
}

-- Whatever loading the cost table answers, it is done once: where there is memory for pConfig3, the
-- next query goes on with SQLITE_OK and the configuration that was left, also after a failed load.
pub load_config-once :
    (malloc : Bool) (p : Vtab)
    → load_config malloc (load_config true p).1 ≡ (ok, (load_config true p).1)
unfolding load_config
load_config-once malloc p = ground arith

cells-emptied : (rows : Option (List Row)) → cells (emptied rows) ≡ []
cells-emptied none = refl
cells-emptied (some rows) = refl

-- The cursor after spellfix1ResetCursor and spellfix1ResizeCursor.
abbrev pub emptied_cursor : ℕ → Cursor → Cursor
emptied_cursor n c = record c {
  rows = some [];
  n_alloc = n;
  i_row = pos 0;
  n_search = 0;
  full_scan = none;
}

pub fresh_array-given : (n : ℕ) (c : Cursor) → 1 ≤ n → fresh_array true n c ≡ emptied_cursor n c
unfolding reset_cursor resize_cursor
fresh_array-given n c h =
    let some_size : (ltb 0 n && true) ≡ true = ground arith in
    rw (some_size) (ap (λ r. record (emptied_cursor n c) { rows = some r }) (cells-emptied c.rows))

abbrev sorted_cursor : Services → Limits → List Row → Cursor → Cursor
sorted_cursor os limits rows c = record c {
  rows = some (os.qsort rows);
  i_top = pos limits.i_limit;
  i_scope = 3;
}

sort_rows-held :
    (os : Services) (limits : Limits) (rc : Rc) (c : Cursor) (rows : List Row)
    → c.rows ≡ some rows
    → sort_rows os.qsort limits (rc, c) ≡ (rc, sorted_cursor os limits rows c)
unfolding sort_rows
sort_rows-held os limits rc c rows held =
    ap
      (λ o. elim o [
        | none ↦ (no_mem, c)
        | some rows ↦
            (rc, record c { rows = some (os.qsort rows); i_top = pos limits.i_limit; i_scope = 3 })
      ])
      held

-- The query that is asked.
abbrev pub query_result :
    Services → Limits → Option (Lang × FromString) → List ℕ → Cursor → Option (Rc × Cursor)
query_result os limits match3 z c =
    run_query (os.shadow limits.i_lang) limits.i_scope (without_star z)
      (query_of c.idx_num limits z match3) (record c { i_lang = limits.i_lang })

ask-result :
    (os : Services) (limits : Limits) (match3 : Option (Lang × FromString)) (b : ℕ) (z : List ℕ)
    (c : Cursor)
    → os.mprintf ≡ true
    → os.prepare ≡ ok
    → ask os limits match3 (b ∷ z) c
      ≡ finish_match os.qsort limits (query_result os limits match3 (b ∷ z) c)
unfolding ask
ask-result os limits match3 b z c m p =
    ap
      (λ t.
        if not t
        then some (no_mem, c)
        else finish_match os.qsort limits (
            if is_ok os.prepare
            then query_result os limits match3 (b ∷ z) c
            else some (os.prepare, record c { i_lang = limits.i_lang })))
      m
    ∙ ap
        (λ t. finish_match os.qsort limits (
          if is_ok t
          then query_result os limits match3 (b ∷ z) c
          else some (t, record c { i_lang = limits.i_lang })))
        p

abbrev pub asks : Services → Limits → Option (Lang × FromString) → List ℕ → ℕ → List ℕ → MatchQuery
asks os limits match3 z idx_num z_class =
    hashed limits.i_scope z_class (query_of idx_num limits z match3)

abbrev pub given_rows : Services → Limits → List ℕ → List Fetched
given_rows os limits z_class = asked (os.shadow limits.i_lang) limits.i_scope z_class

-- The rows of the cursor: the best ones, in the order of their scores.
abbrev pub IsAnswered : MatchQuery → ℕ → List Fetched → Cursor → Type 0
IsAnswered q n fetched c =
    (rows : List Row) × (c.rows ≡ some rows)
    × Ascending rows
    × IsBest q n rows (all_accepted q fetched)
    × (read_all (suc (length rows)) c ≡ some (rowids rows, ok))

ask-IsAnswered :
    (os : Services) (limits : Limits) (match3 : Option (Lang × FromString)) (b : ℕ) (z : List ℕ)
    (c : Cursor) (z_class : List ℕ)
    → IsQsort os.qsort
    → os.mprintf ≡ true
    → os.prepare ≡ ok
    → c.rows ≡ some []
    → 1 ≤ c.n_alloc
    → IsRewound c
    → phonetic_hash (os.shadow limits.i_lang).malloc (without_star (b ∷ z)) ≡ some z_class
    → (is_no_mem (os.shadow limits.i_lang).bind1 || is_no_mem (os.shadow limits.i_lang).bind2)
      ≡ false
    → (os.shadow limits.i_lang).reset ≡ ok
    → All
        (IsServed (asks os limits match3 (b ∷ z) c.idx_num z_class))
        (given_rows os limits z_class)
    → (c' : Cursor) × (ask os limits match3 (b ∷ z) c ≡ some (ok, c'))
      × IsAnswered
          (asks os limits match3 (b ∷ z) c.idx_num z_class)
          c.n_alloc
          (given_rows os limits z_class)
          c'
unfolding finish_match
ask-IsAnswered os limits match3 b z c z_class qs m p held alive h hash bound reset served =
    let (c', kept, result, left, best, rewound) =
      run_query-IsBest (os.shadow limits.i_lang) limits.i_scope (without_star (b ∷ z)) z_class
        (query_of c.idx_num limits (b ∷ z) match3) (record c { i_lang = limits.i_lang }) held alive
        h hash bound reset served in
    let rows = os.qsort kept in
    (
      sorted_cursor os limits kept c',
      ask-result os limits match3 b z c m p
          ∙ ap (finish_match os.qsort limits) result
          ∙ ap some (sort_rows-held os limits ok c' kept left),
      (
        rows,
        refl,
        InOrder-Ascending rows (qs.in_order kept),
        IsBest-perm _ _ rows kept _ (qs.perm kept) best,
        read_all-rowids (sorted_cursor os limits kept c') rows refl rewound.0 rewound.1,
      ),
    )

match_text-ask :
    (os : Services) (config : Option (List Lang)) (limits : Limits) (c : Cursor) (z : List ℕ)
    (match3 : Option (Lang × FromString)) (out : List ℕ)
    → match_string os.from_malloc os.from_arrays config limits.i_lang z ≡ some match3
    → transliterate os.translit_malloc z ≡ Ascii.ascii out
    → match_text os config limits c (some z)
      ≡ ask os limits match3
          (text_until out (length out))
          (record c { z_pattern = some (text_until out (length out)) })
unfolding match_text transliterated
match_text-ask os config limits c z match3 out e f = rw (e, f, match_text) refl

filter_for_match-text :
    (os : Services) (p : Vtab) (c : Cursor) (argv : List Value) (limits : Limits)
    → (load_config os.config_malloc p).0 ≡ ok
    → read_limits c.idx_num argv ≡ some limits
    → os.realloc ≡ true
    → filter_for_match os p c argv
      ≡ with_vtab (load_config os.config_malloc p).1 (
          match_text os
            (load_config os.config_malloc p).1.p_config3
            limits
            (emptied_cursor limits.i_limit c)
            (os.value_text limits.pattern))
unfolding filter_for_match
filter_for_match-text os p c argv limits loaded read memory =
    let array : fresh_array os.realloc limits.i_limit c ≡ emptied_cursor limits.i_limit c =
      ap (λ r. fresh_array r limits.i_limit c) memory
      ∙ fresh_array-given limits.i_limit c (read_limits-limit c.idx_num argv limits read) in
    rw (loaded, read, array) refl

-- A query for a MATCH text with memory, with arguments as its plan asks for them, with a cost table
-- that is loaded or none, and for a text that is not empty when it is transliterated: SQLITE_OK, and
-- what SQLite then reads, up to xEof, are the rowids of the best rows of the vocabulary, by ascending
-- score: of the rows that the statement gives for the hash of the pattern and the language, with the
-- distance of editdist3 where there is a cost table, top= of them at most, and all of them if there is
-- a limit on the distance but no top=.
pub filter_for_match-IsAnswered :
    (os : Services) (p : Vtab) (c : Cursor) (argv : List Value) (limits : Limits) (z : List ℕ)
    (match3 : Option (Lang × FromString)) (out : List ℕ) (b : ℕ) (pattern z_class : List ℕ)
    → IsQsort os.qsort
    → (load_config os.config_malloc p).0 ≡ ok
    → read_limits c.idx_num argv ≡ some limits
    → os.realloc ≡ true
    → os.value_text limits.pattern ≡ some z
    → match_string os.from_malloc os.from_arrays
        (load_config os.config_malloc p).1.p_config3
        limits.i_lang
        z
      ≡ some match3
    → transliterate os.translit_malloc z ≡ Ascii.ascii out
    → text_until out (length out) ≡ b ∷ pattern
    → os.mprintf ≡ true
    → os.prepare ≡ ok
    → phonetic_hash (os.shadow limits.i_lang).malloc (without_star (b ∷ pattern)) ≡ some z_class
    → (is_no_mem (os.shadow limits.i_lang).bind1 || is_no_mem (os.shadow limits.i_lang).bind2)
      ≡ false
    → (os.shadow limits.i_lang).reset ≡ ok
    → All
        (IsServed (asks os limits match3 (b ∷ pattern) c.idx_num z_class))
        (given_rows os limits z_class)
    → (c' : Cursor) × (filter_for_match os p c argv
        ≡ some (ok, (load_config os.config_malloc p).1, c'))
      × IsAnswered
          (asks os limits match3 (b ∷ pattern) c.idx_num z_class)
          limits.i_limit
          (given_rows os limits z_class)
          c'
filter_for_match-IsAnswered os p c argv limits z match3 out b pattern z_class qs loaded read memory
      text matched ascii printable m prep hash bound reset served =
    let p' = (load_config os.config_malloc p).1 in
    let c1 = emptied_cursor limits.i_limit c in
    let (c', result, answered) =
      ask-IsAnswered os limits match3 b pattern (record c1 { z_pattern = some (b ∷ pattern) })
        z_class qs m prep refl (read_limits-limit c.idx_num argv limits read) (refl, refl) hash
        bound reset served in
    (
      c',
      filter_for_match-text os p c argv limits loaded read memory
          ∙ ap (λ t. with_vtab p' (match_text os p'.p_config3 limits c1 t)) text
          ∙ ap (with_vtab p') (
              match_text-ask os p'.p_config3 limits c1 z match3 out matched ascii
              ∙ ap (λ t. ask os limits match3 t (record c1 { z_pattern = some t })) printable
              ∙ result),
      answered,
    )
