-- ===== src/Spellfix/Cursor/Query/Whole.antt =====
-- What spellfix1RunQuery leaves of the cursor besides its rows, and the whole query.
use letarette.Base.{
  ℕ, ◌+◌, ◌*◌, ◌≤◌, ◌≡◌, refl, ap, ◌∙◌, inl, inr, Bool, true, false, ◌&&◌, ◌||◌, not, Option, none,
  some, List, [], ◌∷◌, arith, ltb, leb, ◌==◌, Bool-cases, Option-cases, length, All, ℤ, pos, negsuc,
}
use mathlib.Core.Path.{subst}
use letarette.Sqlite.{Rc, ok, no_mem}
use letarette.Spellfix.Phonetic.{phonetic_hash}
use letarette.Spellfix.Cursor.{Row, Cursor, cells, n_row, resize_cursor, reset_cursor, score}
use letarette.Spellfix.Cursor.Query.{
  Fetched, MatchQuery, Search, Round, go, stop, fault, set, worst_of, with_rows, row_of, write_row,
  keep_row, grow_row, limit_row, measure, count_search, take_measured, take_row, run_rows,
  hash_range, Shadow, is_no_mem, after_reset, start, query_range, run_query,
}
use letarette.Spellfix.Cursor.Query.Best.{IsServed, IsBest, all_accepted, run_rows-IsBest}
use letarette.Spellfix.Cursor.Query.Safe.{run_rows-IsSound}

-- The cursor stands on its first row and scans no table.
abbrev pub IsRewound : Cursor → Type 0
IsRewound c = (c.full_scan ≡ none) × (c.i_row ≡ pos 0)

some-inj {ℓ} : {A : Type ℓ} {x y : A} → some x ≡ some y → x ≡ y
some-inj e = cc

none-ne {ℓ} : {A : Type ℓ} {x : A} → none ≡ some x → ⊥
none-ne e = cc

abbrev Leaves : Round → Type 0
Leaves (go s) = IsRewound s.cursor
Leaves (stop s) = IsRewound s.cursor
Leaves fault = Unit

worst_of-IsRewound :
    (rows : List Row) (s : Search) → IsRewound s.cursor → IsRewound (worst_of rows s).cursor
unfolding worst_of
worst_of-IsRewound [] s h = h
worst_of-IsRewound (r ∷ rows) s h = h

write_row-Leaves :
    (q : MatchQuery) (f : Fetched) (d : ℕ) (m : ℤ) (idx : ℕ) (s : Search)
    → IsRewound s.cursor
    → Leaves (write_row q f d m idx s)
unfolding write_row
write_row-Leaves q f d m idx s h =
    let written = with_rows (set (cells s.cursor.rows) idx (row_of q f d m)) s in
    elim (Bool-cases (not f.mprintf)) [
      | inl failed ↦ rw (failed, write_row) h
      | inr copied ↦ elim (Bool-cases (n_row written.cursor == s.cursor.n_alloc)) [
        | inl full ↦
            rw (copied, full, write_row) (worst_of-IsRewound (cells written.cursor.rows) written h)
        | inr room ↦ rw (copied, room, write_row) h
      ]
    ]

keep_row-Leaves :
    (q : MatchQuery) (f : Fetched) (d : ℕ) (m : ℤ) (s : Search)
    → IsRewound s.cursor
    → Leaves (keep_row q f d m s)
unfolding keep_row
keep_row-Leaves q f d m s h = elim (Bool-cases (ltb (n_row s.cursor) s.cursor.n_alloc)) [
  | inl room ↦ rw (room, keep_row) (write_row-Leaves q f d m (n_row s.cursor) s h)
  | inr full ↦ elim (Bool-cases (ltb (score d f.rank) s.i_worst)) [
    | inr worse ↦ rw (full, worse, keep_row) h
    | inl better ↦ elim (Option-cases s.idx_worst) [
      | inl unknown ↦ rw (full, better, unknown, keep_row) tt
      | inr (idx, known) ↦ elim (Bool-cases (ltb idx (n_row s.cursor))) [
        | inl within ↦ rw (full, better, known, within, keep_row) (write_row-Leaves q f d m idx s h)
        | inr behind ↦ rw (full, better, known, behind, keep_row) tt
      ]
    ]
  ]
]

grow_row-Leaves :
    (q : MatchQuery) (f : Fetched) (d : ℕ) (m : ℤ) (s : Search)
    → IsRewound s.cursor
    → Leaves (grow_row q f d m s)
unfolding grow_row
grow_row-Leaves q f d m s h = elim (Option-cases s.cursor.rows) [
  | inl gone ↦ rw (gone, grow_row) h
  | inr (rows, held) ↦ rw (held, grow_row) (keep_row-Leaves q f d m s h)
]

pub resize_cursor-IsRewound :
    (realloc : Bool) (n : ℕ) (c : Cursor) → IsRewound c → IsRewound (resize_cursor realloc n c)
unfolding resize_cursor reset_cursor
resize_cursor-IsRewound realloc n c h = elim (Bool-cases (ltb 0 n && realloc)) [
  | inl given ↦ rw (given) h
  | inr refused ↦ elim (Bool-cases (ltb 0 n)) [
    | inl some_size ↦ rw (refused, some_size) (refl, refl)
    | inr no_size ↦ rw (refused, no_size) h
  ]
]

limit_row-Leaves :
    (q : MatchQuery) (f : Fetched) (d : ℕ) (m : ℤ) (s : Search)
    → IsRewound s.cursor
    → Leaves (limit_row q f d m s)
unfolding limit_row
limit_row-Leaves q f d m s h = elim (Option-cases q.i_max_dist) [
  | inl unlimited ↦ rw (unlimited, limit_row) (keep_row-Leaves q f d m s h)
  | inr (most, limited) ↦ elim (Bool-cases (ltb most d)) [
    | inl far ↦ rw (limited, far, limit_row) h
    | inr near ↦ elim (Bool-cases (leb s.cursor.n_alloc (n_row s.cursor) && not q.has_top)) [
      | inl full ↦
          rw (limited, near, full, limit_row)
            (grow_row-Leaves q f d m
              (record s { cursor = resize_cursor f.realloc (s.cursor.n_alloc * 2 + 10) s.cursor })
              (resize_cursor-IsRewound f.realloc (s.cursor.n_alloc * 2 + 10) s.cursor h))
      | inr room ↦ rw (limited, near, room, limit_row) (keep_row-Leaves q f d m s h)
    ]
  ]
]

take_measured-Leaves :
    (q : MatchQuery) (f : Fetched) (o : Option (ℤ × ℤ)) (s : Search)
    → IsRewound s.cursor
    → Leaves (take_measured q f o s)
unfolding take_measured
take_measured-Leaves q f none s h = h
take_measured-Leaves q f (some (negsuc k, m)) s h = h
take_measured-Leaves q f (some (pos d, m)) s h = limit_row-Leaves q f d m (count_search s) h

leave :
    (q : MatchQuery) (rest : List Fetched) (r : Round)
    → Leaves r
    → ((s : Search)
        → IsRewound s.cursor
        → (s' : Search) → run_rows q rest s ≡ some s'
        → IsRewound s'.cursor)
    → (s' : Search)
    → (elim r [ go t ↦ run_rows q rest t | stop t ↦ some t | fault ↦ none ]) ≡ some s'
    → IsRewound s'.cursor
leave q rest (go s) h later s' e = later s h s' e
leave q rest (stop s) h later s' e = subst (λ (t : Search). IsRewound t.cursor) (some-inj e) h
leave q rest fault h later s' e = absurd (none-ne e)

pub run_rows-IsRewound :
    (q : MatchQuery) (fs : List Fetched) (s s' : Search)
    → IsRewound s.cursor
    → run_rows q fs s ≡ some s'
    → IsRewound s'.cursor
unfolding run_rows take_row
run_rows-IsRewound q [] s s' h e = subst (λ (t : Search). IsRewound t.cursor) (some-inj e) h
run_rows-IsRewound q (f ∷ fs) s s' h e =
    leave q fs (take_row q f s) (take_measured-Leaves q f (measure q f) s h)
      (λ t k t' e'. run_rows-IsRewound q fs t t' k e') s' e

-- The rows that are asked for.
abbrev pub asked : Shadow → ℕ → List ℕ → List Fetched
asked shadow i_scope z_class =
    shadow.rows (hash_range i_scope z_class).0 (hash_range i_scope z_class).1

abbrev pub hashed : ℕ → List ℕ → MatchQuery → MatchQuery
hashed i_scope z_class q = record q { hash = (hash_range i_scope z_class).0 }

abbrev after_hash : Shadow → ℕ → MatchQuery → Cursor → Option (List ℕ) → Option (Rc × Cursor)
after_hash shadow i_scope q c hash = elim hash [
  | none ↦ some (no_mem, c)
  | some z_class ↦ query_range shadow q c (hash_range i_scope z_class)
]

abbrev with_array : Cursor → Option (List Row) → Option (Rc × Cursor) → Option (Rc × Cursor)
with_array c o next = elim o [ none ↦ some (ok, c) | some rows ↦ next ]

run_query-hash :
    (shadow : Shadow) (i_scope : ℕ) (z : List ℕ) (q : MatchQuery) (c : Cursor) (rows : List Row)
    (hash : Option (List ℕ))
    → c.rows ≡ some rows
    → phonetic_hash shadow.malloc z ≡ hash
    → run_query shadow i_scope z q c ≡ after_hash shadow i_scope q c hash
unfolding run_query
run_query-hash shadow i_scope z q c rows hash held e =
    ap (λ o. with_array c o (after_hash shadow i_scope q c (phonetic_hash shadow.malloc z))) held
    ∙ ap (after_hash shadow i_scope q c) e

query_range-failed :
    (shadow : Shadow) (q : MatchQuery) (c : Cursor) (range : List ℕ × List ℕ)
    → (is_no_mem shadow.bind1 || is_no_mem shadow.bind2) ≡ true
    → query_range shadow q c range ≡ some (no_mem, c)
unfolding query_range
query_range-failed shadow q c (hash1, hash2) failed = rw (failed) refl

query_range-ran :
    (shadow : Shadow) (q : MatchQuery) (c : Cursor) (range : List ℕ × List ℕ) (s : Search)
    → (is_no_mem shadow.bind1 || is_no_mem shadow.bind2) ≡ false
    → run_rows (record q { hash = range.0 }) (shadow.rows range.0 range.1) (start c) ≡ some s
    → query_range shadow q c range ≡ some (after_reset shadow.reset s)
unfolding query_range
query_range-ran shadow q c (hash1, hash2) s bound runs = rw (bound, runs) refl

-- The query is asked and ends where its memory and its distances are given.
pub run_query-IsBest :
    (shadow : Shadow) (i_scope : ℕ) (z z_class : List ℕ) (q : MatchQuery) (c : Cursor)
    → c.rows ≡ some []
    → 1 ≤ c.n_alloc
    → IsRewound c
    → phonetic_hash shadow.malloc z ≡ some z_class
    → (is_no_mem shadow.bind1 || is_no_mem shadow.bind2) ≡ false
    → shadow.reset ≡ ok
    → All (IsServed (hashed i_scope z_class q)) (asked shadow i_scope z_class)
    → (c' : Cursor) × (kept : List Row) × (run_query shadow i_scope z q c ≡ some (ok, c'))
      × (c'.rows ≡ some kept)
      × IsBest
          (hashed i_scope z_class q)
          c.n_alloc
          kept
          (all_accepted (hashed i_scope z_class q) (asked shadow i_scope z_class))
      × IsRewound c'
run_query-IsBest shadow i_scope z z_class q c held alive h hash bound reset served =
    let (s, runs, fine, kept, left, best) =
      run_rows-IsBest (hashed i_scope z_class q) (asked shadow i_scope z_class) c held alive
        served in
    (
      s.cursor,
      kept,
      run_query-hash shadow i_scope z q c [] (some z_class) held hash
          ∙ query_range-ran shadow q c (hash_range i_scope z_class) s bound runs
          ∙ ap (λ rc. some (rc, s.cursor)) (rw (reset) fine),
      left,
      best,
      run_rows-IsRewound (hashed i_scope z_class q) (asked shadow i_scope z_class) (start c) s h
          runs,
    )

-- Whatever fails, the query ends, within its array.
pub run_query-IsSound :
    (shadow : Shadow) (i_scope : ℕ) (z : List ℕ) (q : MatchQuery) (c : Cursor)
    → c.rows ≡ some []
    → 1 ≤ c.n_alloc
    → IsRewound c
    → (rc : Rc) × (c' : Cursor) × (run_query shadow i_scope z q c ≡ some (rc, c'))
      × (n_row c' ≤ c'.n_alloc)
      × IsRewound c'
run_query-IsSound shadow i_scope z q c held alive h =
    let low : n_row c ≤ c.n_alloc = let e = ap (λ o. length (cells o)) held in omega arith in
    elim (Option-cases (phonetic_hash shadow.malloc z)) [
      | inl no_memory ↦
          (no_mem, c, run_query-hash shadow i_scope z q c [] none held no_memory, low, h)
      | inr (z_class, hash) ↦ elim (Bool-cases (is_no_mem shadow.bind1 || is_no_mem shadow.bind2)) [
        | inl failed ↦ (
          no_mem,
          c,
          run_query-hash shadow i_scope z q c [] (some z_class) held hash
              ∙ query_range-failed shadow q c (hash_range i_scope z_class) failed,
          low,
          h,
        )
        | inr bound ↦
            let (s, runs, sound) =
              run_rows-IsSound (hashed i_scope z_class q) (asked shadow i_scope z_class) c held
                alive in
            (
              (after_reset shadow.reset s).0,
              s.cursor,
              run_query-hash shadow i_scope z q c [] (some z_class) held hash
                  ∙ query_range-ran shadow q c (hash_range i_scope z_class) s bound runs,
              sound.fits,
              run_rows-IsRewound (hashed i_scope z_class q) (asked shadow i_scope z_class) (start c)
                  s h runs,
            )
      ]
    ]

-- There is no array, and nothing is asked.
pub run_query-gone :
    (shadow : Shadow) (i_scope : ℕ) (z : List ℕ) (q : MatchQuery) (c : Cursor)
    → c.rows ≡ none
    → run_query shadow i_scope z q c ≡ some (ok, c)
unfolding run_query
run_query-gone shadow i_scope z q c gone =
    ap (λ o. with_array c o (after_hash shadow i_scope q c (phonetic_hash shadow.malloc z))) gone
