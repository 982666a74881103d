-- ===== src/Spellfix/Cursor/Filter/Scanned.antt =====
-- A full scan of the vocabulary, from xFilter to the last row.
use letarette.Base.{
  suc, ◌≡◌, refl, ap, ◌∙◌, true, false, ◌&&◌, not, Option, none, some, List, [], ◌∷◌, arith, length,
  negsuc,
}
use letarette.Sqlite.{ok, done, is_ok, Value}
use letarette.Spellfix.Cursor.{ScanRow, Statement, step, Cursor, cells, emptied, reset_cursor, eof}
use letarette.Spellfix.Cursor.Scan.{read_all, scan_rowids, read_all-scan_rowids, read_all-eof}
use letarette.Spellfix.Cursor.Plan.{has_flag}
use letarette.Spellfix.Cursor.Filter.{Scanning, first_step, bound_rowid, filter_for_full_scan}

-- A statement that gives these rows.
abbrev pub giving : List ScanRow → Statement
giving rows = record { current = none; later = rows; finish = done }

cells-emptied : (rows : Option (List _)) → length (cells (emptied rows)) ≡ 0
cells-emptied none = refl
cells-emptied (some rows) = refl

full_scan-started :
    (db : Scanning) (c : Cursor) (argv : List Value) (v : Option Value)
    → db.mprintf ≡ true
    → db.prepare ≡ ok
    → bound_rowid (has_flag c.idx_num 64) argv ≡ some v
    → db.bind ≡ ok
    → filter_for_full_scan db c argv ≡ some (first_step (reset_cursor c) (step (db.statement v)))
unfolding filter_for_full_scan
full_scan-started db c argv v m p bound b =
    let written : not db.mprintf ≡ false = ap not m in
    let prepared : not (is_ok db.prepare) ≡ false = ap (λ rc. not (is_ok rc)) p in
    let fine : (has_flag c.idx_num 64 && not (is_ok db.bind)) ≡ false =
      ap (λ rc. has_flag c.idx_num 64 && not (is_ok rc)) b ∙ ground arith in
    rw (written, prepared, bound, fine) refl

-- A full scan, for one rowid or for all, whose statement is prepared and bound and gives its rows
-- and then SQLITE_DONE: xFilter answers SQLITE_OK, and what SQLite then reads up to xEof are the ids
-- of all those rows in their order, each once, also where there is none.
pub filter_for_full_scan-read :
    (db : Scanning) (c : Cursor) (argv : List Value) (v : Option Value) (rows : List ScanRow)
    → db.mprintf ≡ true
    → db.prepare ≡ ok
    → bound_rowid (has_flag c.idx_num 64) argv ≡ some v
    → db.bind ≡ ok
    → db.statement v ≡ giving rows
    → (c' : Cursor) × (filter_for_full_scan db c argv ≡ some (ok, c'))
      × (read_all (suc (length rows)) c' ≡ some (scan_rowids rows, ok))
unfolding first_step step reset_cursor eof
filter_for_full_scan-read db c argv v [] m p bound b e =
    let c' = record (reset_cursor c) { full_scan = some (giving []) } in
    (
      c',
      full_scan-started db c argv v m p bound b
          ∙ ap (λ st. some (first_step (reset_cursor c) (step st))) e,
      read_all-eof 0 c' (ground (arith, cells-emptied c.rows)),
    )
filter_for_full_scan-read db c argv v (r ∷ rows) m p bound b e =
    let st : Statement = record { current = some r; later = rows; finish = done } in
    let c' = record (reset_cursor c) { full_scan = some st; i_row = negsuc 0 } in
    (
      c',
      full_scan-started db c argv v m p bound b
          ∙ ap (λ st. some (first_step (reset_cursor c) (step st))) e,
      read_all-scan_rowids rows r done c' refl refl refl,
    )
