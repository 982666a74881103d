-- ===== src/Spellfix/Cursor/Scan.antt =====
-- Reading a cursor to its end by xEof, xRowid and xNext, as SQLite does, and the score of a row.
use letarette.Base.{
  ℕ, zero, suc, ◌+◌, ◌<◌, ◌≡◌, refl, sym, ap, ◌∙◌, true, false, not, Option, none, some, List, [],
  ◌∷◌, arith, ltb, if◌then◌else◌, length, get_elem?, drop, ℤ, pos, negsuc, pos_part, ltb_ℤ,
}
use mathlib.Core.Path.{ap₂}
use native.Mathlib.Numerals.{add-one}
use letarette.Sqlite.{Rc, ok, row, done}
use letarette.Spellfix.Cursor.{
  Row, ScanRow, Statement, step, Cursor, cells, n_row, eof, next, next_scan, advance, add_one,
  rowid_of, rowid, settle, is_row, current_row,
}

-- What SQLite reads: the rowids up to xEof, with what xNext answers behind the last one. `none` is
-- a read outside the array, or that the rounds run out.
abbrev pub Reading : Type 0
Reading = Option (List ℤ × Rc)

abbrev pub before : ℤ → Reading → Reading
before r none = none
before r (some (rs, rc)) = some (r ∷ rs, rc)

pub read_next : Option ℤ → Rc → Reading → Reading
read_next none rc later = none
read_next (some r) ok later = before r later
read_next (some r) rc later = some (r ∷ [], rc)

pub read_all : ℕ → Cursor → Reading
unfolding eof next rowid read_next
read_all zero c = none
read_all (suc rounds) c =
    let more = read_next (rowid c) (next c).0 (read_all rounds (next c).1) in
    if eof c then some ([], ok) else more

abbrev pub rowids : List Row → List ℤ
rowids [] = []
rowids (r ∷ rows) = r.i_rowid ∷ rowids rows

abbrev pub scan_rowids : List ScanRow → List ℤ
scan_rowids [] = []
scan_rowids (r ∷ rows) = r.id ∷ scan_rowids rows

drop_all : (i : ℕ) (rows : List Row) → length rows ≡ i → drop i rows ≡ []
drop_all zero [] e = refl
drop_all (suc i) [] e = refl
drop_all zero (r ∷ rows) e = absurd (omega (arith, e))
drop_all (suc i) (r ∷ rows) e = drop_all i rows (omega (arith, e))

drop-at :
    (i : ℕ) (rows : List Row)
    → i < length rows
    → (r : Row) × (get_elem? rows i ≡ some r) × (drop i rows ≡ r ∷ drop (suc i) rows)
drop-at i [] h = absurd (omega arith)
drop-at zero (r ∷ rows) h = (r, refl, refl)
drop-at (suc i) (r ∷ rows) h = drop-at i rows (omega arith)

module _ (i : ℕ) (c : Cursor) (rows : List Row) (held : c.rows ≡ some rows)
    (at : c.i_row ≡ pos i) where
  eof-at : eof c ≡ not (ltb i (length rows))
  unfolding eof
  eof-at = ap (λ (z : ℤ). not (ltb_ℤ z (pos (n_row c)))) at ∙ ground (arith, ap cells held)

  module _ (plain : c.full_scan ≡ none) where
    next-at : i < length rows → next c ≡ (ok, record c { i_row = pos (i + 1) })
    unfolding next advance
    next-at h =
        let more : eof c ≡ false = eof-at ∙ ground arith in
        rw more (ap (λ o. advance o c) plain ∙ ap (λ z. (ok, record c { i_row = add_one z })) at)

    rowid-at : (r : Row) → get_elem? rows i ≡ some r → rowid c ≡ some r.i_rowid
    unfolding rowid rowid_of
    rowid-at r e =
        ap (λ o. rowid_of o (current_row c)) plain
        ∙ ap (λ o. rowid_of none o) (ap₂ (λ o z. get_elem? (cells o) (pos_part z)) held at ∙ e)

read_all-next :
    (rounds : ℕ) (c : Cursor)
    → eof c ≡ false
    → read_all (suc rounds) c ≡ read_next (rowid c) (next c).0 (read_all rounds (next c).1)
unfolding read_all
read_all-next rounds c more = rw more refl

pub read_all-eof :
    (rounds : ℕ) (c : Cursor) → eof c ≡ true → read_all (suc rounds) c ≡ some ([], ok)
unfolding read_all
read_all-eof rounds c over = rw over refl

next-advance : (c : Cursor) → eof c ≡ false → next c ≡ advance c.full_scan c
unfolding next
next-advance c more = rw more refl

-- Row -1 of a full scan.
eof_before : (c : Cursor) → c.i_row ≡ negsuc 0 → eof c ≡ false
unfolding eof
eof_before c at = ap (λ (z : ℤ). not (ltb_ℤ z (pos (n_row c)))) at ∙ ground arith

-- From row `i` on, `left` rows are read in as many rounds and one more.
read_all_from :
    (left i : ℕ) (c : Cursor) (rows : List Row)
    → c.rows ≡ some rows
    → c.full_scan ≡ none
    → c.i_row ≡ pos i
    → i + left ≡ length rows
    → read_all (suc left) c ≡ some (rowids (drop i rows), ok)
unfolding read_all read_next
read_all_from zero i c rows held plain at e =
    let done : eof c ≡ true = eof-at i c rows held at ∙ ground arith in
    let all : drop i rows ≡ [] = drop_all i rows (omega (arith, e)) in rw (done, all) refl
read_all_from (suc left) i c rows held plain at e =
    let (r, here, later) = drop-at i rows (omega (arith, e)) in
    let more : eof c ≡ false = eof-at i c rows held at ∙ ground arith in
    let moved : next c ≡ (ok, record c { i_row = pos (i + 1) }) =
      next-at i c rows held at plain (omega (arith, e)) in
    let read : read_all (suc left) (record c { i_row = pos (i + 1) })
        ≡ some (rowids (drop (suc i) rows), ok) =
      read_all_from left (suc i) (record c { i_row = pos (i + 1) }) rows held plain
        (ap pos (add-one i)) (omega (arith, e)) in
    read_all-next (suc left) c more
    ∙ ap (λ (p : Rc × Cursor). read_next (rowid c) p.0 (read_all (suc left) p.1)) moved
    ∙ ap₂ (λ o m. read_next o ok m) (rowid-at i c rows held at plain r here) read
    ∙ ap (λ l. some (rowids l, ok)) (sym later)

-- A cursor that stands on the first row of its array and has no full scan: SQLite's rounds of
-- xRowid and xNext come to xEof behind the last row, in one round for each row and one more, and see
-- the rowids of all rows in the order of the array, each once, and SQLITE_OK.
pub read_all-rowids :
    (c : Cursor) (rows : List Row)
    → c.rows ≡ some rows
    → c.full_scan ≡ none
    → c.i_row ≡ pos 0
    → read_all (suc (length rows)) c ≡ some (rowids rows, ok)
read_all-rowids c rows held plain at =
    read_all_from (length rows) 0 c rows held plain at (omega arith)

read_next-last :
    (r : ℤ) (rc : Rc) (later : Reading)
    → later ≡ some ([], ok)
    → read_next (some r) rc later ≡ some (r ∷ [], rc)
unfolding read_next
read_next-last r ok later e = rw e refl
read_next-last r Rc.error later e = refl
read_next-last r row later e = refl
read_next-last r done later e = refl
read_next-last r (Rc.other n) later e = refl

abbrev pub standing : ScanRow → List ScanRow → Rc → Statement
standing r later finish = record { current = some r; later = later; finish = finish }

-- The statement has given its last row.
advance-last :
    (r : ScanRow) (finish : Rc) (c : Cursor)
    → is_row finish ≡ false
    → (c' : Cursor) × (advance (some (standing r [] finish)) c ≡ (settle finish, c'))
      × (eof c' ≡ true)
unfolding advance next_scan step eof
advance-last r finish c last =
    let c' : Cursor = record c {
      full_scan = some (record { current = none; later = []; finish = finish });
      i_row = pos (n_row c);
    } in
    (c', rw last refl, ground arith)

advance-row :
    (r r' : ScanRow) (later : List ScanRow) (finish : Rc) (c : Cursor)
    → advance (some (standing r (r' ∷ later) finish)) c
      ≡ (ok, record c { full_scan = some (standing r' later finish) })
unfolding advance next_scan step
advance-row r r' later finish c = refl

-- A full scan that stands before xNext was called, on its first row: SQLite's rounds come to xEof in
-- two rounds more than there are rows behind it. They see the ids of all rows in order, each once,
-- and SQLITE_OK if the statement ends with SQLITE_DONE, else the code that it ends with.
pub read_all-scan_rowids :
    (later : List ScanRow) (r : ScanRow) (finish : Rc) (c : Cursor)
    → is_row finish ≡ false
    → c.full_scan ≡ some (standing r later finish)
    → c.i_row ≡ negsuc 0
    → read_all (suc (suc (length later))) c ≡ some (scan_rowids (r ∷ later), settle finish)
unfolding rowid rowid_of read_next
read_all-scan_rowids [] r finish c last scanning at =
    let more : eof c ≡ false = eof_before c at in
    let (c', moved, over) = advance-last r finish c last in
    read_all-next 1 c more
    ∙ ap (λ (p : Rc × Cursor). read_next (rowid c) p.0 (read_all 1 p.1))
        (next-advance c more ∙ ap (λ o. advance o c) scanning ∙ moved)
    ∙ ap (λ o. read_next (rowid_of o (current_row c)) (settle finish) (read_all 1 c')) scanning
    ∙ read_next-last r.id (settle finish) (read_all 1 c') (read_all-eof 0 c' over)
read_all-scan_rowids (r' ∷ later) r finish c last scanning at =
    let more : eof c ≡ false = eof_before c at in
    let c' : Cursor = record c { full_scan = some (standing r' later finish) } in
    read_all-next (suc (suc (length later))) c more
    ∙ ap (λ (p : Rc × Cursor). read_next (rowid c) p.0 (read_all (suc (suc (length later))) p.1))
        (next-advance c more ∙ ap (λ o. advance o c) scanning ∙ advance-row r r' later finish c)
    ∙ ap₂ (λ o m. read_next (rowid_of o (current_row c)) ok m) scanning
        (read_all-scan_rowids later r' finish c' last refl at)
