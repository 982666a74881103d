-- ===== src/Spellfix/Cursor.antt =====
-- The cursor of the virtual table spellfix1: spellfix1_cursor and the methods that open, reset,
-- resize, close, advance and read it, and the score of a row.
pub mod Query
pub mod Scan
pub mod Score
pub mod Plan
pub mod Filter
mod Examples
use letarette.Base.{
  ℕ, zero, suc, ◌+◌, ◌-◌, ◌*◌, ◌/◌, ◌%◌, ◌^◌, ◌≤◌, ◌<◌, bit_and, bit_or, ◌≡◌, refl, sym, ap, ◌∙◌,
  ◌≢◌, ◌↔◌, ◌⊎◌, inl, inr, Bool, true, false, ◌&&◌, ◌||◌, not, Option, none, some, List, [], ◌∷◌,
  ◌++◌, append_assoc, append-nil, arith, ltb, leb, ◌==◌, ==_iff, if◌then◌else◌, Bool-cases,
  Option-cases, length, get_elem?, get_or, drop-length_append, take, drop, length-append, All,
  IsByte, ℤ, pos, negsuc, pos_part, neg_part, ltb_ℤ, eqb_ℤ, eqb_ℤ→eq, to_int32,
}
use letarette.Sqlite.{Rc, ok, row, done, no_mem, Answer}
use letarette.Spellfix.Utf8.{utf8_charlen}
use letarette.Spellfix.Translit.{Ascii, transliterate, translen_to_charlen}
use letarette.Auxiliary.{text_until}
use letarette.Spellfix.Edit.{editdist1, ends_in_star}

-- spellfix1_row; a word is none where zWord is null.
pub record Row : Type 0 where
  pub i_rowid : ℤ
  pub z_word : Option (List ℕ)
  pub i_rank : ℤ
  pub i_distance : ℕ
  pub i_score : ℕ
  pub i_matchlen : ℤ
  pub z_hash : List ℕ

-- A row of the vocabulary, as the statement of a full scan reports it.
pub record ScanRow : Type 0 where
  pub word : Answer
  pub rank : Answer
  pub langid : Answer
  pub id : ℤ

-- A prepared statement: the row that it stands on, those that its next steps give, and what the
-- step behind them answers.
pub record Statement : Type 0 where
  pub current : Option ScanRow
  pub later : List ScanRow
  pub finish : Rc

-- sqlite3_step
pub step : Statement → Rc × Statement
step st = elim st.later [
  | [] ↦ (st.finish, record st { current = none })
  | r ∷ rest ↦ (row, record st { current = some r; later = rest })
]

-- `rows` is a[0..nRow), and none where `a` is null.
pub record Cursor : Type 0 where
  pub z_pattern : Option (List ℕ)
  pub idx_num : ℕ
  pub rows : Option (List Row)
  pub n_alloc : ℕ
  pub i_row : ℤ
  pub i_lang : ℤ
  pub i_top : ℤ
  pub i_scope : ℕ
  pub n_search : ℕ
  pub full_scan : Option Statement

-- The cursor after memset(); `none` says that there is no memory.
pub open_cursor : Bool → Rc × Option Cursor
open_cursor malloc =
    if malloc
    then (
      ok,
      some (record {
        z_pattern = none;
        idx_num = 0;
        rows = none;
        n_alloc = 0;
        i_row = pos 0;
        i_lang = pos 0;
        i_top = pos 0;
        i_scope = 0;
        n_search = 0;
        full_scan = none;
      }),
    )
    else (no_mem, none)

abbrev pub cells : Option (List Row) → List Row
cells none = []
cells (some rows) = rows

abbrev pub n_row : Cursor → ℕ
n_row c = length (cells c.rows)

-- The array stays allocated, with no row in it.
abbrev pub emptied : Option (List Row) → Option (List Row)
emptied none = none
emptied (some rows) = some []

pub reset_cursor : Cursor → Cursor
reset_cursor c = record c { rows = emptied c.rows; i_row = pos 0; n_search = 0; full_scan = none }

-- sqlite3_realloc64 answers null where it fails, and also for a size of 0.
pub resize_cursor : Bool → ℕ → Cursor → Cursor
unfolding reset_cursor
resize_cursor realloc n c =
    if ltb 0 n && realloc
    then record c { rows = some (cells c.rows); n_alloc = n }
    else if ltb 0 n
    then record (reset_cursor c) { rows = none; n_alloc = 0 }
    else record c { rows = none; n_alloc = 0 }

-- What is left of the cursor when its own block is freed.
pub close_cursor : Cursor → Rc × Cursor
unfolding reset_cursor resize_cursor
close_cursor c = (ok, record (resize_cursor true 0 (reset_cursor c)) { z_pattern = none })

-- for(iLog2=0; iRank>0; iLog2++, iRank>>=1){}, in at most as many rounds as the fuel says.
pub log2_loop : ℕ → ℕ → ℕ → ℕ
log2_loop zero rank log2 = log2
log2_loop (suc fuel) rank log2 =
    let more = log2_loop fuel (rank / 2) (log2 + 1) in if ltb 0 rank then more else log2

-- An `int` is shifted 31 times at most.
pub score : ℕ → ℤ → ℕ
score distance rank = distance + 32 - log2_loop 32 (pos_part rank) 0

-- `a->iScore - b->iScore`
pub row_compare : Row → Row → ℤ
row_compare a b =
    if leb b.i_score a.i_score
    then pos (a.i_score - b.i_score)
    else negsuc (b.i_score - a.i_score - 1)

pub eof : Cursor → Bool
eof c = not (ltb_ℤ c.i_row (pos (n_row c)))

abbrev pub is_row : Rc → Bool
is_row row = true
is_row _ = false

abbrev pub settle : Rc → Rc
settle row = ok
settle done = ok
settle rc = rc

abbrev pub add_one : ℤ → ℤ
add_one (pos n) = pos (n + 1)
add_one (negsuc zero) = pos 0
add_one (negsuc (suc n)) = negsuc n

pub next_scan : Cursor → Rc × Statement → Rc × Cursor
next_scan c (rc, st) = (
  settle rc,
  record c { full_scan = some st; i_row = if is_row rc then c.i_row else pos (n_row c) },
)

pub advance : Option Statement → Cursor → Rc × Cursor
unfolding next_scan step
advance none c = (ok, record c { i_row = add_one c.i_row })
advance (some st) c = next_scan c (step st)

pub next : Cursor → Rc × Cursor
unfolding advance eof
next c = if eof c then (ok, c) else advance c.full_scan c

-- a[iRow]
abbrev pub current_row : Cursor → Option Row
current_row c = get_elem? (cells c.rows) (pos_part c.i_row)

abbrev charlen_answer : Option ℕ → Answer
charlen_answer none = Answer.fault
charlen_answer (some n) = Answer.int (pos n)

abbrev read_distance : List ℕ → Option (ℤ × Option ℕ) → Answer
read_distance word none = Answer.fault
read_distance word (some (negsuc _, matched)) = Answer.error no_mem
read_distance word (some (pos _, none)) = Answer.fault
read_distance word (some (pos _, some n)) = charlen_answer (translen_to_charlen word n)

-- The part of a word that a pattern with a '*' at its end matches, in characters. The two Booleans
-- say whether the memory for the transliteration and for the matrix is given.
pub matched_prefix : Bool → Bool → List ℕ → List ℕ → Answer
matched_prefix translit_malloc edit_malloc pattern word =
    elim (transliterate translit_malloc word) [
      | Ascii.no_memory ↦ Answer.error no_mem
      | Ascii.undefined ↦ Answer.fault
      | Ascii.ascii z ↦
          read_distance word
            (editdist1 edit_malloc true (some pattern) (some (text_until z (length z))))
    ]

pub word_matchlen : Bool → Bool → Option (List ℕ) → Option (List ℕ) → Answer
unfolding matched_prefix
word_matchlen translit_malloc edit_malloc (some pattern) (some word) =
    if ends_in_star pattern
    then matched_prefix translit_malloc edit_malloc pattern word
    else charlen_answer (utf8_charlen word)
word_matchlen translit_malloc edit_malloc _ _ = Answer.fault

pub matchlen : Bool → Bool → Cursor → Row → Answer
unfolding word_matchlen
matchlen translit_malloc edit_malloc c r =
    if ltb_ℤ r.i_matchlen (pos 0)
    then word_matchlen translit_malloc edit_malloc c.z_pattern r.z_word
    else Answer.int r.i_matchlen

abbrev text_or_null : Option (List ℕ) → Answer
text_or_null none = Answer.null
text_or_null (some z) = Answer.text z

-- The columns that are read from the row of the cursor.
abbrev of_row : Option Row → (Row → Answer) → Answer
of_row none read = Answer.fault
of_row (some r) read = read r

abbrev of_scan : Option ScanRow → (ScanRow → Answer) → Answer
of_scan none read = Answer.null
of_scan (some r) read = read r

pub scan_column : Statement → ℕ → Answer
scan_column st i =
    if i == 0
    then of_scan st.current (λ r. r.word)
    else if i == 1
    then of_scan st.current (λ r. r.rank)
    else if i == 3
    then of_scan st.current (λ r. r.langid)
    else Answer.null

-- The numbers are SPELLFIX_COL_WORD and so on.
pub row_column : Bool → Bool → Cursor → ℕ → Answer
unfolding matchlen
row_column translit_malloc edit_malloc c i =
    if i == 0
    then of_row (current_row c) (λ r. text_or_null r.z_word)
    else if i == 1
    then of_row (current_row c) (λ r. Answer.int r.i_rank)
    else if i == 2
    then of_row (current_row c) (λ r. Answer.int (pos r.i_distance))
    else if i == 3
    then Answer.int c.i_lang
    else if i == 4
    then of_row (current_row c) (λ r. Answer.int (pos r.i_score))
    else if i == 5
    then of_row (current_row c) (matchlen translit_malloc edit_malloc c)
    else if i == 6
    then of_row (current_row c) (λ r. Answer.text r.z_hash)
    else if i == 7
    then Answer.int c.i_top
    else if i == 8
    then Answer.int (pos c.i_scope)
    else if i == 9
    then Answer.int (pos c.n_search)
    else Answer.null

pub column : Bool → Bool → Cursor → ℕ → Answer
unfolding scan_column row_column
column translit_malloc edit_malloc c i = elim c.full_scan [
  | none ↦ row_column translit_malloc edit_malloc c i
  | some st ↦ scan_column st i
]

pub rowid_of : Option Statement → Option Row → Option ℤ
rowid_of none none = none
rowid_of none (some r) = some r.i_rowid
rowid_of (some st) r = elim st.current [ none ↦ some (pos 0) | some scan ↦ some scan.id ]

-- `none` is a read outside the array.
pub rowid : Cursor → Option ℤ
unfolding rowid_of
rowid c = rowid_of c.full_scan (current_row c)
