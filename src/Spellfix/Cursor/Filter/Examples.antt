-- ===== src/Spellfix/Cursor/Filter/Examples.antt =====
-- The start of a query at concrete inputs, with a concrete qsort().
use letarette.Base.{
  ℕ, ◌≤◌, ◌≡◌, refl, ◌⊎◌, inl, inr, true, false, none, some, List, [], ◌∷◌, arith, leb,
  if◌then◌else◌, Bool-cases, All, pos, ltb_ℤ,
}
use mathlib.Core.List.{Perm}
use mathlib.Core.List.Perm
use letarette.Sqlite.{Rc, ok, Answer, Value}
use letarette.Auxiliary.{text_until}
use letarette.Spellfix.Utf8.{walk, utf8_read}
use letarette.Spellfix.Classes.{init_class, mid_class, class_name}
use letarette.Spellfix.Costs.{insert_or_delete_cost}
use letarette.Spellfix.Edit.{editdist1}
use letarette.Spellfix.Phonetic.{phonetic_hash}
use letarette.Spellfix.Translit.{Ascii, transliterate}
use letarette.Spellfix.Config.{config_load}
use letarette.Spellfix.Edit3.{without_star}
use letarette.Spellfix.Cursor.{Row, ScanRow, Cursor, row_compare}
use letarette.Spellfix.Cursor.Query.{Fetched, Shadow, measure}
use letarette.Spellfix.Cursor.Plan.{Limits, read_limits}
use letarette.Spellfix.Cursor.Scan.{read_all}
use letarette.Spellfix.Cursor.Query.Worst.{score_of}
use letarette.Spellfix.Cursor.Filter.{
  Vtab, Services, Scanning, load_config, match_string, core_of, match_text, transliterated,
  filter_for_match, filter_for_full_scan,
}
use letarette.Spellfix.Cursor.Filter.Sorted.{InOrder, IsQsort}
use letarette.Spellfix.Cursor.Filter.Answers.{
  load_config-once, asks, given_rows, IsAnswered, filter_for_match-IsAnswered,
}
use letarette.Spellfix.Cursor.Filter.Safety.{IsFine, Unprintable, filter_for_match-ends}
use letarette.Spellfix.Cursor.Filter.Scanned.{giving, filter_for_full_scan-read}

-- Insertion sort.
sorted_in : Row → List Row → List Row
sorted_in r [] = r ∷ []
sorted_in r (b ∷ rows) =
    let later = sorted_in r rows in
    if leb (score_of r) (score_of b) then r ∷ b ∷ rows else b ∷ later

sort : List Row → List Row
unfolding sorted_in
sort [] = []
sort (r ∷ rows) = sorted_in r (sort rows)

sorted_in-Perm : (r : Row) (rows : List Row) → Perm (sorted_in r rows) (r ∷ rows)
unfolding sorted_in
sorted_in-Perm r [] = Perm.rfl
sorted_in-Perm r (b ∷ rows) = elim (Bool-cases (leb (score_of r) (score_of b))) [
  | inl less ↦ rw (less, sorted_in) Perm.rfl
  | inr more ↦
      rw (more, sorted_in) (Perm.trans (Perm.cons b (sorted_in-Perm r rows)) (Perm.swap r b rows))
]

sort-Perm : (rows : List Row) → Perm (sort rows) rows
unfolding sort
sort-Perm [] = Perm.nil
sort-Perm (r ∷ rows) = Perm.trans (sorted_in-Perm r (sort rows)) (Perm.cons r (sort-Perm rows))

le-row_compare : (a b : Row) → score_of a ≤ score_of b → ltb_ℤ (pos 0) (row_compare a b) ≡ false
unfolding row_compare
le-row_compare a b h = ground arith

abbrev After : Row → List Row → Type 0
After r = All (λ b. ltb_ℤ (pos 0) (row_compare r b) ≡ false)

After-sorted_in :
    (b r : Row) (rows : List Row)
    → score_of b ≤ score_of r
    → After b rows
    → After b (sorted_in r rows)
unfolding sorted_in
After-sorted_in b r [] h after = (le-row_compare b r h, tt)
After-sorted_in b r (d ∷ rows) h (first, after) =
    elim (Bool-cases (leb (score_of r) (score_of d))) [
      | inl less ↦ rw (less, sorted_in) (le-row_compare b r h, (first, after))
      | inr more ↦ rw (more, sorted_in) (first, After-sorted_in b r rows h after)
    ]

row_compare_trans :
    (a b d : Row)
    → score_of a ≤ score_of b
    → ltb_ℤ (pos 0) (row_compare b d) ≡ false
    → ltb_ℤ (pos 0) (row_compare a d) ≡ false
unfolding row_compare
row_compare_trans a b d h e = ground arith

After-trans : (a b : Row) (rows : List Row) → score_of a ≤ score_of b → After b rows → After a rows
After-trans a b [] h after = tt
After-trans a b (d ∷ rows) h (e, after) =
    (row_compare_trans a b d h e, After-trans a b rows h after)

sorted_in-InOrder : (r : Row) (rows : List Row) → InOrder rows → InOrder (sorted_in r rows)
unfolding sorted_in
sorted_in-InOrder r [] h = (tt, tt)
sorted_in-InOrder r (b ∷ rows) (after, h) = elim (Bool-cases (leb (score_of r) (score_of b))) [
  | inl less ↦
      let le : score_of r ≤ score_of b = ground arith in
      rw (less, sorted_in) ((le-row_compare r b le, After-trans r b rows le after), (after, h))
  | inr more ↦
      rw (more, sorted_in)
        (After-sorted_in b r rows (ground arith) after, sorted_in-InOrder r rows h)
]

sort-InOrder : (rows : List Row) → InOrder (sort rows)
unfolding sort
sort-InOrder [] = tt
sort-InOrder (r ∷ rows) = sorted_in-InOrder r (sort rows) (sort-InOrder rows)

sort-IsQsort : IsQsort sort
sort-IsQsort = record { perm = sort-Perm; in_order = sort-InOrder }

abbrev word_row : ℕ → List ℕ → Fetched
word_row id k1 = record {
  id = pos id;
  word = k1;
  rank = pos 1;
  k1 = some k1;
  edit_malloc = true;
  overflow = pos 0;
  mprintf = true;
  realloc = true;
}

abbrev vocabulary : Shadow
vocabulary = record {
  malloc = true;
  bind1 = ok;
  bind2 = ok;
  rows = λ hash1 hash2. word_row 1 (b'a' ∷ b'e' ∷ []) ∷ word_row 2 (b'a' ∷ []) ∷ [];
  reset = ok;
}

abbrev services : Services
services = record {
  value_text = λ v. some v.bytes;
  config_malloc = true;
  realloc = true;
  from_malloc = true;
  from_arrays = true;
  translit_malloc = true;
  mprintf = true;
  prepare = ok;
  shadow = λ i_lang. vocabulary;
  qsort = sort;
}

abbrev plain : Vtab
plain = record { z_cost_table = none; p_config3 = none }

-- Loading the table fails.
abbrev costly : Vtab
costly = record {
  z_cost_table = some (record { mprintf = true; prepare = Rc.error; rows = []; finalize = ok });
  p_config3 = none;
}

abbrev cursor_of : ℕ → Cursor
cursor_of idx_num = record {
  z_pattern = none;
  idx_num = idx_num;
  rows = none;
  n_alloc = 0;
  i_row = pos 0;
  i_lang = pos 0;
  i_top = pos 0;
  i_scope = 0;
  n_search = 0;
  full_scan = none;
}

abbrev text_of : List ℕ → Value
text_of z = record { bytes = z; number = pos 0 }

-- MATCH 'a' and top=5.
abbrev arguments : List Value
arguments = text_of (b'a' ∷ []) ∷ record { bytes = b'5' ∷ []; number = pos 5 } ∷ []

abbrev limits : Limits
limits = record {
  pattern = text_of (b'a' ∷ []);
  i_lang = pos 0;
  i_limit = 5;
  i_scope = 3;
  i_max_dist = none;
}

limits-read : read_limits 5 arguments ≡ some limits
unfolding read_limits
limits-read = refl

a_printed : transliterate true (b'a' ∷ []) ≡ Ascii.ascii (b'a' ∷ [])
unfolding transliterate walk utf8_read
a_printed = refl

a_hash : phonetic_hash true (without_star (b'a' ∷ [])) ≡ some (b'A' ∷ [])
unfolding phonetic_hash init_class mid_class class_name without_star
a_hash = refl

filter_for_match-IsAnswered_example :
    (c' : Cursor) × (filter_for_match services plain (cursor_of 5) arguments ≡ some (ok, plain, c'))
    × IsAnswered
        (asks services limits none (b'a' ∷ []) 5 (b'A' ∷ []))
        5
        (given_rows services limits (b'A' ∷ []))
        c'
unfolding load_config match_string measure editdist1 core_of text_until insert_or_delete_cost
    mid_class
filter_for_match-IsAnswered_example =
    filter_for_match-IsAnswered services plain (cursor_of 5) arguments limits (b'a' ∷ []) none
      (b'a' ∷ []) b'a' [] (b'A' ∷ []) sort-IsQsort refl limits-read refl refl refl a_printed refl
      refl refl a_hash refl refl ((tt, refl, refl), ((tt, refl, refl), tt))

load_config-once_example :
    load_config true (load_config true costly).1 ≡ (ok, (load_config true costly).1)
load_config-once_example = load_config-once true costly

-- A failed load answers its error once: the next query goes on without a cost.
failed_load :
    ((load_config true costly).0 ≡ Rc.error)
    × ((load_config true (load_config true costly).1).0 ≡ ok)
unfolding load_config config_load
failed_load = (refl, refl)

-- MATCH ''.
empty_pattern : filter_for_match services plain (cursor_of 1) (text_of [] ∷ []) ≡ none
unfolding filter_for_match load_config match_string match_text transliterated transliterate walk
    read_limits text_until
empty_pattern = refl

filter_for_match-ends_example :
    ((rc : Rc) × (p' : Vtab) × (c' : Cursor) × (filter_for_match services plain
          (cursor_of 5)
          arguments
        ≡ some (rc, p', c'))
      × IsFine rc c')
    ⊎ ((filter_for_match services plain (cursor_of 5) arguments ≡ none)
        × ((z : List ℕ) × (services.value_text limits.pattern ≡ some z)
            × Unprintable services.translit_malloc z))
filter_for_match-ends_example =
    filter_for_match-ends services plain (cursor_of 5) arguments limits limits-read

abbrev scan_row : ℕ → ScanRow
scan_row id = record {
  word = Answer.text (b'a' ∷ []);
  rank = Answer.int (pos 1);
  langid = Answer.int (pos 0);
  id = pos id;
}

abbrev scanning : Scanning
scanning = record {
  mprintf = true;
  prepare = ok;
  bind = ok;
  statement = λ v. giving (scan_row 3 ∷ scan_row 8 ∷ []);
}

filter_for_full_scan-read_example :
    (c' : Cursor) × (filter_for_full_scan scanning (cursor_of 0) [] ≡ some (ok, c'))
    × (read_all 3 c' ≡ some (pos 3 ∷ pos 8 ∷ [], ok))
filter_for_full_scan-read_example =
    filter_for_full_scan-read scanning (cursor_of 0) [] none (scan_row 3 ∷ scan_row 8 ∷ []) refl
      refl refl refl refl
