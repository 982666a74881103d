-- ===== src/Spellfix/Translit.antt =====
-- transliterate, translen_to_charlen and spellfix1_scriptcode, which read a text by its characters.
pub mod Row
pub mod Latin
pub mod OtherScripts
pub mod Table
pub mod Search
pub mod Spell
mod Examples
pub mod Translen
use letarette.Base.{
  ℕ, zero, suc, ◌+◌, ◌-◌, ◌*◌, ◌/◌, ◌%◌, ◌^◌, ◌≤◌, ◌<◌, bit_and, bit_or, ◌≡◌, refl, sym, ap, ◌∙◌,
  ◌≢◌, ◌↔◌, ◌⊎◌, inl, inr, Bool, true, false, ◌&&◌, ◌||◌, not, Option, none, some, List, [], ◌∷◌,
  ◌++◌, append_assoc, append-nil, arith, ltb, leb, ◌==◌, ==_iff, if◌then◌else◌, Bool-cases,
  Option-cases, length, get_elem?, get_or, drop-length_append, take, drop, length-append, All,
  IsByte, ℤ, pos, negsuc, pos_part, neg_part, ltb_ℤ, eqb_ℤ, eqb_ℤ→eq, to_int32,
}
use letarette.Sqlite.{no_mem, Answer, int, text, null, fault, Value}
use letarette.Auxiliary.{text_until}
use letarette.Spellfix.Classes.{mid_class, class_digit}
use letarette.Spellfix.Utf8.{walk}
use letarette.Spellfix.Translit.Row.{Transliteration}
use letarette.Spellfix.Translit.Table.{translit}

-- The binary search in tbl[xBtm..xTop]; `top` is xTop + 1, so that it does not go below 0. The outer
-- `none` is a read outside the table, or a search that has no fuel left.
pub search_table : List Transliteration → ℕ → ℕ → ℕ → ℕ → Option (Option Transliteration)
search_table tbl zero btm top c = if ltb btm top then none else some none
search_table tbl (suc fuel) btm top c =
    let x = (top - 1 + btm) / 2 in
    let left = search_table tbl fuel btm x c in
    let right = search_table tbl fuel (x + 1) top c in
    if ltb btm top
    then elim (get_elem? tbl x) [
      | none ↦ none
      | some t ↦ if t.c_from == c then some (some t) else if ltb c t.c_from then left else right
    ]
    else some none

-- spellfixFindTranslit gives the whole table and its last index.
pub find_translit : ℕ → Option (Option Transliteration)
unfolding search_table
find_translit c = search_table translit (length translit) 0 (length translit) c

-- The bytes that stand for a character: cTo0, and what follows up to the first 0.
pub spelling : Transliteration → List ℕ
spelling t =
    t.c_to0
    ∷ (if t.c_to1 == 0
        then []
        else t.c_to1
          ∷ (if t.c_to2 == 0 then [] else t.c_to2 ∷ (if t.c_to3 == 0 then [] else t.c_to3 ∷ [])))

pub put_char : List ℕ → ℕ → Option (List ℕ)
unfolding find_translit spelling
put_char out c = if leb c 127 then some (out ++ c ∷ []) else elim (find_translit c) [
  | none ↦ none
  | some none ↦ some (out ++ b'?' ∷ [])
  | some (some t) ↦ some (out ++ spelling t)
]

-- What transliterate returns: the null pointer where the allocation fails.
pub data Ascii : Type 0 where
  undefined : Ascii
  no_memory : Ascii
  ascii : List ℕ → Ascii

ascii_or_undefined : Option (List ℕ) → Ascii
ascii_or_undefined none = undefined
ascii_or_undefined (some out) = ascii out

unfoldable pub transliterate : Bool → List ℕ → Ascii
unfolding put_char ascii_or_undefined
transliterate malloc bytes =
    if malloc
    then ascii_or_undefined (walk (λ out. true) put_char (length bytes) [] bytes)
    else no_memory

-- spellfix1_translit(X): the text ends before the first NUL.
pub transliterate_sql_func : Bool → Value → Answer
unfolding transliterate
transliterate_sql_func malloc v = elim (transliterate malloc v.bytes) [
  | undefined ↦ fault
  | no_memory ↦ Answer.error no_mem
  | ascii out ↦ text (text_until out (length out))
]

-- nChar and nOut.
pub record Progress : Type 0 where
  pub n_char : ℕ
  pub n_out : ℕ

pub count_char : Progress → ℕ → Option Progress
unfolding find_translit spelling
count_char p c =
    if leb 128 c
    then elim (find_translit c) [
      | none ↦ none
      | some none ↦ some (record { n_char = p.n_char + 1; n_out = p.n_out + 1 })
      | some (some t) ↦
          some (record { n_char = p.n_char + 1; n_out = p.n_out + length (spelling t) })
    ]
    else some (record { n_char = p.n_char + 1; n_out = p.n_out + 1 })

pub translen_to_charlen : List ℕ → ℕ → Option ℕ
unfolding count_char
translen_to_charlen bytes n_trans =
    elim (walk (λ p. ltb p.n_out n_trans) count_char (length bytes)
      (record { n_char = 0; n_out = 0 }) bytes) [ none ↦ none | some p ↦ some p.n_char ]

-- scriptMask as a flag for each script, and seenDigit.
pub record Scripts : Type 0 where
  pub latin : Bool
  pub cyrillic : Bool
  pub greek : Bool
  pub hebrew : Bool
  pub arabic : Bool
  pub seen_digit : Bool

abbrev pub no_script : Scripts
no_script = record {
  latin = false;
  cyrillic = false;
  greek = false;
  hebrew = false;
  arabic = false;
  seen_digit = false;
}

abbrev between : ℕ → ℕ → ℕ → Bool
between lo hi c = leb lo c && leb c hi

pub see_char : Scripts → ℕ → Scripts
see_char s c =
    if ltb c 0x02af
    then (if leb 0x80 c || ltb (mid_class c) class_digit
        then record s { latin = true }
        else if between b'0' b'9' c
        then record s { seen_digit = true }
        else s)
    else if between 0x0400 0x04ff c
    then record s { cyrillic = true }
    else if between 0x0386 0x03ce c
    then record s { greek = true }
    else if between 0x0590 0x05ff c
    then record s { hebrew = true }
    else if between 0x0600 0x06ff c
    then record s { arabic = true }
    else s

only : Bool → Bool → Bool → Bool → Bool → ℕ
only false false false false false = 999
only true false false false false = 215
only false true false false false = 220
only false false true false false = 200
only false false false true false = 125
only false false false false true = 160
only _ _ _ _ _ = 998

-- Digits alone count as Latin.
pub code_of : Scripts → ℕ
unfolding only
code_of s =
    let none_seen = not (s.latin || s.cyrillic || s.greek || s.hebrew || s.arabic) in
    only (s.latin || (none_seen && s.seen_digit)) s.cyrillic s.greek s.hebrew s.arabic

pub script_code : Value → Answer
unfolding see_char code_of
script_code v =
    elim (walk (λ s. true) (λ s c. some (see_char s c)) (length v.bytes) no_script v.bytes) [
      | none ↦ fault
      | some s ↦ int (pos (code_of s))
    ]
