-- ===== src/Spellfix/Translit/Spell.antt =====
-- transliterate writes, for each character, its spelling in ASCII.
use letarette.Base.{
  ℕ, ◌+◌, ◌*◌, ◌≤◌, ◌<◌, ◌≡◌, refl, sym, ap, ◌∙◌, inl, inr, Bool, true, false, ◌&&◌, Option, none,
  some, List, [], ◌∷◌, ◌++◌, append_assoc, append-nil, arith, ltb, leb, ◌==◌, if◌then◌else◌,
  Bool-cases, Option-cases, length, length-append, All,
}
use letarette.Spellfix.Utf8.{walk}
use letarette.Spellfix.Utf8.Encode.{encode_all, IsChar}
use letarette.Spellfix.Utf8.Fold.{fold_while, walk-encode_all}
use letarette.Spellfix.Utf8.Walk.{walk_keeps, walk_grows}
use letarette.Spellfix.Translit.Row.{Transliteration}
use letarette.Spellfix.Translit.Table.{translit}
use letarette.Spellfix.Translit.{spelling, put_char, ascii, ascii_or_undefined, transliterate}
use letarette.Spellfix.Translit.Search.{row_of, find_translit-eq-row_of}

-- A character's spelling: itself, that of its row in the table, or a question mark.
abbrev spell_row : Option Transliteration → List ℕ
spell_row none = b'?' ∷ []
spell_row (some t) = spelling t

abbrev pub spell : ℕ → List ℕ
spell c = if leb c 127 then c ∷ [] else spell_row (row_of c translit)

abbrev pub spell_all : List ℕ → List ℕ
spell_all [] = []
spell_all (c ∷ cs) = spell c ++ spell_all cs

put_char-eq-spell : (out : List ℕ) (c : ℕ) → put_char out c ≡ some (out ++ spell c)
unfolding put_char
put_char-eq-spell out c = elim (Option-cases (row_of c translit)) [
  | inl absent ↦ rw (find_translit-eq-row_of c, absent) (ground arith)
  | inr (t, found) ↦ rw (find_translit-eq-row_of c, found) (ground arith)
]

fold_while-put_char :
    (out cs : List ℕ) → fold_while (λ out. true) put_char out cs ≡ some (out ++ spell_all cs)
fold_while-put_char out [] = ap some (sym (append-nil out))
fold_while-put_char out (c ∷ cs) =
    rw (put_char-eq-spell out c, fold_while)
      (fold_while-put_char (out ++ spell c) cs
        ∙ ap some (append_assoc out (spell c) (spell_all cs)))

-- The encoding of any characters is turned into their spellings, one behind the other.
pub transliterate-encode_all :
    (cs : List ℕ) → All IsChar cs → transliterate true (encode_all cs) ≡ ascii (spell_all cs)
unfolding transliterate
transliterate-encode_all cs h =
    rw (walk-encode_all (λ out. true) put_char cs [] (length (encode_all cs)) h (omega arith))
      (rw (fold_while-put_char [] cs) refl)

abbrev pub IsAscii : ℕ → Type 0
IsAscii c = c < 128

ascii_rows : List Transliteration → Bool
ascii_rows [] = true
ascii_rows (t ∷ tbl) =
    ltb t.c_to0 128 && ltb t.c_to1 128 && ltb t.c_to2 128 && ltb t.c_to3 128 && ascii_rows tbl

translit_ascii : ascii_rows translit ≡ true
unfolding ascii_rows translit
translit_ascii = refl

spelling_bounds :
    (t : Transliteration)
    → (ltb t.c_to0 128 && ltb t.c_to1 128 && ltb t.c_to2 128 && ltb t.c_to3 128) ≡ true
    → All IsAscii (spelling t) × (1 ≤ length (spelling t)) × (length (spelling t) ≤ 4)
unfolding spelling
spelling_bounds t h = (ground arith, ground arith, ground arith)

row_of-IsAscii :
    (c : ℕ) (tbl : List Transliteration)
    → ascii_rows tbl ≡ true
    → All IsAscii (spell_row (row_of c tbl))
      × (1 ≤ length (spell_row (row_of c tbl)))
      × (length (spell_row (row_of c tbl)) ≤ 4)
unfolding ascii_rows
row_of-IsAscii c [] h = omega arith
row_of-IsAscii c (t ∷ tbl) h = elim (Bool-cases (t.c_from == c)) [
  | inl here ↦ rw here (spelling_bounds t (ground arith))
  | inr there ↦ rw there (row_of-IsAscii c tbl (ground arith))
]

-- A character has a spelling of one to four ASCII characters.
pub spell_bounds : (c : ℕ) → All IsAscii (spell c) × (1 ≤ length (spell c)) × (length (spell c) ≤ 4)
spell_bounds c = elim (Bool-cases (leb c 127)) [
  | inl low ↦ rw low (ground arith)
  | inr high ↦ rw high (row_of-IsAscii c translit translit_ascii)
]

All-append : (xs ys : List ℕ) → All IsAscii xs → All IsAscii ys → All IsAscii (xs ++ ys)
All-append [] ys p q = q
All-append (x ∷ xs) ys (h, p) q = (h, All-append xs ys p q)

put_char_keeps :
    (out out' : List ℕ) (c : ℕ) → All IsAscii out → put_char out c ≡ some out' → All IsAscii out'
put_char_keeps out out' c h e =
    let same : out ++ spell c ≡ out' = cc (put_char-eq-spell out c) in
    rw (← same) (All-append out (spell c) h (spell_bounds c).0)

put_char_grows :
    (out out' : List ℕ) (c : ℕ) → put_char out c ≡ some out' → length out' ≤ length out + 4
put_char_grows out out' c e =
    let same : out ++ spell c ≡ out' = cc (put_char-eq-spell out c) in
    rw (← same) (omega (arith, length-append out (spell c), spell_bounds c))

-- Whatever the bytes are, a result is pure ASCII and has at most four characters for each byte, so
-- that it fits the 4 * nIn + 1 bytes that are allocated for it.
pub transliterate_bounds :
    (malloc : Bool) (bytes out : List ℕ)
    → transliterate malloc bytes ≡ ascii out
    → All IsAscii out × (length out ≤ 4 * length bytes)
unfolding transliterate ascii_or_undefined
transliterate_bounds false bytes out e = ground arith
transliterate_bounds true bytes out e =
    elim (Option-cases (walk (λ out. true) put_char (length bytes) [] bytes)) [
      | inl fails ↦ ground arith
      | inr (out', walked) ↦
          let same : out' ≡ out = ground arith in
          rw (← same) (
            walk_keeps (λ out. true) put_char (All IsAscii) put_char_keeps (length bytes) [] bytes
                out' tt walked,
            omega (
              arith,
              walk_grows (λ out. true) put_char length put_char_grows (length bytes) [] bytes out'
                  walked,
            ),
          )
    ]
