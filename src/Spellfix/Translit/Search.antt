-- ===== src/Spellfix/Translit/Search.antt =====
-- The binary search of spellfixFindTranslit's table finds what a look through the whole table finds.
use letarette.Base.{
  ℕ, zero, suc, ◌+◌, ◌-◌, ◌/◌, ◌≤◌, ◌<◌, ◌≡◌, refl, ap, ◌≢◌, inl, inr, Bool, true, ◌&&◌, Option,
  none, some, List, [], ◌∷◌, arith, ltb, ◌==◌, if◌then◌else◌, Bool-cases, Option-cases, length,
  get_elem?,
}
use letarette.Spellfix.Translit.Row.{Transliteration}
use letarette.Spellfix.Translit.Table.{translit}
use letarette.Spellfix.Translit.{search_table, find_translit}

-- The rows stand in the order of their characters, all of which are greater than `lo`.
abbrev Ascends : ℕ → List Transliteration → Type 0
Ascends lo [] = Unit {0}
Ascends lo (t ∷ tbl) = (lo < t.c_from) × Ascends t.c_from tbl

ascends : ℕ → List Transliteration → Bool
ascends lo [] = true
ascends lo (t ∷ tbl) = ltb lo t.c_from && ascends t.c_from tbl

ascends→Ascends : (lo : ℕ) (tbl : List Transliteration) → ascends lo tbl ≡ true → Ascends lo tbl
unfolding ascends
ascends→Ascends lo [] h = tt
ascends→Ascends lo (t ∷ tbl) h = (ground arith, ascends→Ascends t.c_from tbl (ground arith))

ascends-translit : ascends 0x7f translit ≡ true
unfolding ascends translit
ascends-translit = refl

-- The first row for a character.
abbrev pub row_of : ℕ → List Transliteration → Option Transliteration
row_of c [] = none
row_of c (t ∷ tbl) = if t.c_from == c then some t else row_of c tbl

lt-get_elem? :
    (lo : ℕ) (tbl : List Transliteration) (i : ℕ) (t : Transliteration)
    → Ascends lo tbl
    → get_elem? tbl i ≡ some t
    → lo < t.c_from
lt-get_elem? lo [] i t h e = cc
lt-get_elem? lo (u ∷ tbl) zero t (above, h) e = ground arith
lt-get_elem? lo (u ∷ tbl) (suc i) t (above, h) e = omega (arith, lt-get_elem? u.c_from tbl i t h e)

get_elem?_mono :
    (lo : ℕ) (tbl : List Transliteration) (i j : ℕ) (t u : Transliteration)
    → Ascends lo tbl
    → i < j
    → get_elem? tbl i ≡ some t
    → get_elem? tbl j ≡ some u
    → t.c_from < u.c_from
get_elem?_mono lo [] i j t u h lt e f = cc
get_elem?_mono lo (v ∷ tbl) i zero t u h lt e f = absurd (omega arith)
get_elem?_mono lo (v ∷ tbl) zero (suc j) t u (above, h) lt e f =
    let later = lt-get_elem? v.c_from tbl j u h f in ground arith
get_elem?_mono lo (v ∷ tbl) (suc i) (suc j) t u (above, h) lt e f =
    get_elem?_mono v.c_from tbl i j t u h (omega arith) e f

get_elem?_within :
    (tbl : List Transliteration) (i : ℕ)
    → i < length tbl
    → (t : Transliteration) × (get_elem? tbl i ≡ some t)
get_elem?_within [] i h = absurd (omega arith)
get_elem?_within (t ∷ tbl) zero h = (t, refl)
get_elem?_within (t ∷ tbl) (suc i) h = get_elem?_within tbl i (omega arith)

-- Where a row has the character, it is found.
search_table_hit :
    (tbl : List Transliteration) (fuel btm top i : ℕ) (t : Transliteration)
    → Ascends 0x7f tbl
    → get_elem? tbl i ≡ some t
    → top ≤ length tbl
    → btm ≤ i
    → i < top
    → top - btm ≤ fuel
    → search_table tbl fuel btm top t.c_from ≡ some (some t)
unfolding search_table
search_table_hit tbl zero btm top i t sorted e within lo hi enough = absurd (omega arith)
search_table_hit tbl (suc fuel) btm top i t sorted e within lo hi enough =
    let x = (top - 1 + btm) / 2 in
    let (u, f) = get_elem?_within tbl x (omega arith) in
    ground (
      arith,
      f,
      get_elem?_mono 0x7f tbl i x t u sorted,
      get_elem?_mono 0x7f tbl x i u t sorted,
      search_table_hit tbl fuel btm x i t sorted e,
      search_table_hit tbl fuel (x + 1) top i t sorted e,
    )

-- Where no row has the character, none is found.
search_table_miss :
    (tbl : List Transliteration) (fuel btm top c : ℕ)
    → ((i : ℕ) (t : Transliteration) → get_elem? tbl i ≡ some t → t.c_from ≢ c)
    → top ≤ length tbl
    → top - btm ≤ fuel
    → search_table tbl fuel btm top c ≡ some none
unfolding search_table
search_table_miss tbl zero btm top c absent within enough = ground arith
search_table_miss tbl (suc fuel) btm top c absent within enough =
    let x = (top - 1 + btm) / 2 in
    elim (Bool-cases (ltb btm top)) [
      | inr closed ↦ rw closed refl
      | inl open_range ↦
          let (u, f) = get_elem?_within tbl x (ground arith) in
          let other = absent x u f in
          ground (
            arith,
            f,
            search_table_miss tbl fuel btm x c absent,
            search_table_miss tbl fuel (x + 1) top c absent,
          )
    ]

row_of-eq-some :
    (c : ℕ) (tbl : List Transliteration) (t : Transliteration)
    → row_of c tbl ≡ some t
    → (i : ℕ) × (i < length tbl) × (get_elem? tbl i ≡ some t) × (t.c_from ≡ c)
row_of-eq-some c [] t e = cc
row_of-eq-some c (u ∷ tbl) t e = elim (Bool-cases (u.c_from == c)) [
  | inl here ↦ let same : u ≡ t = ground arith in (0, omega arith, ap some same, ground arith)
  | inr there ↦
      let (i, within, found, from) = row_of-eq-some c tbl t (ground arith) in
      (suc i, omega arith, found, from)
]

row_of-eq-none :
    (c : ℕ) (tbl : List Transliteration)
    → row_of c tbl ≡ none
    → (i : ℕ) (t : Transliteration) → get_elem? tbl i ≡ some t
    → t.c_from ≢ c
row_of-eq-none c [] e i t f = cc
row_of-eq-none c (u ∷ tbl) e zero t f = ground arith
row_of-eq-none c (u ∷ tbl) e (suc i) t f = row_of-eq-none c tbl (ground arith) i t f

-- The binary search reads no row outside the table, ends within its fuel, and gives the first row for
-- the character, or none if there is none.
pub find_translit-eq-row_of : (c : ℕ) → find_translit c ≡ some (row_of c translit)
unfolding find_translit
find_translit-eq-row_of c = elim (Option-cases (row_of c translit)) [
  | inl absent ↦ rw absent (
      search_table_miss translit (length translit) 0 (length translit) c
        (row_of-eq-none c translit absent) (omega arith) (omega arith))
  | inr (t, found) ↦
      let (i, within, there, from) = row_of-eq-some c translit t found in
      rw (found, ← from)
        (search_table_hit translit (length translit) 0 (length translit) i t
          (ascends→Ascends 0x7f translit ascends-translit) there (omega arith) (omega arith) within
          (omega arith))
]
