-- ===== src/Spellfix/Cursor/Filter/Safety.antt =====
-- A query for a MATCH text stays within its arrays, whatever fails, unless the pattern is empty.
use letarette.Base.{
  ℕ, ◌≤◌, ◌≡◌, refl, sym, ap, ◌⊎◌, inl, inr, Bool, true, false, ◌&&◌, not, Option, none, some, List,
  [], ◌∷◌, arith, ltb, Bool-cases, Option-cases, length,
}
use mathlib.Core.Path.{subst}
use letarette.Sqlite.{Rc, ok, no_mem, is_ok, Value}
use letarette.Auxiliary.{text_until}
use letarette.Spellfix.Translit.{Ascii, transliterate}
use letarette.Spellfix.Config.{Lang}
use letarette.Spellfix.Edit3.{FromString, without_star}
use letarette.Spellfix.Cursor.{Row, Cursor, reset_cursor, resize_cursor}
use letarette.Spellfix.Cursor.Query.Whole.{IsRewound, run_query-gone, run_query-IsSound}
use letarette.Spellfix.Cursor.Plan.{Limits, read_limits}
use letarette.Spellfix.Cursor.Plan.Limit.{read_limits-limit}
use letarette.Spellfix.Cursor.Filter.{
  Vtab, Services, load_config, match_string, query_of, sort_rows, finish_match, ask, transliterated,
  match_text, fresh_array, with_vtab, filter_for_match,
}
use letarette.Spellfix.Cursor.Filter.Answers.{fresh_array-given}

-- After SQLITE_OK the cursor stands on its first row.
abbrev pub IsFine : Rc → Cursor → Type 0
IsFine rc c = (is_ok rc ≡ false) ⊎ IsRewound c

-- No array, or an empty one.
abbrev IsEmpty : Cursor → Type 0
IsEmpty c = (c.rows ≡ none) ⊎ ((c.rows ≡ some []) × (1 ≤ c.n_alloc))

fresh_array-IsEmpty :
    (realloc : Bool) (n : ℕ) (c : Cursor)
    → 1 ≤ n
    → IsEmpty (fresh_array realloc n c) × IsRewound (fresh_array realloc n c)
unfolding reset_cursor resize_cursor
fresh_array-IsEmpty true n c h =
    let e = fresh_array-given n c h in
    subst (λ (d : Cursor). IsEmpty d × IsRewound d) (sym e) (inr (refl, h), (refl, refl))
fresh_array-IsEmpty false n c h =
    let no_memory : (ltb 0 n && false) ≡ false = ground arith in
    let some_size : ltb 0 n ≡ true = ground arith in
    rw (no_memory, some_size) (inl refl, (refl, refl))

sort_rows-IsFine :
    (qsort : List Row → List Row) (limits : Limits) (rc : Rc) (c : Cursor)
    → IsRewound c
    → IsFine (sort_rows qsort limits (rc, c)).0 (sort_rows qsort limits (rc, c)).1
unfolding sort_rows
sort_rows-IsFine qsort limits rc c h = elim (Option-cases c.rows) [
  | inl gone ↦ rw (gone, sort_rows) (inl refl)
  | inr (rows, held) ↦ rw (held, sort_rows) (inr h)
]

abbrev Ends : Option (Rc × Cursor) → Type 0
Ends o = (rc : Rc) × (c : Cursor) × (o ≡ some (rc, c)) × IsFine rc c

finish_match-Ends :
    (qsort : List Row → List Row) (limits : Limits) (o : Option (Rc × Cursor)) (rc : Rc)
    (c : Cursor)
    → o ≡ some (rc, c)
    → IsRewound c
    → Ends (finish_match qsort limits o)
unfolding finish_match
finish_match-Ends qsort limits o rc c e h =
    let sorted = sort_rows qsort limits (rc, c) in
    (sorted.0, sorted.1, ap (finish_match qsort limits) e, sort_rows-IsFine qsort limits rc c h)

ask-Ends :
    (os : Services) (limits : Limits) (match3 : Option (Lang × FromString)) (b : ℕ) (z : List ℕ)
    (c : Cursor)
    → IsEmpty c
    → IsRewound c
    → Ends (ask os limits match3 (b ∷ z) c)
unfolding ask
ask-Ends os limits match3 b z c empty h = elim (Bool-cases (not os.mprintf)) [
  | inl failed ↦ rw (failed, ask) (no_mem, c, refl, inl refl)
  | inr written ↦ elim (Bool-cases (is_ok os.prepare)) [
    | inr failed ↦
        rw (written, failed, ask)
          (finish_match-Ends os.qsort limits _ os.prepare (record c { i_lang = limits.i_lang }) refl
            h)
    | inl prepared ↦
        rw (written, prepared, ask)
          (elim empty [
            | inl gone ↦
                finish_match-Ends os.qsort limits _ ok (record c { i_lang = limits.i_lang })
                  (run_query-gone _ _ _ _ (record c { i_lang = limits.i_lang }) gone) h
            | inr (held, alive) ↦
                let (rc, c', ran, fits, h') =
                  run_query-IsSound (os.shadow limits.i_lang) limits.i_scope (without_star (b ∷ z))
                    (query_of c.idx_num limits (b ∷ z) match3) (record c { i_lang = limits.i_lang })
                    held alive h in
                finish_match-Ends os.qsort limits _ rc c' ran h'
          ])
  ]
]

ask-blank :
    (os : Services) (limits : Limits) (match3 : Option (Lang × FromString)) (z : List ℕ)
    (c : Cursor)
    → z ≡ []
    → ask os limits match3 z c ≡ none
unfolding ask
ask-blank os limits match3 [] c e = refl
ask-blank os limits match3 (b ∷ z) c e = cc

Ascii-cases :
    (a : Ascii)
    → (a ≡ Ascii.no_memory) ⊎ ((a ≡ Ascii.undefined) ⊎ ((out : List ℕ) × (a ≡ Ascii.ascii out)))
Ascii-cases Ascii.no_memory = inl refl
Ascii-cases Ascii.undefined = inr (inl refl)
Ascii-cases (Ascii.ascii out) = inr (inr (out, refl))

List-cases : (z : List ℕ) → (z ≡ []) ⊎ ((b : ℕ) × (rest : List ℕ) × (z ≡ b ∷ rest))
List-cases [] = inl refl
List-cases (b ∷ z) = inr (b, z, refl)

-- The text has no transliteration, or an empty one.
abbrev pub Unprintable : Bool → List ℕ → Type 0
Unprintable malloc z =
    (transliterate malloc z ≡ Ascii.undefined)
    ⊎ ((out : List ℕ) × (transliterate malloc z ≡ Ascii.ascii out)
        × (text_until out (length out) ≡ []))

transliterated-Ends :
    (os : Services) (limits : Limits) (match3 : Option (Lang × FromString)) (c : Cursor)
    (z : List ℕ)
    → IsEmpty c
    → IsRewound c
    → Ends (transliterated os limits match3 c (transliterate os.translit_malloc z))
      ⊎ ((transliterated os limits match3 c (transliterate os.translit_malloc z) ≡ none)
          × Unprintable os.translit_malloc z)
unfolding transliterated
transliterated-Ends os limits match3 c z empty h =
    elim (Ascii-cases (transliterate os.translit_malloc z)) [
      | inl e ↦ inl (rw (e, transliterated) (no_mem, record c { z_pattern = none }, refl, inl refl))
      | inr (inl e) ↦ inr (rw (e, transliterated) refl, inl e)
      | inr (inr (out, e)) ↦ elim (List-cases (text_until out (length out))) [
        | inl blank ↦
            inr (rw (e, transliterated) (ask-blank os limits match3 _ _ blank), inr (out, e, blank))
        | inr (b, rest, printed) ↦ inl (
            rw (e, transliterated)
              (subst
                (λ t. Ends (
                  ask os limits match3 t
                    (record c { z_pattern = some (text_until out (length out)) })))
                (sym printed)
                (ask-Ends os limits match3 b rest
                  (record c { z_pattern = some (text_until out (length out)) }) empty h)))
      ]
    ]

match_text-Ends :
    (os : Services) (config : Option (List Lang)) (limits : Limits) (c : Cursor)
    (text : Option (List ℕ))
    → IsEmpty c
    → IsRewound c
    → Ends (match_text os config limits c text)
      ⊎ ((match_text os config limits c text ≡ none)
          × ((z : List ℕ) × (text ≡ some z) × Unprintable os.translit_malloc z))
unfolding match_text
match_text-Ends os config limits c none empty h = inl (ok, c, refl, inr h)
match_text-Ends os config limits c (some z) empty h =
    elim (Option-cases (match_string os.from_malloc os.from_arrays config limits.i_lang z)) [
      | inl e ↦ inl (rw (e, match_text) (no_mem, c, refl, inl refl))
      | inr (match3, e) ↦
          rw (e, match_text)
            (elim (transliterated-Ends os limits match3 c z empty h) [
              | inl ends ↦ inl ends
              | inr (faults, blank) ↦ inr (faults, (z, refl, blank))
            ])
    ]

with_vtab-some :
    (p : Vtab) (o : Option (Rc × Cursor))
    → Ends o
    → (rc : Rc) × (c : Cursor) × (with_vtab p o ≡ some (rc, p, c)) × IsFine rc c
with_vtab-some p o (rc, c, e, fine) = (rc, c, ap (with_vtab p) e, fine)

-- With the arguments that the plan asks for, whatever fails: spellfix1FilterForMatch ends, within
-- its arrays, with an error or with a cursor on its first row; or the MATCH text is one without a
-- transliteration or with an empty one, and zPattern is read in front of its first byte.
pub filter_for_match-ends :
    (os : Services) (p : Vtab) (c : Cursor) (argv : List Value) (limits : Limits)
    → read_limits c.idx_num argv ≡ some limits
    → ((rc : Rc) × (p' : Vtab) × (c' : Cursor) × (filter_for_match os p c argv ≡ some (rc, p', c'))
        × IsFine rc c')
      ⊎ ((filter_for_match os p c argv ≡ none)
          × ((z : List ℕ) × (os.value_text limits.pattern ≡ some z)
              × Unprintable os.translit_malloc z))
unfolding filter_for_match
filter_for_match-ends os p c argv limits read =
    let p' = (load_config os.config_malloc p).1 in
    elim (Bool-cases (not (is_ok (load_config os.config_malloc p).0))) [
      | inl failed ↦
          inl ((load_config os.config_malloc p).0, p', c, rw (failed) refl, inl (ground arith))
      | inr loaded ↦
          let (empty, h) =
            fresh_array-IsEmpty os.realloc limits.i_limit c
              (read_limits-limit c.idx_num argv limits read) in
          rw (loaded, read)
            (elim (match_text-Ends os p'.p_config3 limits (fresh_array os.realloc limits.i_limit c)
              (os.value_text limits.pattern) empty h) [
                | inl ends ↦
                    let (rc, c', e, fine) = with_vtab-some p' _ ends in inl (rc, p', c', e, fine)
                | inr (faults, blank) ↦ inr (ap (with_vtab p') faults, blank)
              ])
    ]
