-- ===== src/Spellfix/Cursor/Query/Safe.antt =====
-- spellfix1RunQuery stays inside its array whatever fails.
use letarette.Base.{
  ℕ, zero, suc, ◌+◌, ◌*◌, ◌≤◌, ◌<◌, ◌≡◌, refl, ap, ◌∙◌, ◌⊎◌, inl, inr, true, false, Option, none,
  some, List, [], ◌∷◌, arith, ltb, Bool-cases, length, ℤ, pos, negsuc,
}
use letarette.Sqlite.{ok, no_mem}
use letarette.Spellfix.Cursor.{Row, Cursor, cells, n_row, resize_cursor, score}
use letarette.Spellfix.Cursor.Query.{
  Fetched, MatchQuery, Search, Round, go, stop, with_rows, row_of, start, spoil, write_row,
  keep_row, grow_row, limit_row, measure, count_search, take_measured, take_row, run_rows,
}
use letarette.Spellfix.Cursor.Query.Replaced.{at-lt-length}
use letarette.Spellfix.Cursor.Query.Kept.{
  grows, Holds, keep_row-Holds, Holds-count, Holds-passed, added, replaced, passed,
}
use letarette.Spellfix.Cursor.Query.Best.{
  within_limit, longer, beyond, kept, grown_first, grow_row-keep_row, Holds-longer, start-Holds,
}

-- What holds when the loop ends.
pub record IsSound (s : Search) : Type 0 where
  pub fits : n_row s.cursor ≤ s.cursor.n_alloc
  pub told : (s.rc ≡ ok) ⊎ (s.rc ≡ no_mem)

-- The round goes on in a good state, or ends the loop in a sound one.
abbrev IsSafe : MatchQuery → ℕ → Round → Type 0
IsSafe q n r =
    ((seen : List Row) × (s : Search) × (r ≡ go s) × Holds q n seen s)
    ⊎ ((s : Search) × (r ≡ stop s) × IsSound s)

IsSafe-of_eq : (q : MatchQuery) (n : ℕ) (r r' : Round) → r ≡ r' → IsSafe q n r' → IsSafe q n r
IsSafe-of_eq q n r r' e safe = rw e safe

length-spoil : (rows : List Row) (idx : ℕ) → length (spoil rows idx) ≡ length rows
unfolding spoil
length-spoil [] idx = refl
length-spoil (r ∷ rows) zero = refl
length-spoil (r ∷ rows) (suc idx) = ap suc (length-spoil rows idx)

write_row-stop :
    (q : MatchQuery) (f : Fetched) (d : ℕ) (m : ℤ) (idx : ℕ) (s : Search)
    → f.mprintf ≡ false
    → write_row q f d m idx s
      ≡ stop (record (with_rows (spoil (cells s.cursor.rows) idx) s) { rc = no_mem })
unfolding write_row
write_row-stop q f d m idx s failed = rw failed refl

write_row-IsSafe :
    {n : ℕ} (q : MatchQuery) (f : Fetched) (d : ℕ) (m : ℤ) (idx : ℕ) (s : Search) (seen : List Row)
    → Holds q n seen s
    → f.mprintf ≡ false
    → IsSafe q n (write_row q f d m idx s)
write_row-IsSafe q f d m idx s seen h failed = inr (
  record (with_rows (spoil (cells s.cursor.rows) idx) s) { rc = no_mem },
  write_row-stop q f d m idx s failed,
  record {
    fits =
        omega (
          arith,
          length-spoil (cells s.cursor.rows) idx,
          ap (λ o. length (cells o)) h.held,
          h.fits,
        );
    told = inr refl;
  },
)

keep_row-IsSafe :
    {n : ℕ} (q : MatchQuery) (f : Fetched) (d : ℕ) (m : ℤ) (s : Search) (seen : List Row)
    → (h : Holds q n seen s) → (length h.rows < s.cursor.n_alloc) ⊎ (grows q ≡ false)
    → IsSafe q n (keep_row q f d m s)
keep_row-IsSafe {n} q f d m s seen h can = elim (Bool-cases f.mprintf) [
  | inl given ↦
      let (s', goes, h') = keep_row-Holds q f d m s seen h given can in
      inl (row_of q f d m ∷ seen, s', goes, h')
  | inr failed ↦ elim (Bool-cases (ltb (n_row s.cursor) s.cursor.n_alloc)) [
    | inl room ↦
        IsSafe-of_eq q n _ _ (added q f d m s room)
          (write_row-IsSafe q f d m (n_row s.cursor) s seen h failed)
    | inr no_room ↦
        let counted : n_row s.cursor ≡ length h.rows = ap (λ o. length (cells o)) h.held in
        let full : length h.rows ≡ s.cursor.n_alloc = ground (arith, h.fits) in
        let fixed : grows q ≡ false = ground (arith, can) in
        let (worst, least) = h.worst full in
        let (old, at, scored) = worst.scored in
        elim (Bool-cases (ltb (score d f.rank) s.i_worst)) [
          | inl better ↦
              let inside : ltb worst.idx (n_row s.cursor) ≡ true =
                ground (arith, at-lt-length worst.idx h.rows old at) in
              IsSafe-of_eq q n _ _ (replaced q f d m s no_room worst.idx better worst.told inside)
                (write_row-IsSafe q f d m worst.idx s seen h failed)
          | inr worse ↦ inl (
            row_of q f d m ∷ seen,
            s,
            passed q f d m s no_room worse,
            Holds-passed q s seen (row_of q f d m) h full (ground arith) fixed,
          )
        ]
  ]
]

-- The array is not made longer: it is gone, and so are its rows.
shrunk :
    (f : Fetched) (s : Search)
    → f.realloc ≡ false
    → ((longer f s).cursor.rows ≡ none) × ((longer f s).cursor.n_alloc ≡ 0)
unfolding resize_cursor
shrunk f s failed =
    let positive : ltb 0 (s.cursor.n_alloc * 2 + 10) ≡ true = ground arith in
    rw (positive, failed) (refl, refl)

grow_row-stop :
    (q : MatchQuery) (f : Fetched) (d : ℕ) (m : ℤ) (s : Search)
    → s.cursor.rows ≡ none
    → grow_row q f d m s ≡ stop s
unfolding grow_row
grow_row-stop q f d m s gone = ground arith

limit_row-IsSafe :
    {n : ℕ} (q : MatchQuery) (f : Fetched) (d : ℕ) (m : ℤ) (s : Search) (seen : List Row)
    → (h : Holds q n seen s) → IsSafe q n (limit_row q f d m s)
limit_row-IsSafe {n} q f d m s seen h = elim (Bool-cases (within_limit q.i_max_dist d)) [
  | inr far ↦ inl (seen, s, beyond q f d m s far, h)
  | inl within ↦ elim (Bool-cases (ltb (n_row s.cursor) s.cursor.n_alloc)) [
    | inl room ↦
        let counted : n_row s.cursor ≡ length h.rows = ap (λ o. length (cells o)) h.held in
        IsSafe-of_eq q n _ _ (kept q f d m s within (inl room))
          (keep_row-IsSafe q f d m s seen h (inl (ground arith)))
    | inr full ↦ elim (Bool-cases (grows q)) [
      | inr fixed ↦
          IsSafe-of_eq q n _ _ (kept q f d m s within (inr fixed))
            (keep_row-IsSafe q f d m s seen h (inr fixed))
      | inl growing ↦ elim (Bool-cases f.realloc) [
        | inl given ↦
            let (h', room) = Holds-longer q f s seen h given growing in
            IsSafe-of_eq q n _ _
              (grown_first q f d m s within full growing
                ∙ grow_row-keep_row q f d m (longer f s) h'.rows h'.held)
              (keep_row-IsSafe q f d m (longer f s) seen h' (inl room))
        | inr failed ↦
            let (gone, none_left) = shrunk f s failed in
            inr (
              longer f s,
              grown_first q f d m s within full growing ∙ grow_row-stop q f d m (longer f s) gone,
              record {
                fits = omega (arith, none_left, ap (λ o. length (cells o)) gone);
                told = inl h.fine;
              },
            )
      ]
    ]
  ]
]

take_measured-IsSafe :
    {n : ℕ} (q : MatchQuery) (f : Fetched) (o : Option (ℤ × ℤ)) (s : Search) (seen : List Row)
    → Holds q n seen s
    → IsSafe q n (take_measured q f o s)
unfolding take_measured
take_measured-IsSafe q f none s seen h = inl (seen, s, refl, h)
take_measured-IsSafe q f (some (negsuc k, m)) s seen h = inr (
  record s { rc = no_mem },
  refl,
  record { fits = omega (arith, h.fits, ap (λ o. length (cells o)) h.held); told = inr refl },
)
take_measured-IsSafe q f (some (pos d, m)) s seen h =
    limit_row-IsSafe q f d m (count_search s) seen (Holds-count q seen s h)

run_rows-IsSound_from :
    {n : ℕ} (q : MatchQuery) (fs : List Fetched) (s : Search) (seen : List Row)
    → Holds q n seen s
    → (s' : Search) × (run_rows q fs s ≡ some s') × IsSound s'
unfolding run_rows
run_rows-IsSound_from q [] s seen h = (
  s,
  refl,
  record { fits = omega (arith, h.fits, ap (λ o. length (cells o)) h.held); told = inl h.fine },
)
run_rows-IsSound_from q (f ∷ fs) s seen h =
    let safe : IsSafe q _ (take_row q f s) = take_measured-IsSafe q f (measure q f) s seen h in
    elim safe [
      | inl (seen', s', goes, h') ↦
          let (s'', runs, sound) = run_rows-IsSound_from q fs s' seen' h' in
          (s'', rw (goes, run_rows) runs, sound)
      | inr (s', stops, sound) ↦ (s', rw (stops, run_rows) refl, sound)
    ]

-- On an empty array of one row or more, whatever the allocator and the distances are: the loop ends
-- and writes to no index outside the rows that it holds or the next one that is allocated. In the
-- end there are nAlloc rows at most, and the status is SQLITE_OK or SQLITE_NOMEM.
pub run_rows-IsSound :
    (q : MatchQuery) (fs : List Fetched) (c : Cursor)
    → c.rows ≡ some []
    → 1 ≤ c.n_alloc
    → (s : Search) × (run_rows q fs (start c) ≡ some s) × IsSound s
run_rows-IsSound q fs c held alive =
    run_rows-IsSound_from q fs (start c) [] (start-Holds q c held alive)
