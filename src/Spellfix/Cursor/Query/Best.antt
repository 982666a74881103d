-- ===== src/Spellfix/Cursor/Query/Best.antt =====
-- The rows that spellfix1RunQuery keeps in the end are the best ones of those that it accepts.
use letarette.Base.{
  ℕ, ◌+◌, ◌*◌, ◌≤◌, ◌<◌, ◌≡◌, refl, sym, ap, ◌∙◌, ◌⊎◌, inl, inr, Bool, true, false, Option, none,
  some, List, [], ◌∷◌, ◌++◌, append_assoc, append-nil, arith, ltb, leb, if◌then◌else◌, Bool-cases,
  length, All, ℤ, pos, negsuc,
}
use mathlib.Core.List.{Perm, perm_append_comm}
use mathlib.Core.List.Perm
use mathlib.Core.Path.{subst}
use letarette.Sqlite.{ok}
use letarette.Spellfix.Cursor.{Row, Cursor, cells, n_row, resize_cursor}
use letarette.Spellfix.Cursor.Query.{
  Fetched, MatchQuery, Search, Round, go, row_of, start, keep_row, grow_row, limit_row, measure,
  count_search, take_measured, take_row, run_rows,
}
use letarette.Spellfix.Cursor.Query.Replaced.{AtMost, AtLeast, AtMost-mono}
use letarette.Spellfix.Cursor.Query.Worst.{score_of}
use letarette.Spellfix.Cursor.Query.Kept.{grows, Holds, GoesOn, keep_row-Holds, Holds-count}

-- A round goes on where the memory for the row is given and its distance is found.
abbrev pub IsMeasured : Option (ℤ × ℤ) → Type 0
IsMeasured none = Unit {0}
IsMeasured (some (pos d, m)) = Unit {0}
IsMeasured (some (negsuc n, m)) = ⊥

abbrev pub IsServed : MatchQuery → Fetched → Type 0
IsServed q f = IsMeasured (measure q f) × (f.mprintf ≡ true) × (f.realloc ≡ true)

abbrev pub within_limit : Option ℕ → ℕ → Bool
within_limit none d = true
within_limit (some most) d = leb d most

-- The rows that are accepted, as they would stand in an array without an end.
abbrev pub accepted : MatchQuery → Fetched → Option (ℤ × ℤ) → List Row
accepted q f none = []
accepted q f (some (negsuc n, m)) = []
accepted q f (some (pos d, m)) = if within_limit q.i_max_dist d then row_of q f d m ∷ [] else []

abbrev pub all_accepted : MatchQuery → List Fetched → List Row
all_accepted q [] = []
all_accepted q (f ∷ rest) = accepted q f (measure q f) ++ all_accepted q rest

abbrev pub longer : Fetched → Search → Search
longer f s = record s { cursor = resize_cursor f.realloc (s.cursor.n_alloc * 2 + 10) s.cursor }

module _ (q : MatchQuery) (f : Fetched) (d : ℕ) (m : ℤ) (s : Search) where
  pub beyond : within_limit q.i_max_dist d ≡ false → limit_row q f d m s ≡ go s
  unfolding limit_row
  beyond e = ground arith

  module _ (within : within_limit q.i_max_dist d ≡ true) where
    pub kept :
        (ltb (n_row s.cursor) s.cursor.n_alloc ≡ true) ⊎ (grows q ≡ false)
        → limit_row q f d m s ≡ keep_row q f d m s
    unfolding limit_row
    kept e = ground arith

    pub grown_first :
        ltb (n_row s.cursor) s.cursor.n_alloc ≡ false
        → grows q ≡ true
        → limit_row q f d m s ≡ grow_row q f d m (longer f s)
    unfolding limit_row
    grown_first full e = ground arith

pub grow_row-keep_row :
    (q : MatchQuery) (f : Fetched) (d : ℕ) (m : ℤ) (s : Search) (rows : List Row)
    → s.cursor.rows ≡ some rows
    → grow_row q f d m s ≡ keep_row q f d m s
unfolding grow_row
grow_row-keep_row q f d m s rows held = ground arith

-- The longer array holds the same rows.
pub Holds-longer :
    {n : ℕ} (q : MatchQuery) (f : Fetched) (s : Search) (seen : List Row)
    → (h : Holds q n seen s) → f.realloc ≡ true
    → grows q ≡ true
    → (h' : Holds q n seen (longer f s)) × (length h'.rows < (longer f s).cursor.n_alloc)
unfolding resize_cursor
Holds-longer {n} q f s seen h given e =
    let positive : ltb 0 (s.cursor.n_alloc * 2 + 10) ≡ true = ground arith in
    rw (positive, given)
      (
        record {
          rows = h.rows;
          held = ap (λ o. some (cells o)) h.held;
          alive = omega arith;
          fits = omega (arith, h.fits);
          dropped = h.dropped;
          perm = h.perm;
          room = λ _. h.grown e;
          grown = h.grown;
          worst = λ full. absurd (omega (arith, h.fits, full));
          size = λ e'. cc;
          fine = h.fine;
        },
        omega (arith, h.fits),
      )

GoesOn-of_eq :
    {n : ℕ} (q : MatchQuery) (seen : List Row) (r r' : Round)
    → r ≡ r'
    → GoesOn q n seen r'
    → GoesOn q n seen r
GoesOn-of_eq q seen r r' e (s', goes, h) = (s', e ∙ goes, h)

-- A row within the limit on the distance.
limit_row-within :
    {n : ℕ} (q : MatchQuery) (f : Fetched) (d : ℕ) (m : ℤ) (s : Search) (seen : List Row)
    → (h : Holds q n seen s) → f.mprintf ≡ true
    → f.realloc ≡ true
    → within_limit q.i_max_dist d ≡ true
    → GoesOn q n (row_of q f d m ∷ seen) (limit_row q f d m s)
limit_row-within q f d m s seen h given realloc within =
    let counted : n_row s.cursor ≡ length h.rows = ap (λ o. length (cells o)) h.held in
    elim (Bool-cases (ltb (n_row s.cursor) s.cursor.n_alloc)) [
      | inl room ↦
          GoesOn-of_eq q _ _ _ (kept q f d m s within (inl room))
            (keep_row-Holds q f d m s seen h given (inl (ground arith)))
      | inr full ↦ elim (Bool-cases (grows q)) [
        | inr fixed ↦
            GoesOn-of_eq q _ _ _ (kept q f d m s within (inr fixed))
              (keep_row-Holds q f d m s seen h given (inr fixed))
        | inl growing ↦
            let (h', room) = Holds-longer q f s seen h realloc growing in
            GoesOn-of_eq q _ _ _
              (grown_first q f d m s within full growing
                ∙ grow_row-keep_row q f d m (longer f s) h'.rows h'.held)
              (keep_row-Holds q f d m (longer f s) seen h' given (inl room))
      ]
    ]

limit_row-Holds :
    {n : ℕ} (q : MatchQuery) (f : Fetched) (d : ℕ) (m : ℤ) (s : Search) (seen : List Row)
    → Holds q n seen s
    → f.mprintf ≡ true
    → f.realloc ≡ true
    → GoesOn q n (accepted q f (some (pos d, m)) ++ seen) (limit_row q f d m s)
limit_row-Holds {n} q f d m s seen h given realloc =
    elim (Bool-cases (within_limit q.i_max_dist d)) [
      | inl within ↦
          subst
            (λ b.
              GoesOn q n ((if b then row_of q f d m ∷ [] else []) ++ seen) (limit_row q f d m s))
            (sym within) (limit_row-within q f d m s seen h given realloc within)
      | inr far ↦
          subst
            (λ b.
              GoesOn q n ((if b then row_of q f d m ∷ [] else []) ++ seen) (limit_row q f d m s))
            (sym far) (s, beyond q f d m s far, h)
    ]

take_row-Holds :
    {n : ℕ} (q : MatchQuery) (f : Fetched) (s : Search) (seen : List Row)
    → Holds q n seen s
    → IsServed q f
    → GoesOn q n (accepted q f (measure q f) ++ seen) (take_row q f s)
unfolding take_row
take_row-Holds {n} q f s seen h (measured, given, realloc) = go_on (measure q f) measured
  where
    go_on :
        (o : Option (ℤ × ℤ))
        → IsMeasured o
        → GoesOn q n (accepted q f o ++ seen) (take_measured q f o s)
    go_on none k = (s, refl, h)
    go_on (some (negsuc n, m)) k = absurd k
    go_on (some (pos d, m)) k =
        limit_row-Holds q f d m (count_search s) seen (Holds-count q seen s h) given realloc

run_rows-Holds :
    {n : ℕ} (q : MatchQuery) (fs : List Fetched) (s : Search) (seen : List Row)
    → Holds q n seen s
    → All (IsServed q) fs
    → (s' : Search) × (run_rows q fs s ≡ some s')
      × (kept : List Row) × Perm kept (all_accepted q fs ++ seen)
      × Holds q n kept s'
unfolding run_rows
run_rows-Holds q [] s seen h served = (s, refl, seen, Perm.refl seen, h)
run_rows-Holds q (f ∷ fs) s seen h (one, served) =
    let (s', goes, h') = take_row-Holds q f s seen h one in
    let now : List Row = accepted q f (measure q f) in
    let later : List Row = all_accepted q fs in
    let (s'', runs, rows, perm, h'') = run_rows-Holds q fs s' (now ++ seen) h' served in
    let turned : Perm (later ++ (now ++ seen)) ((now ++ later) ++ seen) =
      rw (← append_assoc later now seen) (Perm.append_right seen (perm_append_comm later now)) in
    (s'', rw (goes, run_rows) runs, rows, Perm.trans perm turned, h'')

-- `kept` are best ones of `all`: `n` at most, and `n` where any is dropped; but all where the array
-- grows.
pub record IsBest (q : MatchQuery) (n : ℕ) (kept all : List Row) : Type 0 where
  pub dropped : List Row
  pub perm : Perm (kept ++ dropped) all
  pub better : All (λ d. AtMost (score_of d) kept) dropped
  pub full : (dropped ≡ []) ⊎ (length kept ≡ n)
  pub within : grows q ≡ false → length kept ≤ n
  pub grown : grows q ≡ true → dropped ≡ []

All-better :
    (w : ℕ) (kept dropped : List Row)
    → AtMost w kept
    → AtLeast w dropped
    → All (λ d. AtMost (score_of d) kept) dropped
All-better w kept [] h k = tt
All-better w kept (d ∷ dropped) h (le, k) =
    (AtMost-mono w (score_of d) kept le h, All-better w kept dropped h k)

none_better : (kept dropped : List Row) → dropped ≡ [] → All (λ d. AtMost (score_of d) kept) dropped
none_better kept dropped e = rw e tt

Holds-IsBest :
    {n : ℕ} (q : MatchQuery) (s : Search) (seen all : List Row)
    → (h : Holds q n seen s) → Perm seen all
    → IsBest q n h.rows all
Holds-IsBest q s seen all h p = elim (Bool-cases (ltb (length h.rows) s.cursor.n_alloc)) [
  | inl room ↦
      let none_dropped : h.dropped ≡ [] = h.room (ground arith) in
      record {
        dropped = h.dropped;
        perm = Perm.trans h.perm p;
        better = none_better h.rows h.dropped none_dropped;
        full = inl none_dropped;
        within = λ e. omega (arith, h.size e, h.fits);
        grown = h.grown;
      }
  | inr no_room ↦
      let full : length h.rows ≡ s.cursor.n_alloc = ground (arith, h.fits) in
      let (worst, least) = h.worst full in
      record {
        dropped = h.dropped;
        perm = Perm.trans h.perm p;
        better = All-better s.i_worst h.rows h.dropped worst.most least;
        full = elim (Bool-cases (grows q)) [
          | inl growing ↦ inl (h.grown growing)
          | inr fixed ↦ inr (full ∙ h.size fixed)
        ];
        within = λ e. omega (arith, h.size e, h.fits);
        grown = h.grown;
      }
]

pub start-Holds :
    (q : MatchQuery) (c : Cursor)
    → c.rows ≡ some []
    → 1 ≤ c.n_alloc
    → Holds q c.n_alloc [] (start c)
start-Holds q c held alive = record {
  rows = [];
  held = held;
  alive = alive;
  fits = omega arith;
  dropped = [];
  perm = Perm.refl [];
  room = λ _. refl;
  grown = λ _. refl;
  worst = λ e. absurd (omega (arith, e));
  size = λ _. refl;
  fine = refl;
}

-- On an empty array of nAlloc rows, where the memory and the distances that the loop asks for are
-- given: the loop ends with SQLITE_OK. It keeps nAlloc of the accepted rows at most, and all of them
-- if there is a limit on the distance but no top=; it drops one only where nAlloc are kept, and no
-- row that is dropped has a lower score than one that is kept.
pub run_rows-IsBest :
    (q : MatchQuery) (fs : List Fetched) (c : Cursor)
    → c.rows ≡ some []
    → 1 ≤ c.n_alloc
    → All (IsServed q) fs
    → (s : Search) × (run_rows q fs (start c) ≡ some s)
      × (s.rc ≡ ok)
      × (kept : List Row) × (s.cursor.rows ≡ some kept)
      × IsBest q c.n_alloc kept (all_accepted q fs)
run_rows-IsBest q fs c held alive served =
    let (s, runs, seen, perm, h) =
      run_rows-Holds q fs (start c) [] (start-Holds q c held alive) served in
    let all : Perm seen (all_accepted q fs) = rw (← append-nil (all_accepted q fs)) perm in
    (s, runs, h.fine, h.rows, h.held, Holds-IsBest q s seen (all_accepted q fs) h all)
