-- ===== src/Spellfix/Cursor/Query/Kept.antt =====
-- The rows that spellfix1RunQuery keeps while it runs: the best ones of those that were accepted so far.
use letarette.Base.{
  ℕ, ◌+◌, ◌≤◌, ◌<◌, ◌≡◌, refl, ap, ◌∙◌, ◌⊎◌, inl, inr, Bool, true, false, not, none, some, List, [],
  ◌∷◌, ◌++◌, append_assoc, arith, ltb, Bool-cases, length, length-append, ℤ,
}
use mathlib.Core.List.{Perm, perm_middle}
use mathlib.Core.List.Perm
use mathlib.Core.Path.{subst}
use letarette.Sqlite.{ok}
use letarette.Spellfix.Cursor.{Row, Cursor, cells, n_row, score}
use letarette.Spellfix.Cursor.Query.{
  Fetched, MatchQuery, Search, Round, go, set, row_of, write_row, keep_row, count_search,
}
use letarette.Spellfix.Cursor.Query.Replaced.{
  AtMost, AtLeast, set-length, AtMost-set, AtMost-at, AtLeast-mono, length-set_at, at-lt-length,
  replaced-perm,
}
use letarette.Spellfix.Cursor.Query.Worst.{score_of, IsAt, IsWorst, Written, write_row-Written}

-- The array grows when it is full: there is a limit on the distance, and none on the rows.
abbrev pub grows : MatchQuery → Bool
grows q = elim q.i_max_dist [ none ↦ false | some most ↦ not q.has_top ]

-- `seen` are the rows that were accepted so far, and `dropped` those of them that are not kept.
pub record Holds (q : MatchQuery) (n : ℕ) (seen : List Row) (s : Search) : Type 0 where
  pub rows : List Row
  pub held : s.cursor.rows ≡ some rows
  pub alive : 1 ≤ s.cursor.n_alloc
  pub fits : length rows ≤ s.cursor.n_alloc
  pub dropped : List Row
  pub perm : Perm (rows ++ dropped) seen
  pub room : length rows < s.cursor.n_alloc → dropped ≡ []
  pub grown : grows q ≡ true → dropped ≡ []
  pub worst : length rows ≡ s.cursor.n_alloc → IsWorst rows s × AtLeast s.i_worst dropped
  pub size : grows q ≡ false → s.cursor.n_alloc ≡ n
  pub fine : s.rc ≡ ok

-- The row is added behind the others.
Holds-added :
    {n : ℕ} (q : MatchQuery) (s s' : Search) (seen : List Row) (x : Row)
    → (h : Holds q n seen s) → length h.rows < s.cursor.n_alloc
    → Written s (set h.rows (length h.rows) x) s'
    → Holds q n (x ∷ seen) s'
Holds-added {n} q s s' seen x h room w =
    let array : set h.rows (length h.rows) x ≡ h.rows ++ x ∷ [] = set-length h.rows x in
    let alloc : s'.cursor.n_alloc ≡ s.cursor.n_alloc = ap (λ (c : Cursor). c.n_alloc) w.array in
    let grown : length (h.rows ++ x ∷ []) ≡ length h.rows + 1 = length-append h.rows (x ∷ []) in
    let kept : Perm (h.rows ++ []) seen = rw (← h.room room) h.perm in
    record {
      rows = h.rows ++ x ∷ [];
      held = ap (λ (c : Cursor). c.rows) w.array ∙ ap some array;
      alive = ground (arith, h.alive);
      fits = ground arith;
      dropped = [];
      perm =
          rw (append_assoc h.rows (x ∷ []) [])
            (Perm.trans (perm_middle h.rows []) (Perm.cons x kept));
      room = λ _. refl;
      grown = λ _. refl;
      worst =
          λ full. (subst (λ l. IsWorst l s') array (w.worst (ap length array ∙ full ∙ alloc)), tt);
      size = λ e. ap (λ (c : Cursor). c.n_alloc) w.array ∙ h.size e;
      fine = w.status ∙ h.fine;
    }

-- The row takes the place of the worst one.
Holds-replaced :
    {n : ℕ} (q : MatchQuery) (s s' : Search) (seen : List Row) (x old : Row) (idx : ℕ)
    → (h : Holds q n seen s) → length h.rows ≡ s.cursor.n_alloc
    → AtMost s.i_worst h.rows
    → AtLeast s.i_worst h.dropped
    → IsAt h.rows idx old
    → score_of old ≡ s.i_worst
    → score_of x < s.i_worst
    → grows q ≡ false
    → Written s (set h.rows idx x) s'
    → Holds q n (x ∷ seen) s'
Holds-replaced {n} q s s' seen x old idx h full most least at scored less fixed w =
    let alloc : s'.cursor.n_alloc ≡ s.cursor.n_alloc = ap (λ (c : Cursor). c.n_alloc) w.array in
    let same : length (set h.rows idx x) ≡ length h.rows = length-set_at idx h.rows old x at in
    let worst : IsWorst (set h.rows idx x) s' = w.worst (same ∙ full) in
    let (r, at', scored') = worst.scored in
    let bounded : AtMost s.i_worst (set h.rows idx x) =
      AtMost-set s.i_worst idx h.rows x (omega arith) most in
    let le : score_of r ≤ s.i_worst =
      AtMost-at s.i_worst worst.idx (set h.rows idx x) r at' bounded in
    record {
      rows = set h.rows idx x;
      held = ap (λ (c : Cursor). c.rows) w.array;
      alive = ground (arith, h.alive);
      fits = ground (arith, h.fits);
      dropped = old ∷ h.dropped;
      perm = replaced-perm idx h.rows h.dropped seen old x at h.perm;
      room = λ room. absurd (omega (arith, same, full, alloc));
      grown = λ e. cc;
      worst = λ _. (
        worst,
        (
          omega (arith, le, scored, scored'),
          AtLeast-mono s.i_worst s'.i_worst h.dropped (omega (arith, le, scored')) least,
        ),
      );
      size = λ e. ap (λ (c : Cursor). c.n_alloc) w.array ∙ h.size e;
      fine = w.status ∙ h.fine;
    }

-- The row is passed over.
pub Holds-passed :
    {n : ℕ} (q : MatchQuery) (s : Search) (seen : List Row) (x : Row)
    → (h : Holds q n seen s) → length h.rows ≡ s.cursor.n_alloc
    → s.i_worst ≤ score_of x
    → grows q ≡ false
    → Holds q n (x ∷ seen) s
Holds-passed {n} q s seen x h full more fixed = record {
  rows = h.rows;
  held = h.held;
  alive = h.alive;
  fits = h.fits;
  dropped = x ∷ h.dropped;
  perm = Perm.trans (perm_middle h.rows h.dropped) (Perm.cons x h.perm);
  room = λ room. absurd (omega (arith, full));
  grown = λ e. cc;
  worst = λ e. ((h.worst e).0, (more, (h.worst e).1));
  size = h.size;
  fine = h.fine;
}

-- A round that goes on and keeps the invariant.
abbrev pub GoesOn : MatchQuery → ℕ → List Row → Round → Type 0
GoesOn q n seen r = (s' : Search) × (r ≡ go s') × Holds q n seen s'

module _ (q : MatchQuery) (f : Fetched) (d : ℕ) (m : ℤ) (s : Search) where
  pub added :
      ltb (n_row s.cursor) s.cursor.n_alloc ≡ true
      → keep_row q f d m s ≡ write_row q f d m (n_row s.cursor) s
  unfolding keep_row
  added room = rw room refl

  module _ (no_room : ltb (n_row s.cursor) s.cursor.n_alloc ≡ false) where
    pub replaced :
        (idx : ℕ)
        → ltb (score d f.rank) s.i_worst ≡ true
        → s.idx_worst ≡ some idx
        → ltb idx (n_row s.cursor) ≡ true
        → keep_row q f d m s ≡ write_row q f d m idx s
    unfolding keep_row
    replaced idx better told inside = ground arith

    pub passed : ltb (score d f.rank) s.i_worst ≡ false → keep_row q f d m s ≡ go s
    unfolding keep_row
    passed worse = rw (no_room, worse) refl

-- A full array: the row takes the place of the worst one, or is passed over.
keep_row-full :
    {n : ℕ} (q : MatchQuery) (f : Fetched) (d : ℕ) (m : ℤ) (s : Search) (seen : List Row)
    → (h : Holds q n seen s) → f.mprintf ≡ true
    → length h.rows ≡ s.cursor.n_alloc
    → ltb (n_row s.cursor) s.cursor.n_alloc ≡ false
    → grows q ≡ false
    → GoesOn q n (row_of q f d m ∷ seen) (keep_row q f d m s)
keep_row-full q f d m s seen h given full no_room fixed =
    let (worst, least) = h.worst full in
    let (old, at, scored) = worst.scored in
    let x : Row = row_of q f d m in
    let counted : n_row s.cursor ≡ length h.rows = ap (λ o. length (cells o)) h.held in
    elim (Bool-cases (ltb (score d f.rank) s.i_worst)) [
      | inl better ↦
          let (s', written, w) = write_row-Written q f d m worst.idx s h.rows h.held given in
          let inside : ltb worst.idx (n_row s.cursor) ≡ true =
            ground (arith, at-lt-length worst.idx h.rows old at) in
          (
            s',
            replaced q f d m s no_room worst.idx better worst.told inside ∙ written,
            Holds-replaced q s s' seen x old worst.idx h full worst.most least at scored
                (ground arith) fixed w,
          )
      | inr worse ↦
          (s, passed q f d m s no_room worse, Holds-passed q s seen x h full (ground arith) fixed)
    ]

pub keep_row-Holds :
    {n : ℕ} (q : MatchQuery) (f : Fetched) (d : ℕ) (m : ℤ) (s : Search) (seen : List Row)
    → (h : Holds q n seen s) → f.mprintf ≡ true
    → (length h.rows < s.cursor.n_alloc) ⊎ (grows q ≡ false)
    → GoesOn q n (row_of q f d m ∷ seen) (keep_row q f d m s)
keep_row-Holds q f d m s seen h given can =
    let counted : n_row s.cursor ≡ length h.rows = ap (λ o. length (cells o)) h.held in
    elim (Bool-cases (ltb (n_row s.cursor) s.cursor.n_alloc)) [
      | inl room ↦
          let (s', written, w) = write_row-Written q f d m (length h.rows) s h.rows h.held given in
          (
            s',
            added q f d m s room ∙ ap (λ i. write_row q f d m i s) counted ∙ written,
            Holds-added q s s' seen (row_of q f d m) h (ground arith) w,
          )
      | inr no_room ↦
          keep_row-full q f d m s seen h given (ground (arith, h.fits)) no_room
            (ground (arith, can))
    ]

pub Holds-count :
    {n : ℕ} (q : MatchQuery) (seen : List Row) (s : Search)
    → Holds q n seen s
    → Holds q n seen (count_search s)
Holds-count {n} q seen s h = record {
  rows = h.rows;
  held = h.held;
  alive = h.alive;
  fits = h.fits;
  dropped = h.dropped;
  perm = h.perm;
  room = h.room;
  grown = h.grown;
  worst = λ e. (
    record {
      idx = (h.worst e).0.idx;
      told = (h.worst e).0.told;
      scored = (h.worst e).0.scored;
      most = (h.worst e).0.most;
    },
    (h.worst e).1,
  );
  size = h.size;
  fine = h.fine;
}
