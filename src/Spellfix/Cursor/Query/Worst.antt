-- ===== src/Spellfix/Cursor/Query/Worst.antt =====
-- iWorst and idxWorst of spellfix1RunQuery: the score and the place of the worst row of a full array.
use letarette.Base.{
  ℕ, zero, suc, ◌+◌, ◌≤◌, ◌≡◌, refl, inl, inr, true, some, List, [], ◌∷◌, arith, ltb, ◌==◌,
  if◌then◌else◌, Bool-cases, length, get_elem?, drop, All, ℤ,
}
use native.Mathlib.Numerals.{add-one}
use letarette.Spellfix.Cursor.{Row}
use letarette.Spellfix.Cursor.Query.{
  Fetched, MatchQuery, Search, go, set, find_worst, worst_of, with_rows, row_of, write_row,
}

abbrev pub score_of : Row → ℕ
score_of r = r.i_score

-- The row stands at the index.
abbrev pub IsAt : List Row → ℕ → Row → Type 0
IsAt rows i r = get_elem? rows i ≡ some r

-- iWorst and idxWorst behind one more row.
abbrev worse : ℕ → Row → ℕ
worse worst r = if ltb worst r.i_score then r.i_score else worst

abbrev worse_at : ℕ → ℕ → Row → ℕ → ℕ
worse_at worst idx r i = if ltb worst r.i_score then i else idx

find_worst-ge : (rows : List Row) (i worst idx : ℕ) → worst ≤ (find_worst rows i worst idx).0
unfolding find_worst
find_worst-ge [] i worst idx = omega arith
find_worst-ge (r ∷ rows) i worst idx =
    ground (arith, find_worst-ge rows (i + 1) (worse worst r) (worse_at worst idx r i))

find_worst-most :
    (rows : List Row) (i worst idx : ℕ)
    → All (λ r. score_of r ≤ (find_worst rows i worst idx).0) rows
unfolding find_worst
find_worst-most [] i worst idx = tt
find_worst-most (r ∷ rows) i worst idx = (
  ground (arith, find_worst-ge rows (i + 1) (worse worst r) (worse_at worst idx r i)),
  find_worst-most rows (i + 1) (worse worst r) (worse_at worst idx r i),
)

drop-cons :
    (i : ℕ) (w : List Row) (x : Row) (rows : List Row)
    → drop i w ≡ x ∷ rows
    → IsAt w i x × (drop (suc i) w ≡ rows)
drop-cons zero [] x rows e = cc
drop-cons (suc i) [] x rows e = cc
drop-cons zero (y ∷ w) x rows e = ground arith
drop-cons (suc i) (y ∷ w) x rows e = drop-cons i w x rows e

-- The index points at a row with the score.
abbrev pub Scored : List Row → ℕ × ℕ → Type 0
Scored w (worst, idx) = (r : Row) × IsAt w idx r × (score_of r ≡ worst)

Scored-worse :
    (w : List Row) (x : Row) (i worst idx : ℕ)
    → IsAt w i x
    → Scored w (worst, idx)
    → Scored w (worse worst x, worse_at worst idx x i)
Scored-worse w x i worst idx here s = elim (Bool-cases (ltb worst x.i_score)) [
  | inl more ↦ rw more (x, here, refl)
  | inr less ↦ rw less s
]

find_worst-Scored :
    (w rows : List Row) (i worst idx : ℕ)
    → drop i w ≡ rows
    → Scored w (worst, idx)
    → Scored w (find_worst rows i worst idx)
unfolding find_worst
find_worst-Scored w [] i worst idx e s = s
find_worst-Scored w (x ∷ rows) i worst idx e s =
    let (here, later) = drop-cons i w x rows e in
    find_worst-Scored w rows (i + 1) (worse worst x) (worse_at worst idx x i) (rw add-one later)
      (Scored-worse w x i worst idx here s)

-- What the search remembers of a full array.
pub record IsWorst (rows : List Row) (s : Search) : Type 0 where
  pub idx : ℕ
  pub told : s.idx_worst ≡ some idx
  pub scored : Scored rows (s.i_worst, idx)
  pub most : All (λ r. score_of r ≤ s.i_worst) rows

worst_of-IsWorst : (w : List Row) (s : Search) → 1 ≤ length w → IsWorst w (worst_of w s)
unfolding worst_of
worst_of-IsWorst [] s h = absurd (omega arith)
worst_of-IsWorst (r ∷ rows) s h = record {
  idx = (find_worst rows 1 r.i_score 0).1;
  told = refl;
  scored = find_worst-Scored (r ∷ rows) rows 1 r.i_score 0 refl (r, refl, refl);
  most = (find_worst-ge rows 1 r.i_score 0, find_worst-most rows 1 r.i_score 0);
}

worst_of-cursor :
    (w : List Row) (s : Search) → ((worst_of w s).cursor ≡ s.cursor) × ((worst_of w s).rc ≡ s.rc)
unfolding worst_of
worst_of-cursor [] s = (refl, refl)
worst_of-cursor (r ∷ rows) s = (refl, refl)

-- The array holds `w` now.
pub record Written (s : Search) (w : List Row) (s' : Search) : Type 0 where
  pub array : s'.cursor ≡ record (s.cursor) { rows = some w }
  pub status : s'.rc ≡ s.rc
  pub worst : length w ≡ s.cursor.n_alloc → IsWorst w s'

length-set : (rows : List Row) (idx : ℕ) (x : Row) → 1 ≤ length (set rows idx x)
length-set [] idx x = omega arith
length-set (r ∷ rows) zero x = omega arith
length-set (r ∷ rows) (suc idx) x = omega arith

pub write_row-Written :
    (q : MatchQuery) (f : Fetched) (d : ℕ) (m : ℤ) (idx : ℕ) (s : Search) (rows : List Row)
    → s.cursor.rows ≡ some rows
    → f.mprintf ≡ true
    → (s' : Search) × (write_row q f d m idx s ≡ go s')
      × Written s (set rows idx (row_of q f d m)) s'
unfolding write_row
write_row-Written q f d m idx s rows held given =
    let w : List Row = set rows idx (row_of q f d m) in
    let s' : Search = with_rows w s in
    elim (Bool-cases (length w == s.cursor.n_alloc)) [
      | inl full ↦
          let (cursor, rc) = worst_of-cursor w s' in
          (
            worst_of w s',
            rw (held, given, full) refl,
            record {
              array = cursor;
              status = rc;
              worst = λ _. worst_of-IsWorst w s' (length-set rows idx (row_of q f d m));
            },
          )
      | inr room ↦ (
        s',
        rw (held, given, room) refl,
        record { array = refl; status = refl; worst = λ e. absurd (ground arith) },
      )
    ]
