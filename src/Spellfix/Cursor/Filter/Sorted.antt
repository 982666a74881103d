-- ===== src/Spellfix/Cursor/Filter/Sorted.antt =====
-- What a query relies on in qsort(), and what sorting leaves of the best rows.
use letarette.Base.{
  ℕ, suc, ◌≤◌, ◌≡◌, refl, sym, ap, ◌∙◌, inl, inr, false, List, [], ◌∷◌, arith, leb, if◌then◌else◌,
  length, All, pos, ltb_ℤ,
}
use mathlib.Core.List.{Perm, foldr}
use mathlib.Core.List.Perm
use native.Mathlib.Nat.{ℕ_set}
use letarette.Spellfix.Cursor.{Row, row_compare}
use letarette.Spellfix.Cursor.Query.{MatchQuery}
use letarette.Spellfix.Cursor.Query.Worst.{score_of}
use letarette.Spellfix.Cursor.Query.Replaced.{AtMost}
use letarette.Spellfix.Cursor.Query.Best.{IsBest}

-- No row stands in front of one that spellfix1RowCompare puts before it.
abbrev pub InOrder : List Row → Type 0
InOrder [] = Unit
InOrder (r ∷ rows) = All (λ b. ltb_ℤ (pos 0) (row_compare r b) ≡ false) rows × InOrder rows

-- The C standard's qsort(), with spellfix1RowCompare: the same elements in ascending order.
pub record IsQsort (qsort : List Row → List Row) : Type 0 where
  pub perm : (rows : List Row) → Perm (qsort rows) rows
  pub in_order : (rows : List Row) → InOrder (qsort rows)

abbrev pub Ascending : List Row → Type 0
Ascending [] = Unit
Ascending (r ∷ rows) = All (λ b. score_of r ≤ score_of b) rows × Ascending rows

row_compare-le : (a b : Row) → ltb_ℤ (pos 0) (row_compare a b) ≡ false → score_of a ≤ score_of b
unfolding row_compare
row_compare-le a b e = ground arith

All-row_compare :
    (r : Row) (rows : List Row)
    → All (λ b. ltb_ℤ (pos 0) (row_compare r b) ≡ false) rows
    → All (λ b. score_of r ≤ score_of b) rows
All-row_compare r [] h = tt
All-row_compare r (b ∷ rows) (e, h) = (row_compare-le r b e, All-row_compare r rows h)

pub InOrder-Ascending : (rows : List Row) → InOrder rows → Ascending rows
InOrder-Ascending [] h = tt
InOrder-Ascending (r ∷ rows) (least, h) = (All-row_compare r rows least, InOrder-Ascending rows h)

count_row : Row → ℕ → ℕ
count_row r n = suc n

length-foldr : (rows : List Row) → foldr count_row 0 rows ≡ length rows
unfolding count_row
length-foldr [] = refl
length-foldr (r ∷ rows) = ap suc (length-foldr rows)

pub length-perm : {xs ys : List Row} → Perm xs ys → length xs ≡ length ys
unfolding count_row
length-perm {xs} {ys} p =
    sym (length-foldr xs) ∙ Perm.foldr-eq ℕ_set count_row (λ a b n. refl) p 0 ∙ length-foldr ys

larger : Row → ℕ → ℕ
larger r n = if leb (score_of r) n then n else score_of r

larger_comm : (a b : Row) (n : ℕ) → larger a (larger b n) ≡ larger b (larger a n)
unfolding larger
larger_comm a b n = ground arith

larger-le : (n : ℕ) (r : Row) (m : ℕ) → larger r m ≤ n → (score_of r ≤ n) × (m ≤ n)
unfolding larger
larger-le n r m h = ground arith

le-larger : (n : ℕ) (r : Row) (m : ℕ) → score_of r ≤ n → m ≤ n → larger r m ≤ n
unfolding larger
le-larger n r m h k = ground arith

AtMost-foldr : (n : ℕ) (rows : List Row) → foldr larger 0 rows ≤ n → AtMost n rows
unfolding larger
AtMost-foldr n [] h = tt
AtMost-foldr n (r ∷ rows) h =
    let m = foldr larger 0 rows in
    let both : (score_of r ≤ n) × (m ≤ n) = larger-le n r m h in
    (both.0, AtMost-foldr n rows both.1)

foldr-AtMost : (n : ℕ) (rows : List Row) → AtMost n rows → foldr larger 0 rows ≤ n
foldr-AtMost n [] h = omega arith
foldr-AtMost n (r ∷ rows) (le, h) = le-larger n r (foldr larger 0 rows) le (foldr-AtMost n rows h)

AtMost-perm : (n : ℕ) {xs ys : List Row} → Perm xs ys → AtMost n ys → AtMost n xs
AtMost-perm n {xs} {ys} p h =
    let e = Perm.foldr-eq ℕ_set larger larger_comm p 0 in
    let m = foldr-AtMost n ys h in AtMost-foldr n xs (omega arith)

All-AtMost :
    (xs ys dropped : List Row)
    → Perm xs ys
    → All (λ d. AtMost (score_of d) ys) dropped
    → All (λ d. AtMost (score_of d) xs) dropped
All-AtMost xs ys [] p h = tt
All-AtMost xs ys (d ∷ dropped) p (m, h) =
    (AtMost-perm (score_of d) p m, All-AtMost xs ys dropped p h)

-- The best rows in another order.
pub IsBest-perm :
    (q : MatchQuery) (n : ℕ) (sorted kept all : List Row)
    → Perm sorted kept
    → IsBest q n kept all
    → IsBest q n sorted all
IsBest-perm q n sorted kept all p best =
    let e = length-perm p in
    record {
      dropped = best.dropped;
      perm = Perm.trans (Perm.append_right best.dropped p) best.perm;
      better = All-AtMost sorted kept best.dropped p best.better;
      full = elim best.full [ inl none_dropped ↦ inl none_dropped | inr whole ↦ inr (e ∙ whole) ];
      within = λ g. let w = best.within g in omega arith;
      grown = best.grown;
    }
