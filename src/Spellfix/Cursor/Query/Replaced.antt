-- ===== src/Spellfix/Cursor/Query/Replaced.antt =====
-- Writing to the array of the rows that are kept: its length, its scores and its content.
use letarette.Base.{ℕ, zero, suc, ◌≤◌, ◌<◌, ◌≡◌, refl, ap, List, [], ◌∷◌, ◌++◌, arith, length, All}
use mathlib.Core.List.{Perm, perm_middle}
use mathlib.Core.List.Perm
use letarette.Spellfix.Cursor.{Row}
use letarette.Spellfix.Cursor.Query.{set}
use letarette.Spellfix.Cursor.Query.Worst.{score_of, IsAt}

-- No row of the array has a greater score.
abbrev pub AtMost : ℕ → List Row → Type 0
AtMost n = All (λ r. score_of r ≤ n)

abbrev pub AtLeast : ℕ → List Row → Type 0
AtLeast n = All (λ r. n ≤ score_of r)

pub set-length : (rows : List Row) (x : Row) → set rows (length rows) x ≡ rows ++ x ∷ []
set-length [] x = refl
set-length (r ∷ rows) x = ap (λ l. r ∷ l) (set-length rows x)

pub AtMost-set :
    (n idx : ℕ) (rows : List Row) (x : Row)
    → score_of x ≤ n
    → AtMost n rows
    → AtMost n (set rows idx x)
AtMost-set n idx [] x h k = (h, tt)
AtMost-set n zero (r ∷ rows) x h (le, k) = (h, k)
AtMost-set n (suc idx) (r ∷ rows) x h (le, k) = (le, AtMost-set n idx rows x h k)

pub AtMost-at :
    (n idx : ℕ) (rows : List Row) (x : Row) → IsAt rows idx x → AtMost n rows → score_of x ≤ n
AtMost-at n idx [] x at k = cc
AtMost-at n zero (r ∷ rows) x at (le, k) = ground arith
AtMost-at n (suc idx) (r ∷ rows) x at (le, k) = AtMost-at n idx rows x at k

pub AtLeast-mono : (m n : ℕ) (rows : List Row) → n ≤ m → AtLeast m rows → AtLeast n rows
AtLeast-mono m n [] h k = tt
AtLeast-mono m n (r ∷ rows) h (le, k) = (omega arith, AtLeast-mono m n rows h k)

pub length-set_at :
    (idx : ℕ) (rows : List Row) (old x : Row)
    → IsAt rows idx old
    → length (set rows idx x) ≡ length rows
length-set_at idx [] old x at = cc
length-set_at zero (r ∷ rows) old x at = refl
length-set_at (suc idx) (r ∷ rows) old x at = ap suc (length-set_at idx rows old x at)

pub at-lt-length : (idx : ℕ) (rows : List Row) (old : Row) → IsAt rows idx old → idx < length rows
at-lt-length idx [] old at = cc
at-lt-length zero (r ∷ rows) old at = omega arith
at-lt-length (suc idx) (r ∷ rows) old at = omega (arith, at-lt-length idx rows old at)

-- Replacing a row exchanges it for the other one.
set-perm :
    (idx : ℕ) (rows : List Row) (old x : Row)
    → IsAt rows idx old
    → Perm (old ∷ set rows idx x) (x ∷ rows)
set-perm idx [] old x at = cc
set-perm zero (r ∷ rows) old x at = let same : r ≡ old = cc in rw same (Perm.swap _ _ _)
set-perm (suc idx) (r ∷ rows) old x at =
    Perm.trans (Perm.swap _ _ _)
      (Perm.trans (Perm.cons r (set-perm idx rows old x at)) (Perm.swap _ _ _))

pub replaced-perm :
    (idx : ℕ) (rows dropped seen : List Row) (old x : Row)
    → IsAt rows idx old
    → Perm (rows ++ dropped) seen
    → Perm (set rows idx x ++ old ∷ dropped) (x ∷ seen)
replaced-perm idx rows dropped seen old x at p =
    Perm.trans (perm_middle (set rows idx x) dropped)
      (Perm.trans (Perm.append_right dropped (set-perm idx rows old x at)) (Perm.cons x p))

pub AtMost-mono : (m n : ℕ) (rows : List Row) → m ≤ n → AtMost m rows → AtMost n rows
AtMost-mono m n [] h k = tt
AtMost-mono m n (r ∷ rows) h (le, k) = (omega arith, AtMost-mono m n rows h k)
