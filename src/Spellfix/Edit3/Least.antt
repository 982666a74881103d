-- ===== src/Spellfix/Edit3/Least.antt =====
-- The updates of all rows of the Wagner matrix, for a language without configured costs.
use letarette.Base.{
  ℕ, zero, suc, ◌+◌, ◌-◌, ◌*◌, ◌≤◌, ◌<◌, ◌≡◌, refl, sym, ap, Bool, List, [], ◌∷◌, arith, length,
  drop,
}
use mathlib.Core.Path.{subst}
use letarette.Spellfix.Config.{Lang}
use letarette.Spellfix.Config.Load.{IsLoaded}
use letarette.Spellfix.Edit3.{Update, to_chars, rows_updates}
use letarette.Spellfix.Edit3.Script.{char_len}
use letarette.Spellfix.Edit3.Matches.{All-split, NonZero, utf8_len_bounds}
use letarette.Spellfix.Edit3.Updates.{
  At, At-start, At-next, IsEdit, from_string, rows_updates-IsEdit,
}
use letarette.Spellfix.Edit3.Carries.{Carries, Carries-after}
use letarette.Spellfix.Edit3.Aligned.{Aligned}
use letarette.Spellfix.Edit3.Settled.{
  plain, shift_by, Above-mono, Best, Best-here, Best-before, Best-after, rows_updates-Above,
}
use letarette.Spellfix.Edit3.Rows.{move, stay, row, row_updates-delete}

from_start : (p : ℕ) → 0 + p ≡ p
from_start p = omega arith

module _ (lang : Lang) (w1 w2 : List ℕ) (loaded : IsLoaded (plain lang)) where
  abbrev pub sz : ℕ
  sz = length w1 + 1

  abbrev pub rows : ℕ → ℕ → Bool → List ℕ → List Update
  rows j skip is_prefix z2 =
      rows_updates (plain lang) sz (from_string (plain lang) w1 is_prefix) j skip
        (to_chars (plain lang) z2) z2

  -- The updates for a character of TO.
  abbrev pub body : ℕ → List ℕ → List Update
  body j z2 =
      record { cell = sz * (j + char_len z2); source = sz * j; cost = lang.i_ins_cost }
      ∷ row lang w1 w2 loaded (sz * (j + char_len z2)) (sz * j) 0 0 w1 z2

  pub rows_updates_found :
      (z2 : List ℕ) (j skip q c d k : ℕ) (is_prefix : Bool)
      → NonZero w1
      → NonZero z2
      → At w2 j z2
      → Aligned z2 skip q
      → q < length z2
      → c ≤ sz * (j + q) + length w1
      → Carries (plain lang) w1 w2 loaded (body (j + q) (drop q z2)) c d k
      → Best (plain lang) w1 w2 loaded (rows j skip is_prefix z2) c d k
  unfolding rows_updates to_chars
  rows_updates_found [] j skip q c d k is_prefix nz1 nz2 h a l le carries = absurd (omega arith)
  rows_updates_found (b ∷ z2) j (suc skip) zero c d k is_prefix nz1 nz2 h a l le carries =
      elim a [ ]
  rows_updates_found (b ∷ z2) j (suc skip) (suc q) c d k is_prefix nz1 (nz, nz2) h a l le carries =
      rows_updates_found z2 (suc j) skip q c d k is_prefix nz1 nz2 (At-next w2 j b z2 h) a
        (omega arith) (subst (λ n. c ≤ sz * n + length w1) (move j q) le)
        (subst (λ n. Carries (plain lang) w1 w2 loaded (body n (drop q z2)) c d k) (move j q)
          carries)
  rows_updates_found (b ∷ z2) j zero zero c d k is_prefix nz1 (nz, nz2) h a l le carries =
      Best-here (plain lang) w1 w2 loaded (rows j 0 is_prefix (b ∷ z2)) c d k
        (Carries-after (plain lang) w1 w2 loaded (body j (b ∷ z2)) _ c d k
          (subst (λ n. Carries (plain lang) w1 w2 loaded (body n (b ∷ z2)) c d k) (stay j) carries))
        (Above-mono (sz * (j + 0) + length w1) c (rows j 0 is_prefix (b ∷ z2)) le
          (rows_updates-Above lang w1 w2 loaded (b ∷ z2) j 0 is_prefix (omega arith)))
  rows_updates_found (b ∷ z2) j zero (suc q) c d k is_prefix nz1 (nz, nz2) h a l le carries =
      let edits = rows_updates-IsEdit (plain lang) w1 w2 (b ∷ z2) j 0 is_prefix nz1 (nz, nz2) h in
      Best-before (plain lang) w1 w2 loaded (body j (b ∷ z2)) _ c d k
        (All-split (IsEdit (plain lang) w1 w2) (body j (b ∷ z2)) _ edits).0
        (rows_updates_found z2 (suc j) (char_len (b ∷ z2) - 1) q c d k is_prefix nz1 nz2
          (At-next w2 j b z2 h) a (omega arith) (subst (λ n. c ≤ sz * n + length w1) (move j q) le)
          (subst (λ n. Carries (plain lang) w1 w2 loaded (body n (drop q z2)) c d k) (move j q)
            carries))

  -- A deletion in the row that a character of TO ends in.
  pub rows_updates-delete :
      (z2 : List ℕ) (j skip q p : ℕ) (is_prefix : Bool)
      → NonZero w1
      → NonZero z2
      → At w2 j z2
      → Aligned z2 skip q
      → q < length z2
      → Aligned w1 0 p
      → p < length w1
      → Best
          (plain lang)
          w1
          w2
          loaded
          (rows j skip is_prefix z2)
          (sz * (j + q + char_len (drop q z2)) + p)
          (sz * (j + q + char_len (drop q z2)) + p + char_len (drop p w1))
          lang.i_del_cost
  unfolding rows_updates to_chars
  rows_updates-delete [] j skip q p is_prefix nz1 nz2 h a l b r = absurd (omega arith)
  rows_updates-delete (d ∷ z2) j (suc skip) zero p is_prefix nz1 nz2 h a l b r = elim a [ ]
  rows_updates-delete (d ∷ z2) j (suc skip) (suc q) p is_prefix nz1 (nz, nz2) h a l b r =
      subst
        (λ n.
          Best (plain lang) w1 w2 loaded (rows (suc j) skip is_prefix z2)
            (sz * (n + char_len (drop q z2)) + p)
            (sz * (n + char_len (drop q z2)) + p + char_len (drop p w1)) lang.i_del_cost)
        (sym (move j q))
        (rows_updates-delete z2 (suc j) skip q p is_prefix nz1 nz2 (At-next w2 j d z2 h) a
          (omega arith) b r)
  rows_updates-delete (d ∷ z2) j zero (suc q) p is_prefix nz1 (nz, nz2) h a l b r =
      let edits = rows_updates-IsEdit (plain lang) w1 w2 (d ∷ z2) j 0 is_prefix nz1 (nz, nz2) h in
      subst
        (λ n.
          Best (plain lang) w1 w2 loaded (rows j 0 is_prefix (d ∷ z2))
            (sz * (n + char_len (drop q z2)) + p)
            (sz * (n + char_len (drop q z2)) + p + char_len (drop p w1)) lang.i_del_cost)
        (sym (move j q))
        (Best-before (plain lang) w1 w2 loaded (body j (d ∷ z2)) _ _ _ lang.i_del_cost
          (All-split (IsEdit (plain lang) w1 w2) (body j (d ∷ z2)) _ edits).0
          (rows_updates-delete z2 (suc j) (char_len (d ∷ z2) - 1) q p is_prefix nz1 nz2
            (At-next w2 j d z2 h) a (omega arith) b r))
  rows_updates-delete (d ∷ z2) j zero zero p is_prefix nz1 (nz, nz2) h a l b r =
      let e = char_len (d ∷ z2) in
      let (low, high) = utf8_len_bounds d (length (d ∷ z2)) (omega arith) in
      let edits = rows_updates-IsEdit (plain lang) w1 w2 (d ∷ z2) j 0 is_prefix nz1 (nz, nz2) h in
      subst
        (λ n.
          Best (plain lang) w1 w2 loaded (rows j 0 is_prefix (d ∷ z2)) (sz * (n + e) + p)
            (sz * (n + e) + p + char_len (drop p w1)) lang.i_del_cost)
        (sym (stay j))
        (Best-after (plain lang) w1 w2 loaded (body j (d ∷ z2)) _ _ _ lang.i_del_cost
          (Best-before (plain lang) w1 w2 loaded
            (record { cell = sz * (j + e); source = sz * j; cost = lang.i_ins_cost } ∷ []) _ _ _
            lang.i_del_cost (edits.0, tt)
            (subst
              (λ n.
                Best (plain lang) w1 w2 loaded
                  (row lang w1 w2 loaded (sz * (j + e)) (sz * j) 0 0 w1 (d ∷ z2)) (sz * (j + e) + n)
                  (sz * (j + e) + n + char_len (drop p w1)) lang.i_del_cost)
              (from_start p)
              (row_updates-delete lang w1 w2 loaded w1 (d ∷ z2) 0 j 0 p (sz * (j + e)) nz1 (nz, nz2)
                (omega arith) (At-start w1) h refl b r (omega arith))))
          (Above-mono (sz * (suc j + (e - 1)) + length w1) (sz * (j + e) + p) _
            (let f = ap (λ k. sz * k) (shift_by j e low) in omega arith)
            (rows_updates-Above lang w1 w2 loaded z2 (suc j) (e - 1) is_prefix (omega arith))))
