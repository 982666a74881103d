-- ===== src/Spellfix/Edit3/Rows.antt =====
-- The updates of one row of the Wagner matrix, for a language without configured costs.
use letarette.Base.{
  ℕ, zero, suc, ◌+◌, ◌-◌, ◌*◌, ◌≤◌, ◌<◌, ◌≡◌, sym, List, [], ◌∷◌, arith, length, drop,
}
use mathlib.Core.Path.{subst}
use letarette.Spellfix.Config.{Lang}
use letarette.Spellfix.Config.Load.{IsLoaded}
use letarette.Spellfix.Edit3.{from_char, from_chars, Update, cell_updates, row_updates}
use letarette.Spellfix.Edit3.Script.{char_len}
use letarette.Spellfix.Edit3.Matches.{NonZero, utf8_len_bounds}
use letarette.Spellfix.Edit3.Updates.{At, At-next, cell_updates-IsEdit, row_updates-IsEdit}
use letarette.Spellfix.Edit3.Carries.{Carries, Carries-first, Carries-before, Carries-after}
use letarette.Spellfix.Edit3.Aligned.{Aligned}
use letarette.Spellfix.Edit3.Settled.{
  plain, Above-mono, Best, Best-here, Best-before, row_updates-Above,
}

pub move : (i p : ℕ) → i + suc p ≡ suc i + p
move i p = omega arith

pub stay : (i : ℕ) → i + 0 ≡ i
stay i = omega arith

module _ (lang : Lang) (w1 w2 : List ℕ) (loaded : IsLoaded (plain lang)) where
  abbrev pub row : ℕ → ℕ → ℕ → ℕ → List ℕ → List ℕ → List Update
  row rx rxp i skip z1 z2 =
      row_updates (plain lang) (length w1 + 1) rx rxp i skip (from_chars (plain lang) z1) z1 z2

  abbrev pub cell_of : ℕ → ℕ → ℕ → List ℕ → List ℕ → List Update
  cell_of rx rxp i z1 z2 =
      cell_updates (plain lang) (length w1 + 1) rx rxp i (from_char (plain lang) z1) z1 z2

  -- What is carried at a character of FROM is carried by its row.
  pub row_updates_found :
      (z1 z2 : List ℕ) (i j skip p rx c d k : ℕ)
      → NonZero z1
      → NonZero z2
      → 0 < length z2
      → At w1 i z1
      → At w2 j z2
      → rx ≡ (length w1 + 1) * (j + char_len z2)
      → Aligned z1 skip p
      → p < length z1
      → Carries
          (plain lang)
          w1
          w2
          loaded
          (cell_of rx ((length w1 + 1) * j) (i + p) (drop p z1) z2)
          c
          d
          k
      → Carries (plain lang) w1 w2 loaded (row rx ((length w1 + 1) * j) i skip z1 z2) c d k
  unfolding row_updates from_chars
  row_updates_found [] z2 i j skip p rx c d k nz1 nz2 some2 h h' e a l carries =
      absurd (omega arith)
  row_updates_found (b ∷ z1) z2 i j (suc skip) zero rx c d k nz1 nz2 some2 h h' e a l carries =
      elim a [ ]
  row_updates_found (b ∷ z1) z2 i j (suc skip) (suc p) rx c d k (nz, nz1) nz2 some2 h h' e a l
        carries =
      row_updates_found z1 z2 (suc i) j skip p rx c d k nz1 nz2 some2 (At-next w1 i b z1 h) h' e a
        (omega arith)
        (subst
          (λ n.
            Carries (plain lang) w1 w2 loaded (cell_of rx ((length w1 + 1) * j) n (drop p z1) z2) c
              d k)
          (move i p) carries)
  row_updates_found (b ∷ z1) z2 i j zero zero rx c d k (nz, nz1) nz2 some2 h h' e a l carries =
      Carries-after (plain lang) w1 w2 loaded (cell_of rx ((length w1 + 1) * j) i (b ∷ z1) z2) _ c d
        k
        (subst
          (λ n.
            Carries (plain lang) w1 w2 loaded (cell_of rx ((length w1 + 1) * j) n (b ∷ z1) z2) c d
              k)
          (stay i) carries)
  row_updates_found (b ∷ z1) z2 i j zero (suc p) rx c d k (nz, nz1) nz2 some2 h h' e a l carries =
      Carries-before (plain lang) w1 w2 loaded (cell_of rx ((length w1 + 1) * j) i (b ∷ z1) z2) _ c
        d k
        (cell_updates-IsEdit (plain lang) w1 w2 i j (b ∷ z1) z2 rx (nz, nz1) nz2 (omega arith) some2
          h h' e)
        (row_updates_found z1 z2 (suc i) j (char_len (b ∷ z1) - 1) p rx c d k nz1 nz2 some2
          (At-next w1 i b z1 h) h' e a (omega arith)
          (subst
            (λ n.
              Carries (plain lang) w1 w2 loaded (cell_of rx ((length w1 + 1) * j) n (drop p z1) z2)
                c d k)
            (move i p) carries))

  -- A deletion in a row.
  pub row_updates-delete :
      (z1 z2 : List ℕ) (i j skip p rx : ℕ)
      → NonZero z1
      → NonZero z2
      → 0 < length z2
      → At w1 i z1
      → At w2 j z2
      → rx ≡ (length w1 + 1) * (j + char_len z2)
      → Aligned z1 skip p
      → p < length z1
      → skip ≤ length z1
      → Best
          (plain lang)
          w1
          w2
          loaded
          (row rx ((length w1 + 1) * j) i skip z1 z2)
          (rx + (i + p))
          (rx + (i + p) + char_len (drop p z1))
          lang.i_del_cost
  unfolding row_updates from_chars cell_updates from_char
  row_updates-delete [] z2 i j skip p rx nz1 nz2 some2 h h' e a l s = absurd (omega arith)
  row_updates-delete (b ∷ z1) z2 i j (suc skip) zero rx nz1 nz2 some2 h h' e a l s = elim a [ ]
  row_updates-delete (b ∷ z1) z2 i j (suc skip) (suc p) rx (nz, nz1) nz2 some2 h h' e a l s =
      subst
        (λ n.
          Best (plain lang) w1 w2 loaded (row rx ((length w1 + 1) * j) (suc i) skip z1 z2) (rx + n)
            (rx + n + char_len (drop p z1)) lang.i_del_cost)
        (sym (move i p))
        (row_updates-delete z1 z2 (suc i) j skip p rx nz1 nz2 some2 (At-next w1 i b z1 h) h' e a
          (omega arith) (omega arith))
  row_updates-delete (b ∷ z1) z2 i j zero zero rx (nz, nz1) nz2 some2 h h' e a l s =
      let edits =
        row_updates-IsEdit (plain lang) w1 w2 (b ∷ z1) z2 i j 0 rx (nz, nz1) nz2 some2 h h' e in
      subst
        (λ n.
          Best (plain lang) w1 w2 loaded (row rx ((length w1 + 1) * j) i 0 (b ∷ z1) z2) (rx + n)
            (rx + n + char_len (b ∷ z1)) lang.i_del_cost)
        (sym (stay i))
        (Best-here (plain lang) w1 w2 loaded (row rx ((length w1 + 1) * j) i 0 (b ∷ z1) z2) (rx + i)
          _ lang.i_del_cost (Carries-first (plain lang) w1 w2 loaded _ _ edits.0)
          (Above-mono (rx + i + 0) (rx + i) (row rx ((length w1 + 1) * j) i 0 (b ∷ z1) z2)
            (omega arith) (row_updates-Above lang w1 w2 loaded (b ∷ z1) z2 i 0 rx _ (omega arith))))
  row_updates-delete (b ∷ z1) z2 i j zero (suc p) rx (nz, nz1) nz2 some2 h h' e a l s =
      let (b1, l1) = utf8_len_bounds b (length (b ∷ z1)) (omega arith) in
      subst
        (λ n.
          Best (plain lang) w1 w2 loaded (row rx ((length w1 + 1) * j) i 0 (b ∷ z1) z2) (rx + n)
            (rx + n + char_len (drop p z1)) lang.i_del_cost)
        (sym (move i p))
        (Best-before (plain lang) w1 w2 loaded (cell_of rx ((length w1 + 1) * j) i (b ∷ z1) z2) _ _
          _ lang.i_del_cost
          (cell_updates-IsEdit (plain lang) w1 w2 i j (b ∷ z1) z2 rx (nz, nz1) nz2 (omega arith)
            some2 h h' e)
          (row_updates-delete z1 z2 (suc i) j (char_len (b ∷ z1) - 1) p rx nz1 nz2 some2
            (At-next w1 i b z1 h) h' e a (omega arith) (omega arith)))
