-- ===== src/Spellfix/Edit3/Minimum.antt =====
-- Edit scripts of editDist3Core: where they stop, and the cells that they reach, in the matrix of a
-- language without configured costs.
use letarette.Base.{
  ℕ, zero, suc, ◌+◌, ◌-◌, ◌*◌, ◌≤◌, ◌<◌, ◌≡◌, refl, sym, ap, inl, inr, Bool, List, [], ◌∷◌, ◌++◌,
  arith, ◌==◌, if◌then◌else◌, Bool-cases, length, get_or, take, drop, All,
}
use mathlib.Core.Path.{subst}
use letarette.Spellfix.Config.{Lang}
use letarette.Spellfix.Config.Load.{IsLoaded}
use letarette.Spellfix.Edit3.{
  head, from_char, from_chars, match_from_to, Update, update_all, cell_updates, top_updates,
}
use letarette.Spellfix.Edit3.Script.{
  char_len, Begins, Edit, delete, insert, substitute, keep, configured,
}
use letarette.Spellfix.Edit3.Matches.{All-split, NonZero, utf8_len_bounds}
use letarette.Spellfix.Edit3.Updates.{
  At, At-start, IsEdit, edit_at, cell_updates-IsEdit, top_updates-IsEdit,
}
use letarette.Spellfix.Edit3.Carries.{
  Carries, Carries-first, Carries-before, Carries-after, Carries-change,
}
use letarette.Spellfix.Edit3.Aligned.{Aligned, Aligned-last, Aligned-next}
use letarette.Spellfix.Edit3.Settled.{
  plain, Above-mono, Best, Best-before, Best-after, rows_updates-Above,
}
use letarette.Spellfix.Edit3.Rows.{cell_of, row_updates_found}
use letarette.Spellfix.Edit3.Least.{rows, body, rows_updates_found, rows_updates-delete}
use letarette.Spellfix.Edit3.Inequalities.{match_from_to_found, top_updates-delete}

Aligned-le : (z : List ℕ) (skip p : ℕ) → skip ≤ length z → Aligned z skip p → p ≤ length z
Aligned-le z skip zero h a = omega arith
Aligned-le [] skip (suc p) h a = elim a [ ]
Aligned-le (c ∷ z) (suc skip) (suc p) h a =
    let l = Aligned-le z skip p (omega arith) a in omega arith
Aligned-le (c ∷ z) zero (suc p) h a =
    let (b, k) = utf8_len_bounds c (length (c ∷ z)) (omega arith) in
    let l = Aligned-le z (char_len (c ∷ z) - 1) p (omega arith) a in omega arith

drop_some : (z : List ℕ) (p : ℕ) → 0 < length (drop p z) → p < length z
drop_some z zero h = h
drop_some [] (suc p) h = absurd (omega arith)
drop_some (c ∷ z) (suc p) h = let l = drop_some z p h in omega arith

drop-NonZero : (z : List ℕ) (p : ℕ) → NonZero z → NonZero (drop p z)
drop-NonZero z zero h = h
drop-NonZero [] (suc p) h = tt
drop-NonZero (c ∷ z) (suc p) (l, h) = drop-NonZero z p h

drop-length : (z : List ℕ) (p : ℕ) → p ≤ length z → p + length (drop p z) ≡ length z
drop-length z zero h = omega arith
drop-length [] (suc p) h = absurd (omega arith)
drop-length (c ∷ z) (suc p) h = let e = drop-length z p (omega arith) in omega arith

from_zero : (p : ℕ) → 0 + p ≡ p
from_zero p = omega arith

drop-At : (z : List ℕ) (p : ℕ) → p ≤ length z → At z p (drop p z)
drop-At z p h = (drop-length z p h, refl)

module _ (lang : Lang) (w1 w2 : List ℕ) (loaded : IsLoaded (plain lang)) (is_prefix : Bool)
    (nz1 : NonZero w1) (nz2 : NonZero w2) where
  abbrev pub all : List Update
  all =
      top_updates (plain lang) 0 0 (from_chars (plain lang) w1)
      ++ rows lang w1 w2 loaded 0 0 is_prefix w2

  -- The end of the edit is no more than its start and its cost.
  abbrev pub Less : ℕ → ℕ → ℕ → ℕ → ℕ → Type 0
  Less i j i' j' k =
      Best (plain lang) w1 w2 loaded all ((length w1 + 1) * j + i) ((length w1 + 1) * j' + i') k

  -- What is carried by the updates for a character of TO.
  Less-body :
      (i j i' j' k : ℕ)
      → Aligned w2 0 j
      → 0 < length (drop j w2)
      → i ≤ length w1
      → Carries
          (plain lang)
          w1
          w2
          loaded
          (body lang w1 w2 loaded j (drop j w2))
          ((length w1 + 1) * j + i)
          ((length w1 + 1) * j' + i')
          k
      → Less i j i' j' k
  Less-body i j i' j' k a some2 h carries =
      Best-before (plain lang) w1 w2 loaded
        (top_updates (plain lang) 0 0 (from_chars (plain lang) w1)) _ _ _ k
        (top_updates-IsEdit (plain lang) w1 w2 w1 0 0 nz1 (At-start w1))
        (rows_updates_found lang w1 w2 loaded w2 0 0 j _ _ k is_prefix nz1 nz2 (At-start w2) a
          (drop_some w2 j some2)
          (let e = ap (λ n. (length w1 + 1) * n) (from_zero j) in omega arith)
          (subst
            (λ n.
              Carries (plain lang) w1 w2 loaded (body lang w1 w2 loaded n (drop j w2))
                ((length w1 + 1) * j + i) ((length w1 + 1) * j' + i') k)
            (sym (from_zero j)) carries))

  insert-IsEdit :
      (j : ℕ)
      → 0 < length (drop j w2)
      → IsEdit (plain lang) w1 w2 (record {
        cell = (length w1 + 1) * (j + char_len (drop j w2));
        source = (length w1 + 1) * j;
        cost = lang.i_ins_cost;
      })
  insert-IsEdit j some2 =
      edit_at 0 j 0 (char_len (drop j w2)) w1 (drop j w2) (At-start w1)
        (drop-At w2 j (let l = drop_some w2 j some2 in omega arith)) (omega arith) (omega arith)
        (insert some2 refl refl refl)

  -- What is carried by the updates for a character of FROM and one of TO.
  Less-cell :
      (p i j i' j' k : ℕ)
      → Aligned w1 0 p
      → 0 < length (drop p w1)
      → Aligned w2 0 j
      → 0 < length (drop j w2)
      → i ≤ length w1
      → Carries
          (plain lang)
          w1
          w2
          loaded
          (cell_of lang w1 w2 loaded
            ((length w1 + 1) * (j + char_len (drop j w2)))
            ((length w1 + 1) * j)
            p
            (drop p w1)
            (drop j w2))
          ((length w1 + 1) * j + i)
          ((length w1 + 1) * j' + i')
          k
      → Less i j i' j' k
  Less-cell p i j i' j' k a1 some1 a2 some2 h carries =
      let (low, high) = utf8_len_bounds (head (drop j w2)) (length (drop j w2)) some2 in
      let left = drop-At w2 j (let l = drop_some w2 j some2 in omega arith) in
      Less-body i j i' j' k a2 some2 h (
        Carries-before (plain lang) w1 w2 loaded
          (record {
            cell = (length w1 + 1) * (j + char_len (drop j w2));
            source = (length w1 + 1) * j;
            cost = lang.i_ins_cost;
          }
            ∷ [])
          _ _ _ k (insert-IsEdit j some2, tt)
          (row_updates_found lang w1 w2 loaded w1 (drop j w2) 0 j 0 p _ _ _ k nz1
            (drop-NonZero w2 j nz2) some2 (At-start w1) left refl a1 (drop_some w1 p some1)
            (subst
              (λ n.
                Carries (plain lang) w1 w2 loaded
                  (cell_of lang w1 w2 loaded ((length w1 + 1) * (j + char_len (drop j w2)))
                    ((length w1 + 1) * j) n (drop p w1) (drop j w2))
                  ((length w1 + 1) * j + i) ((length w1 + 1) * j' + i') k)
              (sym (from_zero p)) carries)))

  -- The updates of a cell in their parts.
  abbrev first_two : ℕ → ℕ → ℕ → List ℕ → List Update
  first_two rx rxp p z1 =
      record { cell = rx + p + char_len z1; source = rx + p; cost = lang.i_del_cost }
      ∷ record {
        cell = rx + p + char_len z1;
        source = rxp + p + char_len z1;
        cost = lang.i_ins_cost;
      }
      ∷ []

  abbrev kept_if : Bool → ℕ → ℕ → ℕ → List ℕ → List Update
  kept_if test rx rxp p z1 =
      if test then record { cell = rx + p + char_len z1; source = rxp + p; cost = 0 } ∷ [] else []

  abbrev kept_part : ℕ → ℕ → ℕ → List ℕ → List ℕ → List Update
  kept_part rx rxp p z1 z2 = kept_if (match_from_to (char_len z1) z1 z2) rx rxp p z1

  cell_edits :
      (p j : ℕ)
      → 0 < length (drop p w1)
      → 0 < length (drop j w2)
      → All (IsEdit (plain lang) w1 w2) (
          cell_of lang w1 w2 loaded
            ((length w1 + 1) * (j + char_len (drop j w2)))
            ((length w1 + 1) * j)
            p
            (drop p w1)
            (drop j w2))
  cell_edits p j some1 some2 =
      cell_updates-IsEdit (plain lang) w1 w2 p j (drop p w1) (drop j w2) _ (drop-NonZero w1 p nz1)
        (drop-NonZero w2 j nz2) some1 some2
        (drop-At w1 p (let l = drop_some w1 p some1 in omega arith))
        (drop-At w2 j (let l = drop_some w2 j some2 in omega arith)) refl

  Less-insert :
      (i j : ℕ)
      → Aligned w1 0 i
      → Aligned w2 0 j
      → 0 < length (drop j w2)
      → Less i j i (j + char_len (drop j w2)) lang.i_ins_cost
  unfolding cell_updates from_char
  Less-insert i j a1 a2 some2 = elim (Bool-cases (i == 0)) [
    | inl left ↦
        let e : i ≡ 0 = ground arith in
        Less-body i j i (j + char_len (drop j w2)) lang.i_ins_cost a2 some2 (omega arith) (
          Carries-change (plain lang) w1 w2 loaded _ _ _ _
            (Carries-first (plain lang) w1 w2 loaded _ _ (insert-IsEdit j some2)) (omega arith)
            (omega arith) (omega arith))
    | inr right ↦
        let (p, a, l, e) = Aligned-last w1 0 i a1 (ground arith) in
        let z1 = drop p w1 in
        let z2 = drop j w2 in
        let some1 : 0 < length z1 = (let d = drop-length w1 p (omega arith) in omega arith) in
        let rx = (length w1 + 1) * (j + char_len z2) in
        let edits = cell_edits p j some1 some2 in
        Less-cell p i j i (j + char_len z2) lang.i_ins_cost a some1 a2 some2
          (Aligned-le w1 0 i (omega arith) a1)
          (Carries-change (plain lang) w1 w2 loaded _ _ _ _
            (Carries-before (plain lang) w1 w2 loaded
              (record { cell = rx + p + char_len z1; source = rx + p; cost = lang.i_del_cost } ∷ [])
              _ _ _ _ (edits.0, tt) (Carries-first (plain lang) w1 w2 loaded _ _ edits.1.0))
            (omega arith) (omega arith) (omega arith))
  ]

  Less-substitute :
      (i j : ℕ)
      → Aligned w1 0 i
      → Aligned w2 0 j
      → 0 < length (drop i w1)
      → 0 < length (drop j w2)
      → Less i j (i + char_len (drop i w1)) (j + char_len (drop j w2)) lang.i_sub_cost
  unfolding cell_updates from_char
  Less-substitute i j a1 a2 some1 some2 =
      let z1 = drop i w1 in
      let z2 = drop j w2 in
      let edits = cell_edits i j some1 some2 in
      let (kept, last) =
        All-split (IsEdit (plain lang) w1 w2)
          (kept_part ((length w1 + 1) * (j + char_len z2)) ((length w1 + 1) * j) i z1 z2) _
          edits.1.1 in
      Less-cell i i j _ _ lang.i_sub_cost a1 some1 a2 some2 (Aligned-le w1 0 i (omega arith) a1) (
        Carries-change (plain lang) w1 w2 loaded _ _ _ _
          (Carries-before (plain lang) w1 w2 loaded
            (first_two ((length w1 + 1) * (j + char_len z2)) ((length w1 + 1) * j) i z1) _ _ _ _
            (edits.0, (edits.1.0, tt))
            (Carries-before (plain lang) w1 w2 loaded
              (kept_part ((length w1 + 1) * (j + char_len z2)) ((length w1 + 1) * j) i z1 z2) _ _ _
              _ kept (Carries-first (plain lang) w1 w2 loaded _ _ last.0)))
          refl (omega arith) (omega arith))

  Less-keep :
      (i j : ℕ)
      → Aligned w1 0 i
      → Aligned w2 0 j
      → 0 < length (drop i w1)
      → 0 < length (drop j w2)
      → Begins (take (char_len (drop i w1)) (drop i w1)) (drop j w2)
      → Less i j (i + char_len (drop i w1)) (j + char_len (drop j w2)) 0
  unfolding cell_updates from_char
  Less-keep i j a1 a2 some1 some2 begins =
      let z1 = drop i w1 in
      let z2 = drop j w2 in
      let rx = (length w1 + 1) * (j + char_len z2) in
      let rxp = (length w1 + 1) * j in
      let (b, l) = utf8_len_bounds (head z1) (length z1) some1 in
      let edits = cell_edits i j some1 some2 in
      let found = match_from_to_found (char_len z1) z1 z2 b l (drop-NonZero w2 j nz2) begins in
      let (kept, last) =
        All-split (IsEdit (plain lang) w1 w2) (kept_part rx rxp i z1 z2) _ edits.1.1 in
      let kept' = subst (λ t. All (IsEdit (plain lang) w1 w2) (kept_if t rx rxp i z1)) found kept in
      Less-cell i i j _ _ 0 a1 some1 a2 some2 (Aligned-le w1 0 i (omega arith) a1) (
        Carries-change (plain lang) w1 w2 loaded _ _ _ _
          (Carries-before (plain lang) w1 w2 loaded (first_two rx rxp i z1) _ _ _ _
            (edits.0, (edits.1.0, tt))
            (Carries-after (plain lang) w1 w2 loaded (kept_part rx rxp i z1 z2) _ _ _ _ (
              subst
                (λ t.
                  Carries (plain lang) w1 w2 loaded (kept_if t rx rxp i z1) (rxp + i)
                    (rx + i + char_len z1) 0)
                (sym found) (Carries-first (plain lang) w1 w2 loaded _ _ kept'.0))))
          refl (omega arith) (omega arith))

  Best-change :
      (us : List Update) (k c d c' d' : ℕ)
      → Best (plain lang) w1 w2 loaded us c d k
      → c ≡ c'
      → d ≡ d'
      → Best (plain lang) w1 w2 loaded us c' d' k
  Best-change us k c d c' d' h e f m r =
      subst (λ x. get_or (update_all m us) x 0 ≤ get_or (update_all m us) c' 0 + k) f
        (subst (λ x. get_or (update_all m us) d 0 ≤ get_or (update_all m us) x 0 + k) e (h m r))

  add_none : (n : ℕ) → n + 0 ≡ n
  add_none n = omega arith

  abbrev Ends : ℕ → ℕ → ℕ → ℕ → ℕ → Type 0
  Ends i j a b k = Aligned w1 0 (i + a) × Aligned w2 0 (j + b) × Less i j (i + a) (j + b) k

  ends : (i j a b k a' b' k' : ℕ) → a ≡ a' → b ≡ b' → k ≡ k' → Ends i j a' b' k' → Ends i j a b k
  ends i j a b k a' b' k' e f g h =
      subst (λ x. Ends i j x b k) (sym e)
        (subst (λ x. Ends i j a' x k) (sym f) (subst (λ x. Ends i j a' b' x) (sym g) h))

  Less-delete :
      (i j : ℕ)
      → Aligned w1 0 i
      → Aligned w2 0 j
      → 0 < length (drop i w1)
      → Less i j (i + char_len (drop i w1)) j lang.i_del_cost
  Less-delete i j a1 a2 some1 = elim (Bool-cases (j == 0)) [
    | inl top ↦
        let e : j ≡ 0 = ground arith in
        let f = ap (λ n. (length w1 + 1) * n) e in
        let l = drop_some w1 i some1 in
        let updates = top_updates (plain lang) 0 0 (from_chars (plain lang) w1) in
        Best-change _ _ _ _ _ _
          (Best-after (plain lang) w1 w2 loaded updates _ _ _ _
            (top_updates-delete lang w1 w2 loaded w1 0 0 i nz1 (At-start w1) a1 l (omega arith))
            (Above-mono ((length w1 + 1) * (0 + 0) + length w1) (0 + i) _ (omega arith)
              (rows_updates-Above lang w1 w2 loaded w2 0 0 is_prefix (omega arith))))
          (omega arith) (omega arith)
    | inr below ↦
        let (q, b, l, e) = Aligned-last w2 0 j a2 (ground arith) in
        let f = ap (λ n. (length w1 + 1) * n) e in
        let g = ap (λ n. (length w1 + 1) * (n + char_len (drop q w2))) (from_zero q) in
        Best-change _ _ _ _ _ _
          (Best-before (plain lang) w1 w2 loaded
            (top_updates (plain lang) 0 0 (from_chars (plain lang) w1)) _ _ _ _
            (top_updates-IsEdit (plain lang) w1 w2 w1 0 0 nz1 (At-start w1))
            (rows_updates-delete lang w1 w2 loaded w2 0 0 q i is_prefix nz1 nz2 (At-start w2) b l a1
              (drop_some w1 i some1)))
          (omega arith) (omega arith)
  ]

  -- An edit between characters ends between characters, and its inequality holds.
  pub Edit-Less :
      (i j a b k : ℕ)
      → Aligned w1 0 i
      → Aligned w2 0 j
      → Edit (plain lang) (drop i w1) (drop j w2) a b k
      → Aligned w1 0 (i + a) × Aligned w2 0 (j + b) × Less i j (i + a) (j + b) k
  Edit-Less i j a b k a1 a2 (delete s1 e f g) =
      ends i j a b k (char_len (drop i w1)) 0 lang.i_del_cost e f g (
        Aligned-next w1 0 i a1 (drop_some w1 i s1),
        subst (Aligned w2 0) (sym (add_none j)) a2,
        subst (λ n. Less i j (i + char_len (drop i w1)) n lang.i_del_cost) (sym (add_none j))
            (Less-delete i j a1 a2 s1),
      )
  Edit-Less i j a b k a1 a2 (insert s2 e f g) =
      ends i j a b k 0 (char_len (drop j w2)) lang.i_ins_cost e f g (
        subst (Aligned w1 0) (sym (add_none i)) a1,
        Aligned-next w2 0 j a2 (drop_some w2 j s2),
        subst (λ n. Less i j n (j + char_len (drop j w2)) lang.i_ins_cost) (sym (add_none i))
            (Less-insert i j a1 a2 s2),
      )
  Edit-Less i j a b k a1 a2 (substitute s1 s2 e f g) = ends i j a b k _ _ _ e f g (
    Aligned-next w1 0 i a1 (drop_some w1 i s1),
    Aligned-next w2 0 j a2 (drop_some w2 j s2),
    Less-substitute i j a1 a2 s1 s2,
  )
  Edit-Less i j a b k a1 a2 (keep s1 s2 e f begins g) = ends i j a b k _ _ _ e f g (
    Aligned-next w1 0 i a1 (drop_some w1 i s1),
    Aligned-next w2 0 j a2 (drop_some w2 j s2),
    Less-keep i j a1 a2 s1 s2 (subst (λ n. Begins (take n (drop i w1)) (drop j w2)) e begins),
  )
  Edit-Less i j a b k a1 a2 (configured p among from to e f g) = elim among [ ]
