-- ===== src/Spellfix/Edit3/Updates.antt =====
-- Every update of the matrix that editDist3Core makes is an edit, and stays inside the matrix.
use letarette.Base.{
  ℕ, zero, suc, ◌+◌, ◌-◌, ◌*◌, ◌≤◌, ◌<◌, ◌≡◌, refl, sym, ap, ◌∙◌, Bool, true, false, List, [], ◌∷◌,
  arith, length, drop, All,
}
use native.Mathlib.Nat.{mul-add}
use mathlib.Core.Path.{subst}
use letarette.Spellfix.Config.{Cost, Lang}
use letarette.Spellfix.Edit3.{
  head, match_to, match_from_to, FromString, from_char, from_chars, ins_costs, to_chars, Update,
  del_updates, top_updates, ins_updates, subst_updates, cell_updates, row_updates, rows_updates,
  all_updates,
}
use letarette.Spellfix.Edit3.Script.{char_len, Edit, delete, insert, substitute, keep, configured}
use letarette.Spellfix.Edit3.Matches.{
  All-append, All-if, NonZero, utf8_len_bounds, match_to-Begins, match_from_to-Begins, Fits,
  FitsIns, from_costs-Fits, ins_costs-FitsIns, empty-Begins,
}

add_zero : (i : ℕ) → i + 0 ≡ i
add_zero i = omega arith

add_suc : (i n : ℕ) → i + suc n ≡ suc i + n
add_suc i n = omega arith

pub length-from_chars : (lang : Lang) (z : List ℕ) → length (from_chars lang z) ≡ length z
unfolding from_chars
length-from_chars lang [] = refl
length-from_chars lang (c ∷ z) = ap suc (length-from_chars lang z)

-- The FROM string that editDist3FromStringNew makes, whose last character is not '*' any more.
abbrev pub from_string : Lang → List ℕ → Bool → FromString
from_string lang w1 is_prefix = record { z = w1; is_prefix = is_prefix; chars = from_chars lang w1 }

-- `z` is what is left of `w` behind its first `i` bytes.
abbrev pub At : List ℕ → ℕ → List ℕ → Type 0
At w i z = (i + length z ≡ length w) × (drop i w ≡ z)

drop-suc : (i : ℕ) (w : List ℕ) → drop (suc i) w ≡ drop 1 (drop i w)
drop-suc zero w = refl
drop-suc (suc i) [] = refl
drop-suc (suc i) (c ∷ w) = drop-suc i w

pub At-next : (w : List ℕ) (i c : ℕ) (z : List ℕ) → At w i (c ∷ z) → At w (suc i) z
At-next w i c z (h, e) = (omega arith, drop-suc i w ∙ ap (drop 1) e)

At-skip : (w : List ℕ) (n i : ℕ) (z : List ℕ) → n ≤ length z → At w i z → At w (i + n) (drop n z)
At-skip w zero i z h (l, e) = (omega arith, ap (λ k. drop k w) (add_zero i) ∙ e)
At-skip w (suc n) i [] h k = absurd (omega arith)
At-skip w (suc n) i (c ∷ z) h k =
    let (l, e) = At-skip w n (suc i) z (omega arith) (At-next w i c z k) in
    (omega arith, ap (λ k. drop k w) (add_suc i n) ∙ e)

-- The update of the cell (i + a, j + b) from the cell (i, j) is an edit of what is left there.
pub data IsEdit (lang : Lang) (w1 w2 : List ℕ) (u : Update) : Type 0 where
  edit_at :
      (i j a b : ℕ) (z1 z2 : List ℕ)
      → At w1 i z1
      → At w2 j z2
      → u.source ≡ (length w1 + 1) * j + i
      → u.cell ≡ (length w1 + 1) * (j + b) + (i + a)
      → Edit lang z1 z2 a b u.cost
      → IsEdit lang w1 w2 u

-- The arithmetic of a cell that lies `a` to the right and `b` below.
cell_right : (s j i a at : ℕ) → at ≡ s * j + i → at + a ≡ s * (j + 0) + (i + a)
cell_right s j i a at e = omega arith

cell_below : (s j i a b at : ℕ) → at ≡ s * j + i → at + a + s * b ≡ s * (j + b) + (i + a)
cell_below s j i a b at e = let d = mul-add s j b in omega arith

cell_column : (s j b : ℕ) → s * (j + b) ≡ s * (j + b) + (0 + 0)
cell_column s j b = omega arith

pub At-start : (w : List ℕ) → At w 0 w
At-start w = (omega arith, refl)

module _ (lang : Lang) (w1 w2 : List ℕ) where
  pub del_updates-IsEdit :
      (i j : ℕ) (z1 z2 : List ℕ) (costs : List Cost) (at : ℕ)
      → At w1 i z1
      → At w2 j z2
      → at ≡ (length w1 + 1) * j + i
      → All (Fits lang false z1) costs
      → All (IsEdit lang w1 w2) (del_updates costs at)
  unfolding del_updates
  del_updates-IsEdit i j z1 z2 [] at h k e fits = tt
  del_updates-IsEdit i j z1 z2 (p ∷ costs) at h k e ((among, from, no_to), fits) = (
    edit_at i j (length p.from) 0 z1 z2 h k e (cell_right _ j i _ at e)
        (configured p among from (empty-Begins p.to z2 (ground arith)) refl (ground arith) refl),
    del_updates-IsEdit i j z1 z2 costs at h k e fits,
  )

  pub ins_updates-IsEdit :
      (j : ℕ) (z2 : List ℕ) (costs : List Cost)
      → At w2 j z2
      → All (FitsIns lang z2) costs
      → All (IsEdit lang w1 w2) (ins_updates (length w1 + 1) j costs)
  unfolding ins_updates
  ins_updates-IsEdit j z2 [] k fits = tt
  ins_updates-IsEdit j z2 (p ∷ costs) k ((among, no_from, to), fits) = (
    edit_at 0 j 0 (length p.to) w1 z2 (At-start w1) k (omega arith) (cell_column _ j (length p.to))
        (configured p among (empty-Begins p.from w1 no_from) to (sym no_from) refl refl),
    ins_updates-IsEdit j z2 costs k fits,
  )

  subst_updates-IsEdit :
      (i j : ℕ) (z1 z2 : List ℕ) (costs : List Cost) (at : ℕ)
      → NonZero z2
      → At w1 i z1
      → At w2 j z2
      → at ≡ (length w1 + 1) * j + i
      → All (Fits lang true z1) costs
      → All (IsEdit lang w1 w2) (subst_updates (length w1 + 1) at z2 costs)
  unfolding subst_updates
  subst_updates-IsEdit i j z1 z2 [] at nz h k e fits = tt
  subst_updates-IsEdit i j z1 z2 (p ∷ costs) at nz h k e ((among, from, to), fits) =
      let rest = subst_updates-IsEdit i j z1 z2 costs at nz h k e fits in
      All-if (IsEdit lang w1 w2) (match_to p z2) _ _
        (λ m. (
          edit_at i j (length p.from) (length p.to) z1 z2 h k e (cell_below _ j i _ _ at e)
              (configured p among from (match_to-Begins p z2 nz m) refl refl refl),
          rest,
        ))
        (λ m. rest)

  -- The cell at the ends of both characters.
  pub cell_updates-IsEdit :
      (i j : ℕ) (z1 z2 : List ℕ) (rx : ℕ)
      → NonZero z1
      → NonZero z2
      → 0 < length z1
      → 0 < length z2
      → At w1 i z1
      → At w2 j z2
      → rx ≡ (length w1 + 1) * (j + char_len z2)
      → All
          (IsEdit lang w1 w2)
          (cell_updates lang (length w1 + 1) rx ((length w1 + 1) * j) i (from_char lang z1) z1 z2)
  unfolding cell_updates from_char
  cell_updates-IsEdit i j z1 z2 rx nz1 nz2 some1 some2 h k e =
      let (b1, l1) = utf8_len_bounds (head z1) (length z1) some1 in
      let (b2, l2) = utf8_len_bounds (head z2) (length z2) some2 in
      let k' = At-skip w2 (char_len z2) j z2 l2 k in
      let at_rx : rx + i ≡ (length w1 + 1) * (j + char_len z2) + i = omega arith in
      let both : rx + i + char_len z1 ≡ (length w1 + 1) * (j + char_len z2) + (i + char_len z1) =
        omega arith in
      let within = λ (cost : ℕ) (edit : Edit lang z1 z2 (char_len z1) (char_len z2) cost).
        edit_at i j (char_len z1) (char_len z2) z1 z2 h k refl both edit in
      (
        edit_at i (j + char_len z2) (char_len z1) 0 z1 (drop (char_len z2) z2) h k' at_rx
            (cell_right _ _ i _ _ at_rx) (delete some1 refl refl refl),
        All-append (IsEdit lang w1 w2) (del_updates _ (rx + i)) _
            (del_updates-IsEdit i _ z1 (drop (char_len z2) z2) _ _ h k' at_rx
              (from_costs-Fits lang false z1 lang.costs nz1 (λ p among. among)))
            (
              edit_at (i + char_len z1) j 0 (char_len z2) (drop (char_len z1) z1) z2
                  (At-skip w1 (char_len z1) i z1 l1 h) k (omega arith) (omega arith)
                  (insert some2 refl refl refl),
              All-append (IsEdit lang w1 w2) _ _
                  (All-if (IsEdit lang w1 w2) (match_from_to (char_len z1) z1 z2) _ _
                    (λ m. (
                      within 0 (
                          keep some1 some2 refl refl
                            (match_from_to-Begins (char_len z1) z1 z2 nz2 l1 m) refl),
                      tt,
                    ))
                    (λ m. tt))
                  (
                    within lang.i_sub_cost (substitute some1 some2 refl refl refl),
                    subst_updates-IsEdit i j z1 z2 _ _ nz2 h k refl
                        (from_costs-Fits lang true z1 lang.costs nz1 (λ p among. among)),
                  ),
            ),
      )

  pub row_updates-IsEdit :
      (z1 z2 : List ℕ) (i j skip rx : ℕ)
      → NonZero z1
      → NonZero z2
      → 0 < length z2
      → At w1 i z1
      → At w2 j z2
      → rx ≡ (length w1 + 1) * (j + char_len z2)
      → All (IsEdit lang w1 w2) (
          row_updates lang
            (length w1 + 1)
            rx
            ((length w1 + 1) * j)
            i
            skip
            (from_chars lang z1)
            z1
            z2)
  unfolding row_updates from_chars
  row_updates-IsEdit [] z2 i j skip rx nz1 nz2 some2 h k e = tt
  row_updates-IsEdit (c ∷ z1) z2 i j (suc skip) rx (pos_c, nz1) nz2 some2 h k e =
      row_updates-IsEdit z1 z2 (suc i) j skip rx nz1 nz2 some2 (At-next w1 i c z1 h) k e
  row_updates-IsEdit (c ∷ z1) z2 i j zero rx (pos_c, nz1) nz2 some2 h k e =
      All-append (IsEdit lang w1 w2)
        (cell_updates lang (length w1 + 1) rx ((length w1 + 1) * j) i (from_char lang (c ∷ z1))
          (c ∷ z1) z2)
        _ (cell_updates-IsEdit i j (c ∷ z1) z2 rx (pos_c, nz1) nz2 (omega arith) some2 h k e)
        (row_updates-IsEdit z1 z2 (suc i) j (char_len (c ∷ z1) - 1) rx nz1 nz2 some2
          (At-next w1 i c z1 h) k e)

  pub top_updates-IsEdit :
      (z1 : List ℕ) (i skip : ℕ)
      → NonZero z1
      → At w1 i z1
      → All (IsEdit lang w1 w2) (top_updates lang i skip (from_chars lang z1))
  unfolding top_updates from_chars from_char
  top_updates-IsEdit [] i skip nz1 h = tt
  top_updates-IsEdit (c ∷ z1) i (suc skip) (pos_c, nz1) h =
      top_updates-IsEdit z1 (suc i) skip nz1 (At-next w1 i c z1 h)
  top_updates-IsEdit (c ∷ z1) i zero (pos_c, nz1) h =
      let at_i : i ≡ (length w1 + 1) * 0 + i = omega arith in
      (
        edit_at i 0 (char_len (c ∷ z1)) 0 (c ∷ z1) w2 h (At-start w2) at_i
            (cell_right _ 0 i _ i at_i) (delete (omega arith) refl refl refl),
        All-append (IsEdit lang w1 w2) _ _
            (del_updates-IsEdit i 0 (c ∷ z1) w2 _ i h (At-start w2) at_i
              (from_costs-Fits lang false (c ∷ z1) lang.costs (pos_c, nz1) (λ p among. among)))
            (top_updates-IsEdit z1 (suc i) _ nz1 (At-next w1 i c z1 h)),
      )

  pub rows_updates-IsEdit :
      (z2 : List ℕ) (j skip : ℕ) (is_prefix : Bool)
      → NonZero w1
      → NonZero z2
      → At w2 j z2
      → All (IsEdit lang w1 w2) (
          rows_updates lang
            (length w1 + 1)
            (from_string lang w1 is_prefix)
            j
            skip
            (to_chars lang z2)
            z2)
  unfolding rows_updates to_chars
  rows_updates-IsEdit [] j skip is_prefix nz1 nz2 k = tt
  rows_updates-IsEdit (c ∷ z2) j (suc skip) is_prefix nz1 (pos_c, nz2) k =
      rows_updates-IsEdit z2 (suc j) skip is_prefix nz1 nz2 (At-next w2 j c z2 k)
  rows_updates-IsEdit (c ∷ z2) j zero is_prefix nz1 (pos_c, nz2) k = (
    edit_at 0 j 0 (char_len (c ∷ z2)) w1 (c ∷ z2) (At-start w1) k (omega arith) (cell_column _ j _)
        (insert (omega arith) refl refl refl),
    All-append (IsEdit lang w1 w2) (ins_updates (length w1 + 1) j (ins_costs (c ∷ z2) lang.costs)) _
        (ins_updates-IsEdit j (c ∷ z2) _ k
          (ins_costs-FitsIns lang (c ∷ z2) lang.costs (pos_c, nz2) (λ p among. among)))
        (All-append (IsEdit lang w1 w2)
          (row_updates lang (length w1 + 1) ((length w1 + 1) * (j + char_len (c ∷ z2)))
            ((length w1 + 1) * j) 0 0 (from_chars lang w1) w1 (c ∷ z2))
          _
          (row_updates-IsEdit w1 (c ∷ z2) 0 j 0 _ nz1 (pos_c, nz2) (omega arith) (At-start w1) k
            refl)
          (rows_updates-IsEdit z2 (suc j) (char_len (c ∷ z2) - 1) is_prefix nz1 nz2
            (At-next w2 j c z2 k))),
  )

pub all_updates-IsEdit :
    (lang : Lang) (w1 w2 : List ℕ) (is_prefix : Bool)
    → NonZero w1
    → NonZero w2
    → All
        (IsEdit lang w1 w2)
        (all_updates lang (from_string lang w1 is_prefix) (to_chars lang w2) w2)
unfolding all_updates
all_updates-IsEdit lang w1 w2 is_prefix nz1 nz2 =
    All-append (IsEdit lang w1 w2) (top_updates lang 0 0 (from_chars lang w1)) _
      (top_updates-IsEdit lang w1 w2 w1 0 0 nz1 (At-start w1))
      (subst
        (λ s.
          All (IsEdit lang w1 w2)
            (rows_updates lang s (from_string lang w1 is_prefix) 0 0 (to_chars lang w2) w2))
        (ap (λ n. n + 1) (sym (length-from_chars lang w1)))
        (rows_updates-IsEdit lang w1 w2 w2 0 0 is_prefix nz1 nz2 (At-start w2)))
