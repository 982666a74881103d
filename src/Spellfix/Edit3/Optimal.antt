-- ===== src/Spellfix/Edit3/Optimal.antt =====
-- The rows that editDist3Core reads in the end, for a language without configured costs.
use letarette.Base.{
  ℕ, zero, suc, ◌+◌, ◌-◌, ◌*◌, ◌≤◌, ◌<◌, ◌≡◌, sym, ap, ◌⊎◌, inl, inr, Bool, true, false, some, List,
  ◌++◌, arith, leb, ◌==◌, ==_iff, Bool-cases, length, get_or, take, pos,
}
use mathlib.Core.Path.{subst}
use letarette.Spellfix.Config.{Lang}
use letarette.Spellfix.Config.Load.{IsLoaded}
use letarette.Spellfix.Edit3.{
  FromString, best_row, from_string_new, edit_dist3_core, without_star, is_prefix_pattern,
  count_chars, fill_matrix, fresh_cells, set_at, from_chars, to_chars, update_all, top_updates,
  rows_updates, all_updates,
}
use letarette.Spellfix.Edit3.Script.{Script, start, step}
use letarette.Spellfix.Edit3.Matches.{NonZero}
use letarette.Spellfix.Edit3.Updates.{from_string, length-from_chars}
use letarette.Spellfix.Edit3.Reached.{
  IsReached, fresh-IsReached, get_or-set_at, in_matrix, length-fresh_cells,
}
use letarette.Spellfix.Edit3.Carries.{update_all_le}
use letarette.Spellfix.Edit3.Aligned.{Aligned}
use letarette.Spellfix.Edit3.Settled.{plain}
use letarette.Spellfix.Edit3.Minimum.{all, Edit-Less}
use letarette.Spellfix.Edit3.Distance.{
  row_end, row_end_before, read_rows, core-IsDistance, without_star-NonZero, from_string_new_lem,
  IsDistance,
}

-- The updates with the length of the row written out.
all_updates-all :
    (lang : Lang) (w1 w2 : List ℕ) (loaded : IsLoaded (plain lang)) (is_prefix : Bool)
    (nz1 : NonZero w1) (nz2 : NonZero w2)
    → all_updates (plain lang) (from_string (plain lang) w1 is_prefix) (to_chars (plain lang) w2) w2
      ≡ all lang w1 w2 loaded is_prefix nz1 nz2
unfolding all_updates
all_updates-all lang w1 w2 loaded is_prefix nz1 nz2 =
    ap
      (λ n.
        top_updates (plain lang) 0 0 (from_chars (plain lang) w1)
        ++ rows_updates (plain lang) (n + 1) (from_string (plain lang) w1 is_prefix) 0 0
            (to_chars (plain lang) w2) w2)
      (length-from_chars (plain lang) w1)

first_cell : (n i j : ℕ) → i ≡ 0 → j ≡ 0 → (n + 1) * j + i ≡ 0
first_cell n i j e f = let g = ap (λ k. (n + 1) * k) f in omega arith

module _ (lang : Lang) (w1 w2 : List ℕ) (loaded : IsLoaded (plain lang)) (is_prefix : Bool)
    (nz1 : NonZero w1) (nz2 : NonZero w2) (m : List ℕ) (reached : IsReached (plain lang) w1 w2 m)
    (first : get_or m 0 0 ≡ 0) where
  -- A script leads from character to character, and its cell holds no more than its cost.
  script_le :
      (i j cost : ℕ)
      → Script (plain lang) w1 w2 i j cost
      → Aligned w1 0 i
        × Aligned w2 0 j
        × (get_or
              (update_all m (all lang w1 w2 loaded is_prefix nz1 nz2))
              ((length w1 + 1) * j + i)
              0
            ≤ cost)
  script_le i j cost (start e f g) =
      let h = update_all_le m (all lang w1 w2 loaded is_prefix nz1 nz2) 0 in
      let at : (length w1 + 1) * j + i ≡ 0 = first_cell (length w1) i j e f in
      (
        subst (Aligned w1 0) (sym e) tt,
        subst (Aligned w2 0) (sym f) tt,
        subst (λ c. get_or (update_all m (all lang w1 w2 loaded is_prefix nz1 nz2)) c 0 ≤ cost)
            (sym at) (omega arith),
      )
  script_le i j cost (step i' j' c a b k script edit e f g) =
      let (a1, a2, le) = script_le i' j' c script in
      let (b1, b2, less) = Edit-Less lang w1 w2 loaded is_prefix nz1 nz2 i' j' a b k a1 a2 edit in
      let last = less m reached in
      (
        subst (Aligned w1 0) (sym e) b1,
        subst (Aligned w2 0) (sym f) b2,
        subst
            (λ x.
              get_or (update_all m (all lang w1 w2 loaded is_prefix nz1 nz2))
                ((length w1 + 1) * j + x) 0
              ≤ cost)
            (sym e)
            (subst
              (λ x.
                get_or (update_all m (all lang w1 w2 loaded is_prefix nz1 nz2))
                  ((length w1 + 1) * x + (i' + a)) 0
                ≤ cost)
              (sym f) (omega arith)),
      )

-- The last cell of a row is no more than any script that ends there.
pub fill_matrix-le :
    (lang : Lang) (w1 w2 : List ℕ) (is_prefix : Bool) (n cost : ℕ)
    → IsLoaded (plain lang)
    → NonZero w1
    → NonZero w2
    → Script (plain lang) w1 w2 (length w1) n cost
    → get_or
        (fill_matrix (plain lang) (from_string (plain lang) w1 is_prefix) w2)
        ((length w1 + 1) * n + length w1)
        0
      ≤ cost
unfolding fill_matrix
fill_matrix-le lang w1 w2 is_prefix n cost loaded nz1 nz2 script =
    let size = (length w2 + 1) * (length (from_chars (plain lang) w1) + 1) in
    let e : size ≡ (length w2 + 1) * (length w1 + 1) =
      ap (λ n. (length w2 + 1) * (n + 1)) (length-from_chars (plain lang) w1) in
    let inside = in_matrix (length w1) (length w2) 0 0 (omega arith) (omega arith) in
    let low : 0 < length (fresh_cells size) =
      subst (λ n. 0 < n) (sym (length-fresh_cells size)) (omega arith) in
    let first = get_or-set_at (fresh_cells size) 0 0 0 low in
    let m = set_at (fresh_cells size) 0 0 in
    subst (λ us. get_or (update_all m us) ((length w1 + 1) * n + length w1) 0 ≤ cost)
      (sym (all_updates-all lang w1 w2 loaded is_prefix nz1 nz2))
      (script_le lang w1 w2 loaded is_prefix nz1 nz2 m (fresh-IsReached (plain lang) w1 w2 size e)
        first (length w1) n cost script).2

-- The loop over the rows ends with no more than it starts with, and than the rows that it walks over.
best_row_le :
    (m : List ℕ) (n1 rounds i res n k : ℕ)
    → ((best_row m (n1 + 1) rounds (i + 1) res n).0 ≤ res)
      × ((i ≤ k) × (k < i + rounds) → (best_row m (n1 + 1) rounds (i + 1) res n).0 ≤ row_end m n1 k)
unfolding best_row
best_row_le m n1 zero i res n k = (omega arith, λ h. absurd (omega (arith, h.0, h.1)))
best_row_le m n1 (suc rounds) i res n k =
    let b = get_or m ((n1 + 1) * (i + 1) - 1) 0 in
    let before : b ≡ row_end m n1 i = ap (λ c. get_or m c 0) (row_end_before n1 i) in
    elim (Bool-cases (leb b res)) [
      | inl better ↦
          let less : b ≤ res = ground arith in
          let (initial, later) = best_row_le m n1 rounds (i + 1) b (i + 1 - 1) k in
          rw (better, best_row)
            (
              omega arith,
              λ h. elim (Bool-cases (i == k)) [
                | inl here ↦
                    subst
                      (λ x.
                        (best_row m (n1 + 1) rounds (i + 1 + 1) b (i + 1 - 1)).0 ≤ row_end m n1 x)
                      ((==_iff i k).0 here) (omega (arith, initial, before))
                | inr there ↦ later (ground arith, ground arith)
              ],
            )
      | inr worse ↦
          let more : res ≤ b = ground arith in
          let (initial, later) = best_row_le m n1 rounds (i + 1) res n k in
          rw (worse, best_row)
            (
              initial,
              λ h. elim (Bool-cases (i == k)) [
                | inl here ↦
                    subst (λ x. (best_row m (n1 + 1) rounds (i + 1 + 1) res n).0 ≤ row_end m n1 x)
                      ((==_iff i k).0 here) (omega (arith, initial, before, more))
                | inr there ↦ later (ground arith, ground arith)
              ],
            )
    ]

read_rows_le :
    (is_prefix : Bool) (n1 n2 k : ℕ) (m : List ℕ)
    → k ≤ n2
    → (k ≡ n2) ⊎ (is_prefix ≡ true)
    → (read_rows is_prefix n1 n2 m).0 ≤ row_end m n1 k
read_rows_le false n1 n2 k m h (inr e) = cc
read_rows_le false n1 n2 k m h (inl e) =
    let last : get_or m ((n1 + 1) * (n2 + 1) - 1) 0 ≡ row_end m n1 n2 =
      ap (λ c. get_or m c 0) (row_end_before n1 n2) in
    subst (λ x. get_or m ((n1 + 1) * (n2 + 1) - 1) 0 ≤ row_end m n1 x) (sym e) (omega arith)
read_rows_le true n1 n2 k m h whole =
    let first = get_or m ((n1 + 1) * (n2 + 1) - 1) 0 in
    let last : first ≡ row_end m n1 n2 = ap (λ c. get_or m c 0) (row_end_before n1 n2) in
    let (initial, rows) = best_row_le m n1 n2 0 first n2 k in
    elim (Bool-cases (k == n2)) [
      | inl same ↦
          subst (λ x. (best_row m (n1 + 1) n2 1 first n2).0 ≤ row_end m n1 x)
            (sym ((==_iff k n2).0 same)) (omega arith)
      | inr other ↦ rows (omega arith, ground arith)
    ]

-- For a language without configured costs, the distance of editDist3Core is the least cost of an
-- edit script: it is no more than the cost of any script that turns the FROM string into the whole of
-- TO, or into any part at its beginning where FROM ends in '*', and it is itself the cost of such a
-- script, or 0x01010101. The default costs are less than 10000, there is memory, and neither string
-- has a NUL.
pub edit_dist3_core-IsLeast :
    (lang : Lang) (z z2 : List ℕ) (k cost : ℕ)
    → IsLoaded (plain lang)
    → NonZero z
    → NonZero z2
    → k ≤ length z2
    → (k ≡ length z2) ⊎ (is_prefix_pattern z ≡ true)
    → Script (plain lang) (without_star z) z2 (length (without_star z)) k cost
    → (f : FromString) × (d : ℕ) × (n : ℕ) × (from_string_new true true (plain lang) (some z)
        ≡ some f)
      × (edit_dist3_core true true (plain lang) f z2 ≡ (pos d, count_chars (take n z2)))
      × (d ≤ cost)
      × ((n ≡ length z2) ⊎ (is_prefix_pattern z ≡ true))
      × IsDistance (plain lang) (without_star z) z2 n d
edit_dist3_core-IsLeast lang z z2 k cost loaded nz nz2 h whole script =
    let w = without_star z in
    let p = is_prefix_pattern z in
    let (d, n, e, all_read, read, distance) =
      core-IsDistance (plain lang) w z2 p loaded (without_star-NonZero z nz) nz2 in
    let row = fill_matrix-le lang w z2 p k cost loaded (without_star-NonZero z nz) nz2 script in
    let least =
      read_rows_le p (length w) (length z2) k
        (fill_matrix (plain lang) (from_string (plain lang) w p) z2) h whole in
    (
      from_string (plain lang) w p,
      d,
      n,
      from_string_new_lem (plain lang) z,
      e,
      omega arith,
      all_read,
      distance,
    )
