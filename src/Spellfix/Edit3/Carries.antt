-- ===== src/Spellfix/Edit3/Carries.antt =====
-- What the updates of the matrix carry from cell to cell: the last cell costs no more than to delete
-- the one string and to insert the other.
use letarette.Base.{
  ℕ, zero, suc, ◌+◌, ◌-◌, ◌*◌, ◌≤◌, ◌<◌, ◌≡◌, refl, sym, ap, inl, inr, Bool, false, List, [], ◌∷◌,
  ◌++◌, arith, ltb, ◌==◌, Bool-cases, length, get_or, All,
}
use mathlib.Core.Path.{subst}
use letarette.Spellfix.Config.{Lang}
use letarette.Spellfix.Config.Load.{IsLoaded}
use letarette.Spellfix.Edit3.{
  from_char, from_chars, Update, update_cost, update_all, set_at, unreached, fresh_cells,
  fill_matrix, to_chars, del_updates, cell_updates, row_updates, top_updates, ins_updates,
  ins_costs, rows_updates, all_updates,
}
use letarette.Spellfix.Edit3.Script.{char_len}
use letarette.Spellfix.Edit3.Matches.{NonZero, utf8_len_bounds, All-split}
use letarette.Spellfix.Edit3.Updates.{
  At, At-start, At-next, IsEdit, edit_at, length-from_chars, from_string, cell_updates-IsEdit,
  top_updates-IsEdit, rows_updates-IsEdit,
}
use letarette.Spellfix.Edit3.Reached.{
  get_or-set_at, Edit-lengths, Edit-cost, sum_fits, cost_of, in_matrix, IsReached, fresh-IsReached,
  update_all-IsReached, length-fresh_cells,
}

get_or-set_at_le :
    (m : List ℕ) (i k x : ℕ) → x ≤ get_or m i 0 → get_or (set_at m i x) k 0 ≤ get_or m k 0
get_or-set_at_le [] i k x h = omega arith
get_or-set_at_le (y ∷ m) zero zero x h = h
get_or-set_at_le (y ∷ m) zero (suc k) x h = omega arith
get_or-set_at_le (y ∷ m) (suc i) zero x h = omega arith
get_or-set_at_le (y ∷ m) (suc i) (suc k) x h = get_or-set_at_le m i k x h

update_cost_le : (m : List ℕ) (u : Update) (k : ℕ) → get_or (update_cost m u) k 0 ≤ get_or m k 0
unfolding update_cost
update_cost_le m u k = elim (Bool-cases (ltb (cost_of m u) (get_or m u.cell 0))) [
  | inr no_better ↦ rw (no_better) (omega arith)
  | inl better ↦ rw (better) (get_or-set_at_le m u.cell k (cost_of m u) (ground arith))
]

pub update_all_le :
    (m : List ℕ) (us : List Update) (k : ℕ) → get_or (update_all m us) k 0 ≤ get_or m k 0
unfolding update_all
update_all_le m [] k = omega arith
update_all_le m (u ∷ us) k =
    let first = update_cost_le m u k in
    let rest = update_all_le (update_cost m u) us k in omega arith

pub update_all-append :
    (m : List ℕ) (us vs : List Update) → update_all m (us ++ vs) ≡ update_all (update_all m us) vs
unfolding update_all
update_all-append m [] vs = refl
update_all-append m (u ∷ us) vs = update_all-append (update_cost m u) us vs

last_char : (j n b l : ℕ) → j + suc n ≡ l → 1 ≤ b → b ≤ suc n → ltb (b - 1) n ≡ false → j + b ≡ l
last_char j n b l e h k f = ground arith

mul_suc : (n d : ℕ) → suc n * d ≡ d + n * d
mul_suc n d = omega arith

module _ (lang : Lang) (w1 w2 : List ℕ) (loaded : IsLoaded lang) where
  update_cost-AtMost :
      (m : List ℕ) (u : Update)
      → IsEdit lang w1 w2 u
      → IsReached lang w1 w2 m
      → get_or (update_cost m u) u.cell 0 ≤ get_or m u.source 0 + u.cost
  unfolding update_cost
  update_cost-AtMost m u (edit_at i j a b z1 z2 (l1, e1) (l2, e2) source cell edit) r =
      let (h, k) = Edit-lengths lang z1 z2 a b u.cost edit in
      let low = Edit-cost lang z1 z2 a b u.cost loaded edit in
      let (bound, reached) = r.cell i j (omega arith) (omega arith) in
      let bound' = subst (λ s. get_or m s 0 ≤ unreached) (sym source) bound in
      let sum = sum_fits (get_or m u.source 0) u.cost bound' low in
      let inside = in_matrix (length w1) (length w2) (i + a) (j + b) (omega arith) (omega arith) in
      let inside' : u.cell < length m =
        subst (λ l. u.cell < l) (sym r.size)
          (subst (λ d. d < (length w2 + 1) * (length w1 + 1)) (sym cell) inside) in
      elim (Bool-cases (ltb (cost_of m u) (get_or m u.cell 0))) [
        | inr no_better ↦ rw (no_better) (ground arith)
        | inl better ↦
            rw (better) (let e = get_or-set_at m u.cell (cost_of m u) 0 inside' in omega arith)
      ]

  -- From the cell `c` to the cell `d`, at the cost `k`.
  abbrev pub Carries : List Update → ℕ → ℕ → ℕ → Type 0
  Carries us c d k =
      (m : List ℕ) → IsReached lang w1 w2 m → get_or (update_all m us) d 0 ≤ get_or m c 0 + k

  pub Carries-first :
      (u : Update) (us : List Update)
      → IsEdit lang w1 w2 u
      → Carries (u ∷ us) u.source u.cell u.cost
  unfolding update_all
  Carries-first u us edit m r =
      let first = update_cost-AtMost m u edit r in
      let rest = update_all_le (update_cost m u) us u.cell in omega arith

  Carries-append :
      (us vs : List Update) (c d e k l : ℕ)
      → All (IsEdit lang w1 w2) us
      → Carries us c d k
      → Carries vs d e l
      → Carries (us ++ vs) c e (k + l)
  Carries-append us vs c d e k l edits h h' m r =
      let first = h m r in
      let rest = h' (update_all m us) (update_all-IsReached lang w1 w2 m us loaded edits r) in
      rw (update_all-append m us vs) (omega arith)

  pub Carries-before :
      (us vs : List Update) (c d k : ℕ)
      → All (IsEdit lang w1 w2) us
      → Carries vs c d k
      → Carries (us ++ vs) c d k
  Carries-before us vs c d k edits h m r =
      let first = update_all_le m us c in
      let rest = h (update_all m us) (update_all-IsReached lang w1 w2 m us loaded edits r) in
      rw (update_all-append m us vs) (omega arith)

  pub Carries-after :
      (us vs : List Update) (c d k : ℕ) → Carries us c d k → Carries (us ++ vs) c d k
  Carries-after us vs c d k h m r =
      let first = h m r in
      let rest = update_all_le (update_all m us) vs d in
      rw (update_all-append m us vs) (omega arith)

  Carries-stay : (us : List Update) (c : ℕ) → Carries us c c 0
  Carries-stay us c m r = let h = update_all_le m us c in omega arith

  pub Carries-change :
      (us : List Update) {c d k : ℕ} (c' d' k' : ℕ)
      → Carries us c d k
      → c ≡ c'
      → d ≡ d'
      → k ≤ k'
      → Carries us c' d' k'
  Carries-change us {c} {d} {k} c' d' k' h e f l m r =
      subst (λ x. get_or (update_all m us) x 0 ≤ get_or m c' 0 + k') f
        (subst (λ x. get_or (update_all m us) d 0 ≤ get_or m x 0 + k') e
          (let le = h m r in omega arith))

  -- Along a row, where each character of FROM may be deleted.
  row_updates-Carries :
      (z1 z2 : List ℕ) (i j skip rx : ℕ)
      → NonZero z1
      → NonZero z2
      → 0 < length z2
      → At w1 i z1
      → At w2 j z2
      → rx ≡ (length w1 + 1) * (j + char_len z2)
      → skip ≤ length z1
      → Carries
          (row_updates lang
            (length w1 + 1)
            rx
            ((length w1 + 1) * j)
            i
            skip
            (from_chars lang z1)
            z1
            z2)
          (rx + (i + skip))
          (rx + length w1)
          (length z1 * lang.i_del_cost)
  unfolding row_updates from_chars cell_updates from_char
  row_updates-Carries [] z2 i j skip rx nz1 nz2 some2 (l, h) k e s =
      Carries-change [] _ _ _ (Carries-stay [] (rx + (i + skip))) (omega arith) (omega arith)
        (omega arith)
  row_updates-Carries (c ∷ z1) z2 i j (suc skip) rx (pos_c, nz1) nz2 some2 h k e s =
      let cost = mul_suc (length z1) lang.i_del_cost in
      Carries-change _ _ _ _
        (row_updates-Carries z1 z2 (suc i) j skip rx nz1 nz2 some2 (At-next w1 i c z1 h) k e
          (omega arith))
        (omega arith) refl (omega arith)
  row_updates-Carries (c ∷ z1) z2 i j zero rx (pos_c, nz1) nz2 some2 h k e s =
      let cost = mul_suc (length z1) lang.i_del_cost in
      let (b, l) = utf8_len_bounds c (length (c ∷ z1)) (omega arith) in
      let edits =
        cell_updates-IsEdit lang w1 w2 i j (c ∷ z1) z2 rx (pos_c, nz1) nz2 (omega arith) some2 h k
          e in
      Carries-change _ _ _ _
        (Carries-append
          (cell_updates lang (length w1 + 1) rx ((length w1 + 1) * j) i (from_char lang (c ∷ z1))
            (c ∷ z1) z2)
          _ (rx + i) (rx + i + char_len (c ∷ z1)) (rx + length w1) lang.i_del_cost
          (length z1 * lang.i_del_cost) edits (Carries-first _ _ edits.0)
          (Carries-change _ _ _ _
            (row_updates-Carries z1 z2 (suc i) j (char_len (c ∷ z1) - 1) rx nz1 nz2 some2
              (At-next w1 i c z1 h) k e (omega arith))
            (omega arith) refl (omega arith)))
        (omega arith) refl (omega arith)

  top_updates-Carries :
      (z1 : List ℕ) (i skip : ℕ)
      → NonZero z1
      → At w1 i z1
      → skip ≤ length z1
      → Carries
          (top_updates lang i skip (from_chars lang z1))
          (i + skip)
          (length w1)
          (length z1 * lang.i_del_cost)
  unfolding top_updates from_chars from_char
  top_updates-Carries [] i skip nz1 (l, h) s =
      Carries-change [] _ _ _ (Carries-stay [] (i + skip)) (omega arith) (omega arith) (omega arith)
  top_updates-Carries (c ∷ z1) i (suc skip) (pos_c, nz1) h s =
      let cost = mul_suc (length z1) lang.i_del_cost in
      Carries-change _ _ _ _
        (top_updates-Carries z1 (suc i) skip nz1 (At-next w1 i c z1 h) (omega arith)) (omega arith)
        refl (omega arith)
  top_updates-Carries (c ∷ z1) i zero (pos_c, nz1) h s =
      let cost = mul_suc (length z1) lang.i_del_cost in
      let (b, l) = utf8_len_bounds c (length (c ∷ z1)) (omega arith) in
      let (edit, edits) = top_updates-IsEdit lang w1 w2 (c ∷ z1) i 0 (pos_c, nz1) h in
      Carries-change _ _ _ _
        (Carries-append
          (record { cell = i + char_len (c ∷ z1); source = i; cost = lang.i_del_cost } ∷ []) _ i
          (i + char_len (c ∷ z1)) (length w1) lang.i_del_cost (length z1 * lang.i_del_cost)
          (edit, tt) (Carries-first _ [] edit)
          (Carries-before (del_updates (from_char lang (c ∷ z1)).del i) _ _ _ _
            (All-split (IsEdit lang w1 w2) (del_updates (from_char lang (c ∷ z1)).del i) _ edits).0
            (Carries-change _ _ _ _
              (top_updates-Carries z1 (suc i) (char_len (c ∷ z1) - 1) nz1 (At-next w1 i c z1 h)
                (omega arith))
              (omega arith) refl (omega arith))))
        (omega arith) refl (omega arith)

  -- Down the first column, and along the last row.
  rows_updates-Carries :
      (z2 : List ℕ) (j skip : ℕ) (is_prefix : Bool)
      → NonZero w1
      → NonZero z2
      → At w2 j z2
      → skip < length z2
      → Carries
          (rows_updates lang
            (length w1 + 1)
            (from_string lang w1 is_prefix)
            j
            skip
            (to_chars lang z2)
            z2)
          ((length w1 + 1) * (j + skip))
          ((length w1 + 1) * length w2 + length w1)
          (length z2 * lang.i_ins_cost + length w1 * lang.i_del_cost)
  unfolding rows_updates to_chars
  rows_updates-Carries [] j skip is_prefix nz1 nz2 k s = absurd (omega arith)
  rows_updates-Carries (c ∷ z2) j (suc skip) is_prefix nz1 (pos_c, nz2) k s =
      let cost = mul_suc (length z2) lang.i_ins_cost in
      Carries-change _ _ _ _
        (rows_updates-Carries z2 (suc j) skip is_prefix nz1 nz2 (At-next w2 j c z2 k) (omega arith))
        (ap (λ x. (length w1 + 1) * x) (omega arith)) refl (omega arith)
  rows_updates-Carries (c ∷ z2) j zero is_prefix nz1 (pos_c, nz2) k s =
      let cost = mul_suc (length z2) lang.i_ins_cost in
      let (b, l) = utf8_len_bounds c (length (c ∷ z2)) (omega arith) in
      let (edit, edits) =
        rows_updates-IsEdit lang w1 w2 (c ∷ z2) j 0 is_prefix nz1 (pos_c, nz2) k in
      let sz = length w1 + 1 in
      let ins = ins_updates sz j (ins_costs (c ∷ z2) lang.costs) in
      let row =
        row_updates lang sz (sz * (j + char_len (c ∷ z2))) (sz * j) 0 0 (from_chars lang w1) w1
          (c ∷ z2) in
      let (ins_edits, edits') = All-split (IsEdit lang w1 w2) ins _ edits in
      let (row_edits, edits'') = All-split (IsEdit lang w1 w2) row _ edits' in
      Carries-change _ _ _ _
        (Carries-append
          (record { cell = sz * (j + char_len (c ∷ z2)); source = sz * j; cost = lang.i_ins_cost }
            ∷ [])
          _ (sz * j) (sz * (j + char_len (c ∷ z2))) (sz * length w2 + length w1) lang.i_ins_cost
          (length z2 * lang.i_ins_cost + length w1 * lang.i_del_cost) (edit, tt)
          (Carries-first _ [] edit)
          (Carries-before ins _ _ _ _ ins_edits
            (elim (Bool-cases (ltb (char_len (c ∷ z2) - 1) (length z2))) [
              | inl more ↦ Carries-before row _ _ _ _ row_edits (
                  Carries-change _ _ _ _
                    (rows_updates-Carries z2 (suc j) (char_len (c ∷ z2) - 1) is_prefix nz1 nz2
                      (At-next w2 j c z2 k) (ground arith))
                    (ap (λ x. sz * x) (omega arith)) refl (omega arith))
              | inr no_more ↦ Carries-after row _ _ _ _ (
                  Carries-change _ _ _ _
                    (row_updates-Carries w1 (c ∷ z2) 0 j 0 _ nz1 (pos_c, nz2) (omega arith)
                      (At-start w1) k refl (omega arith))
                    (omega arith)
                    (ap (λ x. sz * x + length w1)
                      (last_char j (length z2) (char_len (c ∷ z2)) (length w2) k.0 b l no_more))
                    (omega arith))
            ])))
        (ap (λ x. sz * x) (omega arith)) refl (omega arith)

  all_updates-Carries :
      (is_prefix : Bool)
      → NonZero w1
      → NonZero w2
      → Carries
          (all_updates lang (from_string lang w1 is_prefix) (to_chars lang w2) w2)
          0
          ((length w1 + 1) * length w2 + length w1)
          (length w2 * lang.i_ins_cost + length w1 * lang.i_del_cost)
  unfolding all_updates
  all_updates-Carries is_prefix nz1 nz2 =
      subst
        (λ s.
          Carries
            (top_updates lang 0 0 (from_chars lang w1)
              ++ rows_updates lang s (from_string lang w1 is_prefix) 0 0 (to_chars lang w2) w2)
            0 ((length w1 + 1) * length w2 + length w1)
            (length w2 * lang.i_ins_cost + length w1 * lang.i_del_cost))
        (ap (λ n. n + 1) (sym (length-from_chars lang w1)))
        (elim (Bool-cases (length w2 == 0)) [
          | inl no_rows ↦
              let none_left : length w2 ≡ 0 = ground arith in
              Carries-after (top_updates lang 0 0 (from_chars lang w1)) _ _ _ _ (
                Carries-change _ _ _ _ (top_updates-Carries w1 0 0 nz1 (At-start w1) (omega arith))
                  refl (let e = ap (λ n. (length w1 + 1) * n) none_left in omega arith)
                  (omega arith))
          | inr rows ↦
              Carries-before (top_updates lang 0 0 (from_chars lang w1)) _ _ _ _
                (top_updates-IsEdit lang w1 w2 w1 0 0 nz1 (At-start w1))
                (Carries-change _ _ _ _
                  (rows_updates-Carries w2 0 0 is_prefix nz1 nz2 (At-start w2) (ground arith))
                  (omega arith) refl (omega arith))
        ])

-- The last cell is no more than the deletion of all of FROM and the insertion of all of TO.
pub fill_matrix-last :
    (lang : Lang) (w1 w2 : List ℕ) (is_prefix : Bool)
    → IsLoaded lang
    → NonZero w1
    → NonZero w2
    → get_or
        (fill_matrix lang (from_string lang w1 is_prefix) w2)
        ((length w1 + 1) * length w2 + length w1)
        0
      ≤ length w2 * lang.i_ins_cost + length w1 * lang.i_del_cost
unfolding fill_matrix
fill_matrix-last lang w1 w2 is_prefix loaded nz1 nz2 =
    let size = (length w2 + 1) * (length (from_chars lang w1) + 1) in
    let e : size ≡ (length w2 + 1) * (length w1 + 1) =
      ap (λ n. (length w2 + 1) * (n + 1)) (length-from_chars lang w1) in
    let inside = in_matrix (length w1) (length w2) 0 0 (omega arith) (omega arith) in
    let low : 0 < length (fresh_cells size) =
      subst (λ n. 0 < n) (sym (length-fresh_cells size)) (omega arith) in
    let first = get_or-set_at (fresh_cells size) 0 0 0 low in
    let whole =
      all_updates-Carries lang w1 w2 loaded is_prefix nz1 nz2 (set_at (fresh_cells size) 0 0)
        (fresh-IsReached lang w1 w2 size e) in
    omega arith
