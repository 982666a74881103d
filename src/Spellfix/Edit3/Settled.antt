-- ===== src/Spellfix/Edit3/Settled.antt =====
-- The updates of the Wagner matrix for a language without configured costs: the cells that are
-- written after an update, and the least cost at a cell.
use letarette.Base.{
  ℕ, zero, suc, ◌+◌, ◌-◌, ◌*◌, ◌≤◌, ◌<◌, ◌≡◌, refl, ap, ◌∙◌, inl, inr, Bool, List, [], ◌∷◌, ◌++◌,
  arith, ltb, Bool-cases, length, get_or, All,
}
use native.Mathlib.Nat.{mul-add}
use letarette.Spellfix.Config.{Lang}
use letarette.Spellfix.Config.Load.{IsLoaded}
use letarette.Spellfix.Edit3.{
  from_char, from_chars, match_from_to, Update, update_cost, update_all, to_chars, cell_updates,
  row_updates, rows_updates,
}
use letarette.Spellfix.Edit3.Script.{char_len}
use letarette.Spellfix.Edit3.Matches.{All-append, All-if, utf8_len_bounds}
use letarette.Spellfix.Edit3.Updates.{IsEdit, from_string}
use letarette.Spellfix.Edit3.Reached.{get_or-set_at_other, cost_of, IsReached, update_all-IsReached}
use letarette.Spellfix.Edit3.Carries.{update_all_le, update_all-append, Carries}

-- The language with its default costs only.
abbrev pub plain : Lang → Lang
plain lang = record lang { costs = [] }

abbrev pub Above : ℕ → List Update → Type 0
Above c = All (λ u. c < u.cell)

pub Above-mono : (c d : ℕ) (us : List Update) → d ≤ c → Above c us → Above d us
Above-mono c d [] h a = tt
Above-mono c d (u ∷ us) h (l, a) = (omega arith, Above-mono c d us h a)

update_cost_other :
    (m : List ℕ) (u : Update) (c : ℕ) → c < u.cell → get_or (update_cost m u) c 0 ≡ get_or m c 0
unfolding update_cost
update_cost_other m u c h = elim (Bool-cases (ltb (cost_of m u) (get_or m u.cell 0))) [
  | inr no_better ↦ rw (no_better) refl
  | inl better ↦ rw (better) (get_or-set_at_other m u.cell c (cost_of m u) 0 (omega arith))
]

update_all_other :
    (m : List ℕ) (us : List Update) (c : ℕ)
    → Above c us
    → get_or (update_all m us) c 0 ≡ get_or m c 0
unfolding update_all
update_all_other m [] c a = refl
update_all_other m (u ∷ us) c (h, a) =
    update_all_other (update_cost m u) us c a ∙ update_cost_other m u c h

module _ (lang : Lang) (w1 w2 : List ℕ) (loaded : IsLoaded lang) where
  -- In the end the cell `d` is no more than the cell `c` and `k`.
  abbrev pub Best : List Update → ℕ → ℕ → ℕ → Type 0
  Best us c d k =
      (m : List ℕ)
      → IsReached lang w1 w2 m
      → get_or (update_all m us) d 0 ≤ get_or (update_all m us) c 0 + k

  pub Best-here :
      (us : List Update) (c d k : ℕ)
      → Carries lang w1 w2 loaded us c d k
      → Above c us
      → Best us c d k
  Best-here us c d k h a m r = let le = h m r in let e = update_all_other m us c a in omega arith

  pub Best-before :
      (us vs : List Update) (c d k : ℕ)
      → All (IsEdit lang w1 w2) us
      → Best vs c d k
      → Best (us ++ vs) c d k
  Best-before us vs c d k edits h m r =
      rw (update_all-append m us vs)
        (h (update_all m us) (update_all-IsReached lang w1 w2 m us loaded edits r))

  pub Best-after :
      (us vs : List Update) (c d k : ℕ) → Best us c d k → Above c vs → Best (us ++ vs) c d k
  Best-after us vs c d k h a m r =
      let first = h m r in
      let lower = update_all_le (update_all m us) vs d in
      let e = update_all_other (update_all m us) vs c a in
      rw (update_all-append m us vs) (omega arith)

one_of : (d : ℕ) → 1 ≤ d → 1 + (d - 1) ≡ d
one_of d h = omega arith

shift : (j skip : ℕ) → suc j + skip ≡ j + suc skip
shift j skip = omega arith

pub shift_by : (j d : ℕ) → 1 ≤ d → suc j + (d - 1) ≡ j + d
shift_by j d h = omega arith

no_skip : (j : ℕ) → j + 0 ≡ j
no_skip j = omega arith

row_gap : (n j d : ℕ) → 1 ≤ d → (n + 1) * j + n < (n + 1) * (j + d)
row_gap n j d h =
    let e = mul-add (n + 1) j (1 + (d - 1)) in
    let e' = mul-add (n + 1) 1 (d - 1) in
    let f = ap (λ k. (n + 1) * (j + k)) (one_of d h) in omega arith

module _ (lang : Lang) (w1 w2 : List ℕ) (loaded : IsLoaded (plain lang)) where
  cell_updates-Above :
      (z1 z2 : List ℕ) (i rx rxp : ℕ)
      → 1 ≤ char_len z1
      → Above
          (rx + i)
          (cell_updates (plain lang) (length w1 + 1) rx rxp i (from_char (plain lang) z1) z1 z2)
  unfolding cell_updates from_char
  cell_updates-Above z1 z2 i rx rxp h = (
    omega arith,
    (
      omega arith,
      All-append (λ (u : Update). rx + i < u.cell) _ _
          (All-if (λ (u : Update). rx + i < u.cell) (match_from_to (char_len z1) z1 z2) _ _
            (λ e. (omega arith, tt)) (λ e. tt))
          (omega arith, tt),
    ),
  )

  pub row_updates-Above :
      (z1 z2 : List ℕ) (i skip rx rxp : ℕ)
      → skip ≤ length z1
      → Above (rx + i + skip) (
          row_updates (plain lang) (length w1 + 1) rx rxp i skip (from_chars (plain lang) z1) z1 z2)
  unfolding row_updates from_chars
  row_updates-Above [] z2 i skip rx rxp h = tt
  row_updates-Above (c ∷ z1) z2 i (suc skip) rx rxp h =
      Above-mono (rx + suc i + skip) _ _ (omega arith)
        (row_updates-Above z1 z2 (suc i) skip rx rxp (omega arith))
  row_updates-Above (c ∷ z1) z2 i zero rx rxp h =
      let (b, l) = utf8_len_bounds c (length (c ∷ z1)) (omega arith) in
      All-append (λ (u : Update). rx + i + 0 < u.cell)
        (cell_updates (plain lang) (length w1 + 1) rx rxp i (from_char (plain lang) (c ∷ z1))
          (c ∷ z1) z2)
        _
        (Above-mono (rx + i) (rx + i + 0)
          (cell_updates (plain lang) (length w1 + 1) rx rxp i (from_char (plain lang) (c ∷ z1))
            (c ∷ z1) z2)
          (omega arith) (cell_updates-Above (c ∷ z1) z2 i rx rxp b))
        (Above-mono (rx + suc i + (char_len (c ∷ z1) - 1)) _ _ (omega arith)
          (row_updates-Above z1 z2 (suc i) (char_len (c ∷ z1) - 1) rx rxp (omega arith)))

  pub rows_updates-Above :
      (z2 : List ℕ) (j skip : ℕ) (is_prefix : Bool)
      → skip ≤ length z2
      → Above ((length w1 + 1) * (j + skip) + length w1) (
          rows_updates
            (plain lang)
            (length w1 + 1)
            (from_string (plain lang) w1 is_prefix)
            j
            skip
            (to_chars (plain lang) z2)
            z2)
  unfolding rows_updates to_chars
  rows_updates-Above [] j skip is_prefix h = tt
  rows_updates-Above (c ∷ z2) j (suc skip) is_prefix h =
      Above-mono ((length w1 + 1) * (suc j + skip) + length w1) _ _
        (let e = ap (λ k. (length w1 + 1) * k) (shift j skip) in omega arith)
        (rows_updates-Above z2 (suc j) skip is_prefix (omega arith))
  rows_updates-Above (c ∷ z2) j zero is_prefix h =
      let (b, l) = utf8_len_bounds c (length (c ∷ z2)) (omega arith) in
      let d = char_len (c ∷ z2) in
      let gap = row_gap (length w1) j d b in
      let at : (length w1 + 1) * (j + 0) ≡ (length w1 + 1) * j =
        ap (λ k. (length w1 + 1) * k) (no_skip j) in
      (
        omega arith,
        All-append (λ (u : Update). (length w1 + 1) * (j + 0) + length w1 < u.cell)
            (row_updates (plain lang) (length w1 + 1) ((length w1 + 1) * (j + d))
              ((length w1 + 1) * j) 0 0 (from_chars (plain lang) w1) w1 (c ∷ z2))
            _
            (Above-mono ((length w1 + 1) * (j + d) + 0 + 0) _ _ (omega arith)
              (row_updates-Above w1 (c ∷ z2) 0 0 _ _ (omega arith)))
            (Above-mono ((length w1 + 1) * (suc j + (d - 1)) + length w1) _ _
              (let e = ap (λ k. (length w1 + 1) * k) (shift_by j d b) in omega arith)
              (rows_updates-Above z2 (suc j) (d - 1) is_prefix (omega arith))),
      )
