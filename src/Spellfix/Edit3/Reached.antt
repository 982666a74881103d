-- ===== src/Spellfix/Edit3/Reached.antt =====
-- The invariant of the Wagner matrix of editDist3Core: a cell that is reached holds the cost of a
-- script.
use letarette.Base.{
  ℕ, zero, suc, ◌+◌, ◌-◌, ◌*◌, ◌%◌, ◌^◌, ◌≤◌, ◌<◌, ◌≡◌, refl, sym, ap, ◌∙◌, ◌≢◌, ◌⊎◌, inl, inr,
  Bool, List, [], ◌∷◌, arith, ltb, ◌==◌, ==_iff, Bool-cases, length, get_or, drop, length-append,
  All,
}
use native.Mathlib.Nat.{mul-add, mul_comm}
use mathlib.Core.Path.{subst}
use letarette.Spellfix.Config.{Cost, Lang}
use letarette.Spellfix.Config.Load.{IsFit, IsLoaded}
use letarette.Spellfix.Edit3.{
  head, all_updates, Update, update_cost, update_all, set_at, unreached, fresh_cells, fill_matrix,
  to_chars,
}
use letarette.Spellfix.Edit3.Script.{
  Among, Edit, delete, insert, substitute, keep, configured, Script, start, step,
}
use letarette.Spellfix.Edit3.Matches.{NonZero, utf8_len_bounds}
use letarette.Spellfix.Edit3.Updates.{
  IsEdit, edit_at, length-from_chars, from_string, all_updates-IsEdit,
}

module _ {ℓ} {A : Type ℓ} where
  pub length-set_at : (xs : List A) (i : ℕ) (x : A) → length (set_at xs i x) ≡ length xs
  length-set_at [] i x = refl
  length-set_at (y ∷ xs) zero x = refl
  length-set_at (y ∷ xs) (suc i) x = ap suc (length-set_at xs i x)

  pub get_or-set_at :
      (xs : List A) (i : ℕ) (x d : A) → i < length xs → get_or (set_at xs i x) i d ≡ x
  get_or-set_at [] i x d h = absurd (omega arith)
  get_or-set_at (y ∷ xs) zero x d h = refl
  get_or-set_at (y ∷ xs) (suc i) x d h = get_or-set_at xs i x d (omega arith)

  pub get_or-set_at_other :
      (xs : List A) (i k : ℕ) (x d : A) → i ≢ k → get_or (set_at xs i x) k d ≡ get_or xs k d
  get_or-set_at_other [] i k x d h = refl
  get_or-set_at_other (y ∷ xs) zero zero x d h = absurd (h refl)
  get_or-set_at_other (y ∷ xs) zero (suc k) x d h = refl
  get_or-set_at_other (y ∷ xs) (suc i) zero x d h = refl
  get_or-set_at_other (y ∷ xs) (suc i) (suc k) x d h =
      get_or-set_at_other xs i k x d (λ e. h (ap suc e))

get_or-fresh_cells : (n i : ℕ) → i < n → get_or (fresh_cells n) i 0 ≡ unreached
unfolding fresh_cells
get_or-fresh_cells zero i h = absurd (omega arith)
get_or-fresh_cells (suc n) zero h = refl
get_or-fresh_cells (suc n) (suc i) h = get_or-fresh_cells n i (omega arith)

pub length-fresh_cells : (n : ℕ) → length (fresh_cells n) ≡ n
unfolding fresh_cells
length-fresh_cells zero = refl
length-fresh_cells (suc n) = ap suc (length-fresh_cells n)

-- Two cells of the matrix with the same index are the same cell.
rows_apart : (s j k i i' : ℕ) → i < s → s * j + i ≡ s * (j + (k + 1)) + i' → ⊥
rows_apart s j k i i' h e = let d = mul-add s j (k + 1) in let d' = mul-add s k 1 in omega arith

same_row : (s j j' i i' : ℕ) → i < s → i' < s → s * j + i ≡ s * j' + i' → (j ≡ j') × (i ≡ i')
same_row s j j' i i' h h' e = elim (Bool-cases (ltb j j')) [
  | inl less ↦
      let gap : j' ≡ j + (j' - j - 1 + 1) = ground arith in
      absurd (rows_apart s j (j' - j - 1) i i' h (e ∙ ap (λ k. s * k + i') gap))
  | inr not_less ↦ elim (Bool-cases (ltb j' j)) [
    | inl more ↦
        let gap : j ≡ j' + (j - j' - 1 + 1) = ground arith in
        absurd (rows_apart s j' (j - j' - 1) i' i h' (sym e ∙ ap (λ k. s * k + i) gap))
    | inr not_more ↦
        let same : j ≡ j' = ground arith in (same, let row = ap (λ k. s * k) same in omega arith)
  ]
]

pub in_matrix : (n n2 i j : ℕ) → i ≤ n → j ≤ n2 → (n + 1) * j + i < (n2 + 1) * (n + 1)
in_matrix n n2 i j h k =
    let d = mul-add (n + 1) j (n2 - j + 1) in
    let d' = mul-add (n + 1) (n2 - j) 1 in
    let rows : j + (n2 - j + 1) ≡ n2 + 1 = omega arith in
    let whole : (n + 1) * (j + (n2 - j + 1)) ≡ (n2 + 1) * (n + 1) =
      ap (λ k. (n + 1) * k) rows ∙ mul_comm (n + 1) (n2 + 1) in
    omega arith

pub Edit-lengths :
    (lang : Lang) (z1 z2 : List ℕ) (a b k : ℕ)
    → Edit lang z1 z2 a b k
    → (a ≤ length z1) × (b ≤ length z2)
Edit-lengths lang z1 z2 a b k (delete s1 e f g) =
    let (l, h) = utf8_len_bounds (head z1) (length z1) s1 in (omega arith, omega arith)
Edit-lengths lang z1 z2 a b k (insert s2 e f g) =
    let (l, h) = utf8_len_bounds (head z2) (length z2) s2 in (omega arith, omega arith)
Edit-lengths lang z1 z2 a b k (substitute s1 s2 e f g) =
    let (l, h) = utf8_len_bounds (head z1) (length z1) s1 in
    let (l', h') = utf8_len_bounds (head z2) (length z2) s2 in (omega arith, omega arith)
Edit-lengths lang z1 z2 a b k (keep s1 s2 e f begins g) =
    let (l, h) = utf8_len_bounds (head z1) (length z1) s1 in
    let (l', h') = utf8_len_bounds (head z2) (length z2) s2 in (omega arith, omega arith)
Edit-lengths lang z1 z2 a b k (configured p among (r1, e1) (r2, e2) e f g) =
    let l1 = ap length e1 ∙ length-append p.from r1 in
    let l2 = ap length e2 ∙ length-append p.to r2 in (omega arith, omega arith)

Among-IsFit : (p : Cost) (costs : List Cost) → Among p costs → All IsFit costs → p.i_cost < 10000
Among-IsFit p [] among h = elim among [ ]
Among-IsFit p (q ∷ costs) (inl e) ((f, t, fit), h) = subst (λ c. c.i_cost < 10000) (sym e) fit
Among-IsFit p (q ∷ costs) (inr among) (fit, h) = Among-IsFit p costs among h

pub Edit-cost :
    (lang : Lang) (z1 z2 : List ℕ) (a b k : ℕ) → IsLoaded lang → Edit lang z1 z2 a b k → k < 10000
Edit-cost lang z1 z2 a b k h (delete s1 e f g) = let l = h.del in omega arith
Edit-cost lang z1 z2 a b k h (insert s2 e f g) = let l = h.ins in omega arith
Edit-cost lang z1 z2 a b k h (substitute s1 s2 e f g) = let l = h.sub in omega arith
Edit-cost lang z1 z2 a b k h (keep s1 s2 e f begins g) = omega arith
Edit-cost lang z1 z2 a b k h (configured p among e1 e2 e f g) =
    let l = Among-IsFit p lang.costs among h.fits in omega arith

abbrev pub Reaches : Lang → List ℕ → List ℕ → ℕ → ℕ → ℕ → Type 0
Reaches lang w1 w2 i j v = (v ≤ unreached) × ((v ≡ unreached) ⊎ Script lang w1 w2 i j v)

pub record IsReached (lang : Lang) (w1 w2 m : List ℕ) : Type 0 where
  pub size : length m ≡ (length w2 + 1) * (length w1 + 1)
  pub cell :
      (i j : ℕ)
      → i ≤ length w1
      → j ≤ length w2
      → Reaches lang w1 w2 i j (get_or m ((length w1 + 1) * j + i) 0)

-- The sum of updateCost does not wrap around.
pub sum_fits : (v k : ℕ) → v ≤ unreached → k < 10000 → (v + k) % 2 ^ 32 ≡ v + k
sum_fits v k h l = ground arith

abbrev pub cost_of : List ℕ → Update → ℕ
cost_of m u = (get_or m u.source 0 + u.cost) % 2 ^ 32

IsReached-set_at :
    (lang : Lang) (w1 w2 m : List ℕ) (i j c v : ℕ)
    → i ≤ length w1
    → j ≤ length w2
    → c ≡ (length w1 + 1) * j + i
    → Reaches lang w1 w2 i j v
    → IsReached lang w1 w2 m
    → IsReached lang w1 w2 (set_at m c v)
IsReached-set_at lang w1 w2 m i j c v h k e cell r = record {
  size = length-set_at m c v ∙ r.size;
  cell = λ i' j' h' k'.
      let at = (length w1 + 1) * j' + i' in
      elim (Bool-cases (c == at)) [
        | inl same ↦
            let same_cell = (==_iff c at).0 same in
            let (ej, ei) =
              same_row (length w1 + 1) j' j i' i (omega arith) (omega arith) (sym same_cell ∙ e) in
            let inside : c < length m =
              subst (λ l. c < l) (sym r.size)
                (subst (λ d. d < (length w2 + 1) * (length w1 + 1)) (sym e)
                  (in_matrix (length w1) (length w2) i j h k)) in
            let value : get_or (set_at m c v) at 0 ≡ v =
              subst (λ d. get_or (set_at m c v) d 0 ≡ v) same_cell (get_or-set_at m c v 0 inside) in
            subst (λ x. Reaches lang w1 w2 i' j' x) (sym value)
              (subst (λ x. Reaches lang w1 w2 i' x v) (sym ej)
                (subst (λ x. Reaches lang w1 w2 x j v) (sym ei) cell))
        | inr other ↦
            let apart : c ≢ at = ground arith in
            subst (Reaches lang w1 w2 i' j') (sym (get_or-set_at_other m c at v 0 apart))
              (r.cell i' j' h' k')
      ];
}

pub update_cost-IsReached :
    (lang : Lang) (w1 w2 m : List ℕ) (u : Update)
    → IsLoaded lang
    → IsEdit lang w1 w2 u
    → IsReached lang w1 w2 m
    → IsReached lang w1 w2 (update_cost m u)
unfolding update_cost
update_cost-IsReached lang w1 w2 m u loaded
      (edit_at i j a b z1 z2 (l1, e1) (l2, e2) source cell edit) r =
    let (h, k) = Edit-lengths lang z1 z2 a b u.cost edit in
    let low = Edit-cost lang z1 z2 a b u.cost loaded edit in
    let (bound, reached) =
      subst (λ s. Reaches lang w1 w2 i j (get_or m s 0)) (sym source)
        (r.cell i j (omega arith) (omega arith)) in
    let sum = sum_fits (get_or m u.source 0) u.cost bound low in
    let (bound', reached') =
      subst (λ s. Reaches lang w1 w2 (i + a) (j + b) (get_or m s 0)) (sym cell)
        (r.cell (i + a) (j + b) (omega arith) (omega arith)) in
    elim (Bool-cases (ltb (cost_of m u) (get_or m u.cell 0))) [
      | inr no_better ↦ rw (no_better) r
      | inl better ↦
          let less : cost_of m u < get_or m u.cell 0 = ground arith in
          rw (better) (
            IsReached-set_at lang w1 w2 m (i + a) (j + b) u.cell (cost_of m u) (omega arith)
              (omega arith) cell
              (
                omega arith,
                elim reached [
                  | inl none_yet ↦ absurd (omega arith)
                  | inr script ↦ inr (
                      step i j _ a b u.cost script
                        (subst (λ x. Edit lang x (drop j w2) a b u.cost) (sym e1)
                          (subst (λ x. Edit lang z1 x a b u.cost) (sym e2) edit))
                        refl refl sum)
                ],
              )
              r)
    ]

pub update_all-IsReached :
    (lang : Lang) (w1 w2 m : List ℕ) (us : List Update)
    → IsLoaded lang
    → All (IsEdit lang w1 w2) us
    → IsReached lang w1 w2 m
    → IsReached lang w1 w2 (update_all m us)
unfolding update_all
update_all-IsReached lang w1 w2 m [] loaded edits r = r
update_all-IsReached lang w1 w2 m (u ∷ us) loaded (edit, edits) r =
    update_all-IsReached lang w1 w2 (update_cost m u) us loaded edits
      (update_cost-IsReached lang w1 w2 m u loaded edit r)

pub fresh-IsReached :
    (lang : Lang) (w1 w2 : List ℕ) (k : ℕ)
    → k ≡ (length w2 + 1) * (length w1 + 1)
    → IsReached lang w1 w2 (set_at (fresh_cells k) 0 0)
fresh-IsReached lang w1 w2 k e = record {
  size = length-set_at (fresh_cells k) 0 0 ∙ length-fresh_cells k ∙ e;
  cell = λ i j h h'.
      let at = (length w1 + 1) * j + i in
      let inside : at < k =
        subst (λ n. at < n) (sym e) (in_matrix (length w1) (length w2) i j h h') in
      let low : 0 < length (fresh_cells k) =
        subst (λ n. 0 < n) (sym (length-fresh_cells k)) (omega arith) in
      elim (Bool-cases (0 == at)) [
        | inl first ↦
            let e0 = (==_iff 0 at).0 first in
            let (ej, ei) =
              same_row (length w1 + 1) 0 j 0 i (omega arith) (omega arith) (omega arith) in
            let value : get_or (set_at (fresh_cells k) 0 0) at 0 ≡ 0 =
              subst (λ d. get_or (set_at (fresh_cells k) 0 0) d 0 ≡ 0) e0
                (get_or-set_at (fresh_cells k) 0 0 0 low) in
            subst (λ x. Reaches lang w1 w2 i j x) (sym value)
              (omega arith, inr (start (sym ei) (sym ej) refl))
        | inr other ↦
            let apart : 0 ≢ at = ground arith in
            let value =
              get_or-set_at_other (fresh_cells k) 0 at 0 0 apart ∙ get_or-fresh_cells k at inside in
            subst (λ x. Reaches lang w1 w2 i j x) (sym value) (omega arith, inl refl)
      ];
}

pub fill_matrix-IsReached :
    (lang : Lang) (w1 w2 : List ℕ) (is_prefix : Bool)
    → IsLoaded lang
    → NonZero w1
    → NonZero w2
    → IsReached lang w1 w2 (fill_matrix lang (from_string lang w1 is_prefix) w2)
unfolding fill_matrix
fill_matrix-IsReached lang w1 w2 is_prefix loaded nz1 nz2 =
    update_all-IsReached lang w1 w2 _ _ loaded (all_updates-IsEdit lang w1 w2 is_prefix nz1 nz2) (
      fresh-IsReached lang w1 w2 _
        (ap (λ n. (length w2 + 1) * (n + 1)) (length-from_chars lang w1)))

-- The cell that an update writes and the cell that it reads are cells of the matrix.
abbrev pub InMatrix : List ℕ → List ℕ → Update → Type 0
InMatrix w1 w2 u =
    (u.cell < (length w2 + 1) * (length w1 + 1)) × (u.source < (length w2 + 1) * (length w1 + 1))

IsEdit-InMatrix :
    (lang : Lang) (w1 w2 : List ℕ) (us : List Update)
    → All (IsEdit lang w1 w2) us
    → All (InMatrix w1 w2) us
IsEdit-InMatrix lang w1 w2 [] edits = tt
IsEdit-InMatrix lang w1 w2 (u ∷ us)
      (edit_at i j a b z1 z2 (l1, e1) (l2, e2) source cell edit, edits) =
    let (h, k) = Edit-lengths lang z1 z2 a b u.cost edit in
    let from = in_matrix (length w1) (length w2) i j (omega arith) (omega arith) in
    let to = in_matrix (length w1) (length w2) (i + a) (j + b) (omega arith) (omega arith) in
    (
      (
        subst (λ c. c < (length w2 + 1) * (length w1 + 1)) (sym cell) to,
        subst (λ c. c < (length w2 + 1) * (length w1 + 1)) (sym source) from,
      ),
      IsEdit-InMatrix lang w1 w2 us edits,
    )

-- Every cell of the Wagner matrix that updateCost reads or writes lies inside the (n2+1)*(n+1) cells
-- that editDist3Core sets, whatever the costs are, for strings without a NUL.
pub updates_fit :
    (lang : Lang) (w1 w2 : List ℕ) (is_prefix : Bool)
    → NonZero w1
    → NonZero w2
    → All (InMatrix w1 w2) (all_updates lang (from_string lang w1 is_prefix) (to_chars lang w2) w2)
updates_fit lang w1 w2 is_prefix nz1 nz2 =
    IsEdit-InMatrix lang w1 w2 _ (all_updates-IsEdit lang w1 w2 is_prefix nz1 nz2)
