-- ===== src/Spellfix/Edit3/Inequalities.antt =====
-- The edits between characters, and the matrix of a language without configured costs.
use letarette.Base.{
  ℕ, zero, suc, ◌+◌, ◌-◌, ◌≤◌, ◌<◌, ◌≡◌, refl, sym, ap, ◌∙◌, true, List, [], ◌∷◌, arith, length,
  take, drop, length-append,
}
use mathlib.Core.Path.{subst}
use letarette.Spellfix.Config.{Lang, compare_bytes}
use letarette.Spellfix.Config.Load.{IsLoaded}
use letarette.Spellfix.Edit3.{head, same_bytes, from_char, from_chars, match_from_to, top_updates}
use letarette.Spellfix.Edit3.Script.{char_len, Begins}
use letarette.Spellfix.Edit3.Matches.{NonZero, length-take, utf8_len_bounds}
use letarette.Spellfix.Edit3.Updates.{At, At-next, top_updates-IsEdit}
use letarette.Spellfix.Edit3.Carries.{Carries-first}
use letarette.Spellfix.Edit3.Aligned.{Aligned}
use letarette.Spellfix.Edit3.Settled.{plain, Above, Above-mono, Best, Best-here, Best-before}
use letarette.Spellfix.Edit3.Rows.{move, stay}

cons_parts : {c d : ℕ} {y z : List ℕ} → d ∷ z ≡ c ∷ y → (d ≡ c) × (z ≡ y)
cons_parts e = (cc, cc)

head-Begins : (a z : List ℕ) → 0 < length a → Begins a z → head z ≡ head a
head-Begins [] z h begins = absurd (omega arith)
head-Begins (c ∷ a) [] h (rest, e) = cc
head-Begins (c ∷ a) (d ∷ z) h (rest, e) = (cons_parts e).0

take_some : (n : ℕ) (z : List ℕ) → 1 ≤ n → n ≤ length z → 0 < length (take n z)
take_some n z h k = let e = length-take n z k in omega arith

take_fits : (n : ℕ) (z1 z2 : List ℕ) → n ≤ length z1 → Begins (take n z1) z2 → n ≤ length z2
take_fits n z1 z2 h (rest, e) =
    let f = length-take n z1 h in
    let g = ap length e ∙ length-append (take n z1) rest in omega arith

-- A character that begins TO is found there.
same_bytes_eq : (a z : List ℕ) → NonZero z → Begins a z → same_bytes a z ≡ true
unfolding same_bytes compare_bytes
same_bytes_eq [] z nz (rest, e) = refl
same_bytes_eq (c ∷ a) [] nz (rest, e) = cc
same_bytes_eq (c ∷ a) (d ∷ z) (p, nz) (rest, e) =
    let (f, g) = cons_parts e in let later = same_bytes_eq a z nz (rest, g) in ground arith

head-take : (n : ℕ) (z : List ℕ) → 1 ≤ n → head (take n z) ≡ head z
head-take zero z h = absurd (omega arith)
head-take (suc n) [] h = refl
head-take (suc n) (c ∷ z) h = refl

pub match_from_to_found :
    (n : ℕ) (z1 z2 : List ℕ)
    → 1 ≤ n
    → n ≤ length z1
    → NonZero z2
    → Begins (take n z1) z2
    → match_from_to n z1 z2 ≡ true
unfolding match_from_to
match_from_to_found n z1 z2 low high nz begins =
    let same = same_bytes_eq (take n z1) z2 nz begins in
    let first = head-Begins (take n z1) z2 (take_some n z1 low high) begins ∙ head-take n z1 low in
    let fits = take_fits n z1 z2 high begins in ground arith

module _ (lang : Lang) (w1 w2 : List ℕ) (loaded : IsLoaded (plain lang)) where
  pub top_updates-Above :
      (z1 : List ℕ) (i skip : ℕ)
      → skip ≤ length z1
      → Above (i + skip) (top_updates (plain lang) i skip (from_chars (plain lang) z1))
  unfolding top_updates from_chars from_char
  top_updates-Above [] i skip h = tt
  top_updates-Above (c ∷ z1) i (suc skip) h =
      Above-mono (suc i + skip) _ _ (omega arith) (top_updates-Above z1 (suc i) skip (omega arith))
  top_updates-Above (c ∷ z1) i zero h =
      let (b, l) = utf8_len_bounds c (length (c ∷ z1)) (omega arith) in
      (
        omega arith,
        Above-mono (suc i + (char_len (c ∷ z1) - 1)) _ _ (omega arith)
            (top_updates-Above z1 (suc i) (char_len (c ∷ z1) - 1) (omega arith)),
      )

  pub top_updates-delete :
      (z1 : List ℕ) (i skip p : ℕ)
      → NonZero z1
      → At w1 i z1
      → Aligned z1 skip p
      → p < length z1
      → skip ≤ length z1
      → Best
          (plain lang)
          w1
          w2
          loaded
          (top_updates (plain lang) i skip (from_chars (plain lang) z1))
          (i + p)
          (i + p + char_len (drop p z1))
          lang.i_del_cost
  unfolding top_updates from_chars from_char
  top_updates-delete [] i skip p nz h a l s = absurd (omega arith)
  top_updates-delete (c ∷ z1) i (suc skip) zero nz h a l s = elim a [ ]
  top_updates-delete (c ∷ z1) i (suc skip) (suc p) (pos_c, nz) h a l s =
      subst
        (λ n.
          Best (plain lang) w1 w2 loaded
            (top_updates (plain lang) (suc i) skip (from_chars (plain lang) z1)) n
            (n + char_len (drop p z1)) lang.i_del_cost)
        (sym (move i p))
        (top_updates-delete z1 (suc i) skip p nz (At-next w1 i c z1 h) a (omega arith)
          (omega arith))
  top_updates-delete (c ∷ z1) i zero zero (pos_c, nz) h a l s =
      let edits = top_updates-IsEdit (plain lang) w1 w2 (c ∷ z1) i 0 (pos_c, nz) h in
      let top = top_updates (plain lang) i 0 (from_chars (plain lang) (c ∷ z1)) in
      subst (λ n. Best (plain lang) w1 w2 loaded top n (n + char_len (c ∷ z1)) lang.i_del_cost)
        (sym (stay i))
        (Best-here (plain lang) w1 w2 loaded top i _ lang.i_del_cost
          (Carries-first (plain lang) w1 w2 loaded _ _ edits.0)
          (Above-mono (i + 0) i top (omega arith) (top_updates-Above (c ∷ z1) i 0 (omega arith))))
  top_updates-delete (c ∷ z1) i zero (suc p) (pos_c, nz) h a l s =
      let (b, k) = utf8_len_bounds c (length (c ∷ z1)) (omega arith) in
      let edits = top_updates-IsEdit (plain lang) w1 w2 (c ∷ z1) i 0 (pos_c, nz) h in
      let top = top_updates (plain lang) i 0 (from_chars (plain lang) (c ∷ z1)) in
      subst (λ n. Best (plain lang) w1 w2 loaded top n (n + char_len (drop p z1)) lang.i_del_cost)
        (sym (move i p))
        (Best-before (plain lang) w1 w2 loaded
          (record { cell = i + char_len (c ∷ z1); source = i; cost = lang.i_del_cost } ∷ []) _ _ _
          lang.i_del_cost (edits.0, tt)
          (top_updates-delete z1 (suc i) (char_len (c ∷ z1) - 1) p nz (At-next w1 i c z1 h) a
            (omega arith) (omega arith)))
