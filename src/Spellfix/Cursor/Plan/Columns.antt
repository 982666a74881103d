-- ===== src/Spellfix/Cursor/Plan/Columns.antt =====
-- The constraints that a plan takes stand on different columns, so that no one is passed twice.
use letarette.Base.{
  ℕ, ◌≡◌, refl, sym, ap, ◌∙◌, ◌≢◌, inl, inr, Bool, true, false, ◌&&◌, Option, none, some, List, [],
  ◌∷◌, ◌++◌, arith, ◌==◌, ==_iff, Bool-cases, get_elem?, All, pos, eqb_ℤ→eq,
}
use mathlib.Core.Path.{subst}
use letarette.Spellfix.Cursor.Plan.{
  Constraint, is_match, is_lang, is_top, is_scope, is_dist, listed,
}
use letarette.Spellfix.Cursor.Plan.Found.{first, FoundAt}
use letarette.Spellfix.Cursor.Plan.Arguments.{Apart, Points}

abbrev pub only : Option Constraint → List Constraint
only none = []
only (some c) = c ∷ []

-- The columns differ.
abbrev pub Differ : List Constraint → Type 0
Differ [] = Unit {0}
Differ (c ∷ cs) = All (λ d. c.column ≢ d.column) cs × Differ cs

module _ (cs : List Constraint) where
  pub FoundAt-Points :
      (f : Option Constraint) (o : Option ℕ) → FoundAt 0 cs f o → Points cs (listed o) (only f)
  FoundAt-Points none o e = rw e tt
  FoundAt-Points (some c) o (k, e, at) =
      let found : o ≡ some k = e ∙ ap some (omega arith) in rw found (at, tt)

  pub Points-append :
      (xs ys : List ℕ) (ds es : List Constraint)
      → Points cs xs ds
      → Points cs ys es
      → Points cs (xs ++ ys) (ds ++ es)
  Points-append [] ys [] es p q = q
  Points-append [] ys (d ∷ ds) es p q = absurd p
  Points-append (x ∷ xs) ys [] es p q = absurd p
  Points-append (x ∷ xs) ys (d ∷ ds) es (here, p) q = (here, Points-append xs ys ds es p q)

  index_differs :
      (x y : ℕ) (c d : Constraint)
      → get_elem? cs x ≡ some c
      → get_elem? cs y ≡ some d
      → c.column ≢ d.column
      → (x == y) ≡ false
  index_differs x y c d p q ne = elim (Bool-cases (x == y)) [
    | inr differs ↦ differs
    | inl alike ↦
        let e : get_elem? cs x ≡ get_elem? cs y = ap (get_elem? cs) ((==_iff x y).0 alike) in
        let both : some c ≡ some d = sym p ∙ e ∙ q in
        let equal : c ≡ d = cc in absurd (ne (ap (λ (b : Constraint). b.column) equal))
  ]

  All-differs :
      (x : ℕ) (c : Constraint) (ys : List ℕ) (ds : List Constraint)
      → get_elem? cs x ≡ some c
      → Points cs ys ds
      → All (λ d. c.column ≢ d.column) ds
      → All (λ y. (x == y) ≡ false) ys
  All-differs x c [] ds p q h = tt
  All-differs x c (y ∷ ys) [] p q h = absurd q
  All-differs x c (y ∷ ys) (d ∷ ds) p (at, q) (ne, h) =
      (index_differs x y c d p at ne, All-differs x c ys ds p q h)

  pub Points-Apart : (xs : List ℕ) (ds : List Constraint) → Points cs xs ds → Differ ds → Apart xs
  Points-Apart [] ds p h = tt
  Points-Apart (x ∷ xs) [] p h = absurd p
  Points-Apart (x ∷ xs) (d ∷ ds) (here, p) (ne, h) =
      (All-differs x d xs ds here p ne, Points-Apart xs ds p h)

abbrev pub At : ℕ → Option Constraint → Type 0
At n none = Unit {0}
At n (some c) = c.column ≡ pos n

pub first-At :
    (test : Constraint → Bool) (n : ℕ)
    → ((c : Constraint) → test c ≡ true → c.column ≡ pos n)
    → (cs : List Constraint) → At n (first test cs)
unfolding first
first-At test n h [] = tt
first-At test n h (c ∷ cs) = elim (Bool-cases (c.usable && test c)) [
  | inl here ↦ rw here (h c (ground arith))
  | inr later ↦ rw later (first-At test n h cs)
]

All-only :
    (c : Constraint) (n m : ℕ) (f : Option Constraint) (rest : List Constraint)
    → c.column ≡ pos n
    → (n == m) ≡ false
    → At m f
    → All (λ d. c.column ≢ d.column) rest
    → All (λ d. c.column ≢ d.column) (only f ++ rest)
All-only c n m none rest e ne at h = h
All-only c n m (some d) rest e ne at h = ((λ same. ground arith), h)

Differ-only :
    (f : Option Constraint) (rest : List Constraint)
    → ((c : Constraint) → f ≡ some c → All (λ d. c.column ≢ d.column) rest)
    → Differ rest
    → Differ (only f ++ rest)
Differ-only none rest h k = k
Differ-only (some c) rest h k = (h c refl, k)

At-some : (n : ℕ) (f : Option Constraint) (c : Constraint) → At n f → f ≡ some c → c.column ≡ pos n
At-some n f c at e = subst (At n) e at

pub Differ-five :
    (m l t s d : Option Constraint)
    → At 0 m
    → At 3 l
    → At 7 t
    → At 8 s
    → At 2 d
    → Differ (only m ++ (only l ++ (only t ++ (only s ++ (only d ++ [])))))
Differ-five m l t s d m0 l3 t7 s8 d2 =
    Differ-only m _
      (λ c e.
        let at = At-some 0 m c m0 e in
        All-only c 0 3 l _ at refl l3 (
          All-only c 0 7 t _ at refl t7
            (All-only c 0 8 s _ at refl s8 (All-only c 0 2 d _ at refl d2 tt))))
      (Differ-only l _
        (λ c e.
          let at = At-some 3 l c l3 e in
          All-only c 3 7 t _ at refl t7
            (All-only c 3 8 s _ at refl s8 (All-only c 3 2 d _ at refl d2 tt)))
        (Differ-only t _
          (λ c e.
            let at = At-some 7 t c t7 e in
            All-only c 7 8 s _ at refl s8 (All-only c 7 2 d _ at refl d2 tt))
          (Differ-only s _ (λ c e. All-only c 8 2 d _ (At-some 8 s c s8 e) refl d2 tt)
            (Differ-only d _ (λ c e. tt) tt))))

pub match-column : (c : Constraint) → is_match c ≡ true → c.column ≡ pos 0
match-column c h = ground (arith, eqb_ℤ→eq c.column (pos 0))

pub lang-column : (c : Constraint) → is_lang c ≡ true → c.column ≡ pos 3
lang-column c h = ground (arith, eqb_ℤ→eq c.column (pos 3))

pub top-column : (c : Constraint) → is_top c ≡ true → c.column ≡ pos 7
top-column c h = ground (arith, eqb_ℤ→eq c.column (pos 7))

pub scope-column : (c : Constraint) → is_scope c ≡ true → c.column ≡ pos 8
scope-column c h = ground (arith, eqb_ℤ→eq c.column (pos 8))

pub dist-column : (c : Constraint) → is_dist c ≡ true → c.column ≡ pos 2
dist-column c h = ground (arith, eqb_ℤ→eq c.column (pos 2))
