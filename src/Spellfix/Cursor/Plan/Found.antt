-- ===== src/Spellfix/Cursor/Plan/Found.antt =====
-- spellfix1BestIndex finds the first usable constraint of each kind.
use letarette.Base.{
  ℕ, suc, ◌+◌, ◌≡◌, refl, sym, ap, ◌∙◌, inl, inr, Bool, true, false, ◌&&◌, Option, none, some, List,
  [], ◌∷◌, arith, if◌then◌else◌, Bool-cases, get_elem?,
}
use mathlib.Core.Path.{subst}
use letarette.Spellfix.Cursor.Plan.{
  Constraint, Terms, no_terms, pick, see_constraint, see_constraints, is_match, is_lang, is_top,
  is_scope, is_dist, is_lt,
}

-- The specification: the first usable constraint that passes the test.
unfoldable pub first : (Constraint → Bool) → List Constraint → Option Constraint
first test [] = none
first test (c ∷ cs) = if c.usable && test c then some c else first test cs

pick_all : (Constraint → Bool) → ℕ → List Constraint → Option ℕ → Option ℕ
pick_all test i [] o = o
pick_all test i (c ∷ cs) o = pick_all test (i + 1) cs (pick (c.usable && test c) i o)

pick_all-some :
    (test : Constraint → Bool) (i j : ℕ) (cs : List Constraint)
    → pick_all test i cs (some j) ≡ some j
unfolding pick_all
pick_all-some test i j [] = refl
pick_all-some test i j (c ∷ cs) = pick_all-some test (i + 1) j cs

-- A field of the terms that takes the constraints that pass the test.
abbrev Takes : (Terms → Option ℕ) → (Constraint → Bool) → Type 0
Takes field test =
    (i : ℕ) (c : Constraint) (t : Terms)
    → field (see_constraint i c t) ≡ pick (c.usable && test c) i (field t)

see_constraints-pick_all :
    (field : Terms → Option ℕ) (test : Constraint → Bool)
    → Takes field test
    → (i : ℕ) (cs : List Constraint) (t : Terms)
    → field (see_constraints i cs t) ≡ pick_all test i cs (field t)
unfolding see_constraints pick_all
see_constraints-pick_all field test takes i [] t = refl
see_constraints-pick_all field test takes i (c ∷ cs) t =
    see_constraints-pick_all field test takes (i + 1) cs (see_constraint i c t)
    ∙ ap (pick_all test (i + 1) cs) (takes i c t)

pick-false : (i : ℕ) (o : Option ℕ) → o ≡ pick false i o
pick-false i none = refl
pick-false i (some j) = refl

skip : (i : ℕ) (c : Constraint) (t : Terms) → c.usable ≡ false → see_constraint i c t ≡ t
unfolding see_constraint
skip i c t skipped = ground arith

unused-pick :
    (field : Terms → Option ℕ) (test : Constraint → Bool)
    → ((i : ℕ) (c : Constraint) (t : Terms)
        → c.usable ≡ true
        → field (see_constraint i c t) ≡ pick (test c) i (field t))
    → Takes field test
unused-pick field test h i c t = elim (Bool-cases c.usable) [
  | inl used ↦ h i c t used ∙ ap (λ b. pick (b && test c) i (field t)) (sym used)
  | inr skipped ↦
      ap field (skip i c t skipped)
      ∙ pick-false i (field t)
      ∙ ap (λ b. pick (b && test c) i (field t)) (sym skipped)
]

-- The index that is found, from `i` on, is that of the first constraint.
abbrev pub FoundAt : ℕ → List Constraint → Option Constraint → Option ℕ → Type 0
FoundAt i cs none o = o ≡ none
FoundAt i cs (some c) o = (k : ℕ) × (o ≡ some (i + k)) × (get_elem? cs k ≡ some c)

pick_all-FoundAt :
    (test : Constraint → Bool) (i : ℕ) (cs : List Constraint)
    → FoundAt i cs (first test cs) (pick_all test i cs none)
unfolding first pick_all
pick_all-FoundAt test i [] = refl
pick_all-FoundAt test i (c ∷ cs) = elim (Bool-cases (c.usable && test c)) [
  | inl here ↦ rw here (0, pick_all-some test (i + 1) i cs ∙ ap some (omega arith), refl)
  | inr later ↦ rw later (shift (first test cs) (pick_all-FoundAt test (i + 1) cs))
]
  where
    shift :
        (f : Option Constraint)
        → FoundAt (i + 1) cs f (pick_all test (i + 1) cs none)
        → FoundAt i (c ∷ cs) f (pick_all test (i + 1) cs none)
    shift none e = e
    shift (some d) (k, e, at) = (suc k, e ∙ ap some (omega arith), at)

pub see_constraints-FoundAt :
    (field : Terms → Option ℕ) (test : Constraint → Bool)
    → Takes field test
    → (cs : List Constraint) → field no_terms ≡ none
    → FoundAt 0 cs (first test cs) (field (see_constraints 0 cs no_terms))
see_constraints-FoundAt field test takes cs e =
    subst (FoundAt 0 cs (first test cs))
      (sym (see_constraints-pick_all field test takes 0 cs no_terms ∙ ap (pick_all test 0 cs) e))
      (pick_all-FoundAt test 0 cs)

pub match-Takes : Takes (λ t. t.match) is_match
unfolding see_constraint
match-Takes = unused-pick (λ t. t.match) is_match λ i c t used. rw (used, see_constraint) refl

pub lang-Takes : Takes (λ t. t.lang) is_lang
unfolding see_constraint
lang-Takes = unused-pick (λ t. t.lang) is_lang λ i c t used. rw (used, see_constraint) refl

pub top-Takes : Takes (λ t. t.top) is_top
unfolding see_constraint
top-Takes = unused-pick (λ t. t.top) is_top λ i c t used. rw (used, see_constraint) refl

pub scope-Takes : Takes (λ t. t.scope) is_scope
unfolding see_constraint
scope-Takes = unused-pick (λ t. t.scope) is_scope λ i c t used. rw (used, see_constraint) refl

pub dist-Takes : Takes (λ t. t.dist) is_dist
unfolding see_constraint
dist-Takes = unused-pick (λ t. t.dist) is_dist λ i c t used. rw (used, see_constraint) refl

step_keeps :
    (i j : ℕ) (c : Constraint) (t : Terms)
    → t.dist ≡ some j
    → ((see_constraint i c t).dist ≡ some j) × ((see_constraint i c t).strict ≡ t.strict)
unfolding see_constraint
step_keeps i j c t e = ground arith

step_takes :
    (i : ℕ) (c : Constraint) (t : Terms)
    → t.dist ≡ none
    → (c.usable && is_dist c) ≡ true
    → ((see_constraint i c t).dist ≡ some i) × ((see_constraint i c t).strict ≡ is_lt c.op)
unfolding see_constraint
step_takes i c t e here = ground arith

step_passes :
    (i : ℕ) (c : Constraint) (t : Terms)
    → t.dist ≡ none
    → (c.usable && is_dist c) ≡ false
    → (see_constraint i c t).dist ≡ none
unfolding see_constraint
step_passes i c t e later = ground arith

strict-keeps :
    (i j : ℕ) (cs : List Constraint) (t : Terms)
    → t.dist ≡ some j
    → (see_constraints i cs t).strict ≡ t.strict
unfolding see_constraints
strict-keeps i j [] t e = refl
strict-keeps i j (c ∷ cs) t e =
    let (kept, same) = step_keeps i j c t e in
    strict-keeps (i + 1) j cs (see_constraint i c t) kept ∙ same

-- The plan tells `distance < ?` from `distance <= ?` by the constraint that it takes.
pub strict-first :
    (i : ℕ) (cs : List Constraint) (t : Terms) (d : Constraint)
    → t.dist ≡ none
    → first is_dist cs ≡ some d
    → (see_constraints i cs t).strict ≡ is_lt d.op
unfolding see_constraints first
strict-first i [] t d e f = cc
strict-first i (c ∷ cs) t d e f = elim (Bool-cases (c.usable && is_dist c)) [
  | inl here ↦
      let (taken, told) = step_takes i c t e here in
      let found : c ≡ d = ground arith in
      strict-keeps (i + 1) i cs (see_constraint i c t) taken
      ∙ told
      ∙ ap (λ (b : Constraint). is_lt b.op) found
  | inr later ↦
      strict-first (i + 1) cs (see_constraint i c t) d (step_passes i c t e later) (ground arith)
]
