-- ===== src/Spellfix/Cursor/Plan/Limit.antt =====
-- The limit on the rows is never less than one row.
use letarette.Base.{
  ℕ, ◌≤◌, ◌≡◌, inl, inr, Bool, Option, none, some, List, [], ◌∷◌, arith, Option-cases, ℤ, pos,
  negsuc,
}
use mathlib.Core.Path.{subst}
use letarette.Sqlite.{Value}
use letarette.Spellfix.Cursor.Plan.{Limits, take_arg, limit_of, has_flag, read_args, read_limits}

limit_of-positive : (n : Option ℤ) → 1 ≤ limit_of n
limit_of-positive none = omega arith
limit_of-positive (some (pos n)) = ground arith
limit_of-positive (some (negsuc n)) = ground arith

abbrev SomeRow : Option Limits → Type 0
SomeRow none = Unit
SomeRow (some l) = 1 ≤ l.i_limit

read_args-SomeRow :
    (lang top scope dist strict : Bool) (argv : List Value)
    → SomeRow (read_args lang top scope dist strict argv)
unfolding read_args
read_args-SomeRow lang top scope dist strict [] = tt
read_args-SomeRow lang top scope dist strict (p ∷ argv) = elim (Option-cases (take_arg lang argv)) [
  | inl missing ↦ rw (missing, read_args) tt
  | inr ((i_lang, argv1), taken1) ↦ elim (Option-cases (take_arg top argv1)) [
    | inl missing ↦ rw (taken1, missing, read_args) tt
    | inr ((i_limit, argv2), taken2) ↦ elim (Option-cases (take_arg scope argv2)) [
      | inl missing ↦ rw (taken1, taken2, missing, read_args) tt
      | inr ((i_scope, argv3), taken3) ↦ elim (Option-cases (take_arg dist argv3)) [
        | inl missing ↦ rw (taken1, taken2, taken3, missing, read_args) tt
        | inr (most, taken4) ↦
            rw (taken1, taken2, taken3, taken4, read_args) (limit_of-positive i_limit)
      ]
    ]
  ]
]

pub read_limits-limit :
    (n : ℕ) (argv : List Value) (l : Limits) → read_limits n argv ≡ some l → 1 ≤ l.i_limit
unfolding read_limits
read_limits-limit n argv l e = subst SomeRow e (
    read_args-SomeRow (has_flag n 2) (has_flag n 4) (has_flag n 8) (has_flag n 48) (has_flag n 16)
      argv)
