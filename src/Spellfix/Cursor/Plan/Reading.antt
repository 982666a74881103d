-- ===== src/Spellfix/Cursor/Plan/Reading.antt =====
-- spellfix1FilterForMatch reads the limits that the query states, through the plan of
-- spellfix1BestIndex.
use letarette.Base.{
  ℕ, ◌+◌, ◌≡◌, refl, sym, ap, ◌∙◌, inl, inr, Bool, true, false, ◌&&◌, Option, none, some, List, [],
  ◌++◌, append-nil, arith, Option-cases, ℤ,
}
use mathlib.Core.Path.{subst}
use letarette.Sqlite.{Value}
use letarette.Spellfix.Cursor.Plan.{
  Constraint, Terms, no_terms, see_constraints, is_some, is_lt, is_match, is_lang, is_top, is_scope,
  is_dist, listed, passed, plan_of, best_index, assign, i_plan, read_args, read_limits, Limits,
  lang_of, limit_of, scope_limit, dist_limit,
}
use letarette.Spellfix.Cursor.Plan.Found.{
  first, FoundAt, see_constraints-FoundAt, strict-first, match-Takes, lang-Takes, top-Takes,
  scope-Takes, dist-Takes,
}
use letarette.Spellfix.Cursor.Plan.Arguments.{IsPassed, Points, values, passed-begins, flags_read}
use letarette.Spellfix.Cursor.Plan.Columns.{
  only, Differ, At, FoundAt-Points, Points-append, Points-Apart, first-At, Differ-five,
  match-column, lang-column, top-column, scope-column, dist-column,
}

abbrev given : Option Constraint → Bool
given none = false
given (some c) = true

abbrev number_of : Option Constraint → Option ℤ
number_of none = none
number_of (some c) = some c.rhs.number

abbrev strict_of : Option Constraint → Bool
strict_of none = false
strict_of (some c) = is_lt c.op

is_some-given :
    (cs : List Constraint) (f : Option Constraint) (o : Option ℕ)
    → FoundAt 0 cs f o
    → is_some o ≡ given f
is_some-given cs none o e = ap is_some e
is_some-given cs (some c) o (k, e, at) = ap is_some e

-- What the query states: the value of the first usable constraint of each kind.
abbrev pub stated : List Constraint → Constraint → Limits
stated cs m = record {
  pattern = m.rhs;
  i_lang = lang_of (number_of (first is_lang cs));
  i_limit = limit_of (number_of (first is_top cs));
  i_scope = scope_limit (number_of (first is_scope cs));
  i_max_dist = dist_limit (strict_of (first is_dist cs)) (number_of (first is_dist cs));
}

read_args-values :
    (m : Constraint) (l t s d : Option Constraint) (rest : List Value)
    → read_args
        (given l)
        (given t)
        (given s)
        (given d)
        (strict_of d)
        (values (only (some m) ++ (only l ++ (only t ++ (only s ++ (only d ++ []))))) ++ rest)
      ≡ some (record {
        pattern = m.rhs;
        i_lang = lang_of (number_of l);
        i_limit = limit_of (number_of t);
        i_scope = scope_limit (number_of s);
        i_max_dist = dist_limit (strict_of d) (number_of d);
      })
unfolding read_args
read_args-values m none none none none rest = refl
read_args-values m none none none (some d) rest = refl
read_args-values m none none (some s) none rest = refl
read_args-values m none none (some s) (some d) rest = refl
read_args-values m none (some t) none none rest = refl
read_args-values m none (some t) none (some d) rest = refl
read_args-values m none (some t) (some s) none rest = refl
read_args-values m none (some t) (some s) (some d) rest = refl
read_args-values m (some l) none none none rest = refl
read_args-values m (some l) none none (some d) rest = refl
read_args-values m (some l) none (some s) none rest = refl
read_args-values m (some l) none (some s) (some d) rest = refl
read_args-values m (some l) (some t) none none rest = refl
read_args-values m (some l) (some t) none (some d) rest = refl
read_args-values m (some l) (some t) (some s) none rest = refl
read_args-values m (some l) (some t) (some s) (some d) rest = refl

strict-of :
    (cs : List Constraint) (t : Terms)
    → t ≡ see_constraints 0 cs no_terms
    → is_some t.dist ≡ given (first is_dist cs)
    → (is_some t.dist && t.strict) ≡ strict_of (first is_dist cs)
strict-of cs t e same = elim (Option-cases (first is_dist cs)) [
  | inl no_limit ↦ rw no_limit (ground (arith, same, ap given no_limit))
  | inr (d, limit) ↦
      let told : t.strict ≡ is_lt d.op =
        ap (λ (u : Terms). u.strict) e ∙ strict-first 0 cs no_terms d refl limit in
      rw limit (ground (arith, same, ap given limit, told))
]

plan-match :
    (order : List (ℤ × Bool)) (t : Terms) (i : ℕ)
    → t.match ≡ some i
    → ((plan_of order t).idx_num ≡ i_plan t)
      × ((plan_of order t).argv_index ≡ assign (passed t) 1 (λ _. 0))
unfolding plan_of
plan-match order t i e = (ground arith, ground arith)

-- The constraints that were found, with their columns, and the plan made of them.
read-plan_of :
    (order : List (ℤ × Bool)) (cs : List Constraint) (argv : List Value) (u : Terms)
    (m : Constraint) (l t s d : Option Constraint)
    → FoundAt 0 cs (some m) u.match
    → FoundAt 0 cs l u.lang
    → FoundAt 0 cs t u.top
    → FoundAt 0 cs s u.scope
    → FoundAt 0 cs d u.dist
    → Differ (only (some m) ++ (only l ++ (only t ++ (only s ++ (only d ++ [])))))
    → (is_some u.dist && u.strict) ≡ strict_of d
    → IsPassed cs (plan_of order u).argv_index argv
    → read_limits (plan_of order u).idx_num argv
      ≡ some (record {
        pattern = m.rhs;
        i_lang = lang_of (number_of l);
        i_limit = limit_of (number_of t);
        i_scope = scope_limit (number_of s);
        i_max_dist = dist_limit (strict_of d) (number_of d);
      })
unfolding read_limits i_plan passed
read-plan_of order cs argv u m l t s d fm fl ft fs fd differ strict passing =
    let (number, usage) = plan-match order u (0 + fm.0) fm.1 in
    let xs : List ℕ =
      listed u.match
      ++ (listed u.lang ++ (listed u.top ++ (listed u.scope ++ (listed u.dist ++ [])))) in
    let list : passed u ≡ xs =
      ap (λ z. listed u.match ++ (listed u.lang ++ (listed u.top ++ (listed u.scope ++ z))))
        (sym (append-nil (listed u.dist))) in
    let points : Points cs xs
        (only (some m) ++ (only l ++ (only t ++ (only s ++ (only d ++ []))))) =
      Points-append cs _ _ _ _ (FoundAt-Points cs (some m) u.match fm) (
        Points-append cs _ _ _ _ (FoundAt-Points cs l u.lang fl) (
          Points-append cs _ _ _ _ (FoundAt-Points cs t u.top ft) (
            Points-append cs _ _ _ _ (FoundAt-Points cs s u.scope fs)
              (Points-append cs _ _ _ _ (FoundAt-Points cs d u.dist fd) tt)))) in
    let told : IsPassed cs (assign xs 1 (λ _. 0)) argv =
      subst (λ usage. IsPassed cs usage argv) (usage ∙ ap (λ z. assign z 1 (λ _. 0)) list)
        passing in
    let (rest, begins) =
      passed-begins cs xs _ argv points (Points-Apart cs xs _ points differ) told in
    let (f2, f4, f8, f48, f16) =
      flags_read (is_some u.match) (is_some u.lang) (is_some u.top) (is_some u.scope)
        (is_some u.dist) u.strict (is_some u.rowid) in
    let h2 = f2 ∙ is_some-given cs l u.lang fl in
    let h4 = f4 ∙ is_some-given cs t u.top ft in
    let h8 = f8 ∙ is_some-given cs s u.scope fs in
    let h48 = f48 ∙ is_some-given cs d u.dist fd in
    let h16 = f16 ∙ strict in
    ap (λ n. read_limits n argv) number
    ∙ ap (read_limits (i_plan u)) begins
    ∙ (λ i.
        read_args (h2 i) (h4 i) (h8 i) (h48 i) (h16 i)
          (values (only (some m) ++ (only l ++ (only t ++ (only s ++ (only d ++ []))))) ++ rest))
    ∙ read_args-values m l t s d rest

-- SQLite passes the values that the plan asks for, and `m` is the first usable `word MATCH` of the
-- query. Then the arguments are read without a fault, as what the query states: the pattern is that
-- of `m`, and the language, the number of rows, the scope and the greatest distance come from the
-- first usable langid=, top=, scope= and limit on the distance, or are 0, 20, 3 and none.
pub read_limits-best_index :
    (order : List (ℤ × Bool)) (cs : List Constraint) (m : Constraint) (argv : List Value)
    → first is_match cs ≡ some m
    → IsPassed cs (best_index order cs).argv_index argv
    → read_limits (best_index order cs).idx_num argv ≡ some (stated cs m)
unfolding best_index
read_limits-best_index order cs m argv asked passing =
    let u : Terms = see_constraints 0 cs no_terms in
    let fm = see_constraints-FoundAt (λ t. t.match) is_match match-Takes cs refl in
    let fl = see_constraints-FoundAt (λ t. t.lang) is_lang lang-Takes cs refl in
    let ft = see_constraints-FoundAt (λ t. t.top) is_top top-Takes cs refl in
    let fs = see_constraints-FoundAt (λ t. t.scope) is_scope scope-Takes cs refl in
    let fd = see_constraints-FoundAt (λ t. t.dist) is_dist dist-Takes cs refl in
    let differ =
      Differ-five (some m) (first is_lang cs) (first is_top cs) (first is_scope cs)
        (first is_dist cs) (subst (At 0) asked (first-At is_match 0 match-column cs))
        (first-At is_lang 3 lang-column cs) (first-At is_top 7 top-column cs)
        (first-At is_scope 8 scope-column cs) (first-At is_dist 2 dist-column cs) in
    read-plan_of order cs argv u m _ _ _ _ (subst (λ f. FoundAt 0 cs f u.match) asked fm) fl ft fs
      fd differ (strict-of cs u refl (is_some-given cs _ u.dist fd)) passing
