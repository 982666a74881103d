-- ===== src/Spellfix/Cursor/Plan.antt =====
-- The query plan: spellfix1BestIndex, and how spellfix1FilterForMatch reads the arguments that the
-- plan asks for.
pub mod Found
pub mod Arguments
pub mod Columns
pub mod Reading
pub mod Limit
mod Examples
use letarette.Base.{
  ℕ, ◌+◌, ◌-◌, bit_and, Bool, true, false, ◌&&◌, ◌||◌, not, Option, none, some, List, [], ◌∷◌, ◌++◌,
  ◌==◌, if◌then◌else◌, ℤ, pos, pos_part, ltb_ℤ, eqb_ℤ,
}
use letarette.Sqlite.{Value}

pub data Op : Type 0 where
  eq lt le match other : Op

-- sqlite3_index_constraint, with the value on its right, which SQLite passes if the plan asks for it.
pub record Constraint : Type 0 where
  pub usable : Bool
  pub column : ℤ
  pub op : Op
  pub rhs : Value

abbrev is_eq : Op → Bool
is_eq Op.eq = true
is_eq _ = false

abbrev is_lt : Op → Bool
is_lt Op.lt = true
is_lt _ = false

abbrev is_le : Op → Bool
is_le Op.le = true
is_le _ = false

abbrev is_match_op : Op → Bool
is_match_op Op.match = true
is_match_op _ = false

abbrev pub is_match : Constraint → Bool
is_match c = eqb_ℤ c.column (pos 0) && is_match_op c.op

abbrev pub is_lang : Constraint → Bool
is_lang c = eqb_ℤ c.column (pos 3) && is_eq c.op

abbrev pub is_top : Constraint → Bool
is_top c = eqb_ℤ c.column (pos 7) && is_eq c.op

abbrev pub is_scope : Constraint → Bool
is_scope c = eqb_ℤ c.column (pos 8) && is_eq c.op

abbrev pub is_dist : Constraint → Bool
is_dist c = eqb_ℤ c.column (pos 2) && (is_lt c.op || is_le c.op)

abbrev pub is_rowid : Constraint → Bool
is_rowid c = ltb_ℤ c.column (pos 0) && is_eq c.op

-- The flags of iPlan, each with the index of its constraint; DISTLT and DISTLE are told apart by
-- `strict`.
pub record Terms : Type 0 where
  pub match : Option ℕ
  pub lang : Option ℕ
  pub top : Option ℕ
  pub scope : Option ℕ
  pub dist : Option ℕ
  pub strict : Bool
  pub rowid : Option ℕ

abbrev pub no_terms : Terms
no_terms = record {
  match = none;
  lang = none;
  top = none;
  scope = none;
  dist = none;
  strict = false;
  rowid = none;
}

-- A flag that is set stays with its constraint.
abbrev pub pick : Bool → ℕ → Option ℕ → Option ℕ
pick test i (some j) = some j
pick test i none = if test then some i else none

abbrev is_some : Option ℕ → Bool
is_some none = false
is_some (some i) = true

pub see_constraint : ℕ → Constraint → Terms → Terms
see_constraint i c t =
    if c.usable
    then record {
      match = pick (is_match c) i t.match;
      lang = pick (is_lang c) i t.lang;
      top = pick (is_top c) i t.top;
      scope = pick (is_scope c) i t.scope;
      dist = pick (is_dist c) i t.dist;
      strict = if not (is_some t.dist) && is_dist c then is_lt c.op else t.strict;
      rowid = pick (is_rowid c) i t.rowid;
    }
    else t

pub see_constraints : ℕ → List Constraint → Terms → Terms
unfolding see_constraint
see_constraints i [] t = t
see_constraints i (c ∷ cs) t = see_constraints (i + 1) cs (see_constraint i c t)

abbrev pub flag : Bool → ℕ → ℕ
flag set n = if set then n else 0

-- iPlan; the flags are distinct bits.
pub i_plan : Terms → ℕ
i_plan t =
    flag (is_some t.match) 1
    + flag (is_some t.lang) 2
    + flag (is_some t.top) 4
    + flag (is_some t.scope) 8
    + flag (is_some t.dist && t.strict) 16
    + flag (is_some t.dist && not t.strict) 32
    + flag (is_some t.rowid) 64

abbrev pub listed : Option ℕ → List ℕ
listed none = []
listed (some i) = i ∷ []

-- aConstraintUsage[t].argvIndex = idx++, for one constraint after the other; 0 is not passed.
pub assign : List ℕ → ℕ → (ℕ → ℕ) → ℕ → ℕ
assign [] idx usage = usage
assign (t ∷ ts) idx usage = assign ts (idx + 1) (λ i. if i == t then idx else usage i)

-- The constraints that are passed, in the order of their argvIndex.
pub passed : Terms → List ℕ
passed t = listed t.match ++ (listed t.lang ++ (listed t.top ++ (listed t.scope ++ listed t.dist)))

-- The columns of ORDER BY, each with `desc`: rows come by ascending score anyway.
pub takes_order : List (ℤ × Bool) → Bool
takes_order ((column, desc) ∷ []) = eqb_ℤ column (pos 4) && not desc
takes_order _ = false

-- idxNum, argvIndex with 0 for a constraint that is not passed, and orderByConsumed; `omit` is set
-- with argvIndex, and the estimated costs are left out.
pub record Plan : Type 0 where
  pub idx_num : ℕ
  pub argv_index : ℕ → ℕ
  pub order_by_consumed : Bool

pub plan_of : List (ℤ × Bool) → Terms → Plan
unfolding i_plan assign passed takes_order
plan_of order t = elim t.match [
  | some i ↦ record {
    idx_num = i_plan t;
    argv_index = assign (passed t) 1 (λ _. 0);
    order_by_consumed = takes_order order;
  }
  | none ↦ elim t.rowid [
    | some i ↦ record {
      idx_num = 64;
      argv_index = assign (i ∷ []) 1 (λ _. 0);
      order_by_consumed = false;
    }
    | none ↦ record { idx_num = 0; argv_index = λ _. 0; order_by_consumed = false }
  ]
]

pub best_index : List (ℤ × Bool) → List Constraint → Plan
unfolding see_constraints plan_of
best_index order cs = plan_of order (see_constraints 0 cs no_terms)

-- What spellfix1FilterForMatch takes from its arguments; iMaxDist is none where it is -1.
pub record Limits : Type 0 where
  pub pattern : Value
  pub i_lang : ℤ
  pub i_limit : ℕ
  pub i_scope : ℕ
  pub i_max_dist : Option ℕ

abbrev pub has_flag : ℕ → ℕ → Bool
has_flag idx_num bit = not (bit_and idx_num bit == 0)

-- argv[idx++], where the flag is set: the value, and the arguments behind it.
abbrev pub take_arg : Bool → List Value → Option (Option ℤ × List Value)
take_arg false argv = some (none, argv)
take_arg true [] = none
take_arg true (v ∷ argv) = some (some v.number, argv)

abbrev pub lang_of : Option ℤ → ℤ
lang_of none = pos 0
lang_of (some n) = n

abbrev pub limit_of : Option ℤ → ℕ
limit_of none = 20
limit_of (some n) = if ltb_ℤ n (pos 1) then 1 else pos_part n

abbrev pub scope_limit : Option ℤ → ℕ
scope_limit none = 3
scope_limit (some n) = if ltb_ℤ n (pos 1) then 1 else if ltb_ℤ (pos 30) n then 30 else pos_part n

-- A strict limit is one less, and the least limit is 0.
abbrev pub dist_limit : Bool → Option ℤ → Option ℕ
dist_limit strict none = none
dist_limit strict (some n) = some (if strict then pos_part n - 1 else pos_part n)

-- The flags are those of langid=, top=, scope=, of a limit on the distance, and of a strict one.
-- `none` is a read behind the arguments.
pub read_args : Bool → Bool → Bool → Bool → Bool → List Value → Option Limits
read_args lang top scope dist strict [] = none
read_args lang top scope dist strict (pattern ∷ argv) = elim (take_arg lang argv) [
  | none ↦ none
  | some (i_lang, argv1) ↦ elim (take_arg top argv1) [
    | none ↦ none
    | some (i_limit, argv2) ↦ elim (take_arg scope argv2) [
      | none ↦ none
      | some (i_scope, argv3) ↦ elim (take_arg dist argv3) [
        | none ↦ none
        | some (most, argv4) ↦ some (record {
          pattern = pattern;
          i_lang = lang_of i_lang;
          i_limit = limit_of i_limit;
          i_scope = scope_limit i_scope;
          i_max_dist = dist_limit strict most;
        })
      ]
    ]
  ]
]

unfoldable pub read_limits : ℕ → List Value → Option Limits
unfolding read_args
read_limits n argv =
    read_args (has_flag n 2) (has_flag n 4) (has_flag n 8) (has_flag n 48) (has_flag n 16) argv
