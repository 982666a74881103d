-- ===== src/Spellfix/Edit3/Examples.antt =====
-- Runs of editdist3, and its theorems at concrete strings.
use letarette.Base.{
  ℕ, ◌≡◌, ◌≤◌, refl, inr, ◌⊎◌, true, false, none, some, List, [], ◌∷◌, arith, length, take, All,
  pos,
}
use letarette.Sqlite.{Answer, ok, no_mem}
use letarette.Spellfix.Config.{Cost, Lang, Table, find_lang}
use letarette.Spellfix.Config.Load.{IsLoaded}
use letarette.Spellfix.Edit3.{
  FromString, to_chars, all_updates, count_chars, utf8_len, is_prefix_pattern, without_star,
  from_string_new, edit_dist3_core, edit_dist3_sql_func, load_costs,
}
use letarette.Spellfix.Edit3.Script.{Edit, Script}
use letarette.Spellfix.Edit3.Settled.{plain}
use letarette.Spellfix.Edit3.Optimal.{edit_dist3_core-IsLeast}
use letarette.Spellfix.Edit3.Updates.{from_string}
use letarette.Spellfix.Edit3.Reached.{InMatrix, updates_fit}
use letarette.Spellfix.Edit3.Distance.{
  IsDistance, edit_dist3_core-IsDistance, edit_dist3_sql_func-load_costs,
}

abbrev cost : List ℕ → List ℕ → ℕ → Cost
cost from to i_cost = record { from = from; to = to; i_cost = i_cost }

-- Nothing to "h", "f" to "ph", and "c" to nothing.
abbrev lang : Lang
lang = record {
  i_lang = pos 0;
  i_ins_cost = 100;
  i_del_cost = 90;
  i_sub_cost = 150;
  costs =
      cost [] (b'h' ∷ []) 10 ∷ cost (b'c' ∷ []) [] 20 ∷ cost (b'f' ∷ []) (b'p' ∷ b'h' ∷ []) 30 ∷ [];
}

abbrev run : List ℕ → List ℕ → Answer
run z1 z2 = edit_dist3_sql_func true true true true (lang ∷ []) (some z1) z2 none

same : run (b's' ∷ b'a' ∷ []) (b's' ∷ b'a' ∷ []) ≡ Answer.int (pos 0)
unfolding edit_dist3_sql_func
same = refl

changed : run (b'f' ∷ b'a' ∷ []) (b'p' ∷ b'h' ∷ b'e' ∷ []) ≡ Answer.int (pos 180)
unfolding edit_dist3_sql_func
changed = refl

deleted : run (b's' ∷ b'c' ∷ b'a' ∷ []) (b's' ∷ b'a' ∷ []) ≡ Answer.int (pos 20)
unfolding edit_dist3_sql_func
deleted = refl

-- The insertion that is configured is used in front of a character of FROM, and not at its end.
inserted : run (b's' ∷ b'a' ∷ []) (b's' ∷ b'h' ∷ b'a' ∷ []) ≡ Answer.int (pos 10)
unfolding edit_dist3_sql_func
inserted = refl

inserted_last : run (b's' ∷ []) (b's' ∷ b'h' ∷ []) ≡ Answer.int (pos 100)
unfolding edit_dist3_sql_func
inserted_last = refl

prefix : run (b's' ∷ b'*' ∷ []) (b's' ∷ b'h' ∷ b'a' ∷ []) ≡ Answer.int (pos 0)
unfolding edit_dist3_sql_func
prefix = refl

null_text : edit_dist3_sql_func true true true true [] none (b's' ∷ []) none ≡ Answer.error no_mem
unfolding edit_dist3_sql_func
null_text = refl

abbrev fa : List ℕ
fa = b'f' ∷ b'a' ∷ b'*' ∷ []

abbrev phase : List ℕ
phase = b'p' ∷ b'h' ∷ b'a' ∷ b's' ∷ b'e' ∷ []

lang-IsLoaded : IsLoaded lang
lang-IsLoaded = record {
  ins = omega arith;
  del = omega arith;
  sub = omega arith;
  fits = ground arith;
}

plain_lang-IsLoaded : IsLoaded (plain lang)
plain_lang-IsLoaded = record { ins = omega arith; del = omega arith; sub = omega arith; fits = tt }

edit_dist3_core-IsDistance_example :
    (f : FromString) × (d : ℕ) × (n : ℕ) × (from_string_new true true lang (some fa) ≡ some f)
    × (edit_dist3_core true true lang f phase ≡ (pos d, count_chars (take n phase)))
    × ((n ≡ length phase) ⊎ (is_prefix_pattern fa ≡ true))
    × IsDistance lang (without_star fa) phase n d
edit_dist3_core-IsDistance_example =
    edit_dist3_core-IsDistance lang fa phase lang-IsLoaded (ground arith) (ground arith)

abbrev table : Table
table = record {
  mprintf = true;
  prepare = ok;
  rows =
      record {
        i_lang = pos 1;
        from = b'f' ∷ [];
        to = b'p' ∷ b'h' ∷ [];
        i_cost = pos 30;
        realloc = true;
        malloc = true;
      }
      ∷ [];
  finalize = ok;
}

edit_dist3_sql_func-load_costs_example :
    (d : ℕ) × (n : ℕ) × (edit_dist3_sql_func true true true true
        (load_costs table []).1
        (some fa)
        phase
        (some (pos 1))
      ≡ Answer.int (pos d))
    × ((n ≡ length phase) ⊎ (is_prefix_pattern fa ≡ true))
    × IsDistance (find_lang (load_costs table []).1 (pos 1)) (without_star fa) phase n d
edit_dist3_sql_func-load_costs_example =
    edit_dist3_sql_func-load_costs table [] fa phase (pos 1) tt (ground arith) (ground arith)

updates_fit_example :
    All
      (InMatrix fa phase)
      (all_updates lang (from_string lang fa false) (to_chars lang phase) phase)
updates_fit_example = updates_fit lang fa phase false (ground arith) (ground arith)

-- 'f' is changed to 'p', an 'h' comes in, and the 'a' stays.
script : Script (plain lang) (without_star fa) phase (length (without_star fa)) 3 250
unfolding without_star utf8_len
script =
    let changed : Script (plain lang) (b'f' ∷ b'a' ∷ []) phase 1 1 150 =
      Script.step 0 0 0 1 1 150 (Script.start refl refl refl)
        (Edit.substitute (omega arith) (omega arith) refl refl refl) refl refl refl in
    let inserted : Script (plain lang) (b'f' ∷ b'a' ∷ []) phase 1 2 250 =
      Script.step 1 1 150 0 1 100 changed (Edit.insert (omega arith) refl refl refl) refl refl
        refl in
    Script.step 1 2 250 1 1 0 inserted
      (Edit.keep (omega arith) (omega arith) refl refl (b's' ∷ b'e' ∷ [], refl) refl) refl refl refl

edit_dist3_core-IsLeast_example :
    (f : FromString) × (d : ℕ) × (n : ℕ) × (from_string_new true true (plain lang) (some fa)
      ≡ some f)
    × (edit_dist3_core true true (plain lang) f phase ≡ (pos d, count_chars (take n phase)))
    × (d ≤ 250)
    × ((n ≡ length phase) ⊎ (is_prefix_pattern fa ≡ true))
    × IsDistance (plain lang) (without_star fa) phase n d
unfolding is_prefix_pattern
edit_dist3_core-IsLeast_example =
    edit_dist3_core-IsLeast lang fa phase 3 250 plain_lang-IsLoaded (ground arith) (ground arith)
      (omega arith) (inr refl) script
