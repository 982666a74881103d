-- ===== src/Spellfix/Config/Examples.antt =====
-- Runs of the cost tables, and their theorems at a concrete table.
use letarette.Base.{ℕ, ◌≤◌, ◌≡◌, refl, true, List, [], ◌∷◌, arith, length, All, pos}
use mathlib.Core.List.{Perm}
use letarette.Sqlite.{ok}
use letarette.Spellfix.Config.{
  Cost, default_lang, cost_sort, fill_slots, CostRow, Table, config_load, find_lang,
}
use letarette.Spellfix.Config.Sort.{IsSorted, cost_sort-IsSorted}
use letarette.Spellfix.Config.Slots.{fill_slots-le}
use letarette.Spellfix.Config.Load.{IsLoaded, HasSorted, config_load-IsLoaded}

abbrev costs_from : List ℕ → List ℕ → ℕ → Cost
costs_from from to cost = record { from = from; to = to; i_cost = cost }

-- "ss" to "s", "a" to "e", nothing to "h".
abbrev three_costs : List Cost
three_costs =
    costs_from (b's' ∷ b's' ∷ []) (b's' ∷ []) 30
    ∷ costs_from (b'a' ∷ []) (b'e' ∷ []) 40
    ∷ costs_from [] (b'h' ∷ []) 10
    ∷ []

sorted_costs :
    cost_sort three_costs
    ≡ costs_from [] (b'h' ∷ []) 10
      ∷ costs_from (b'a' ∷ []) (b'e' ∷ []) 40
      ∷ costs_from (b's' ∷ b's' ∷ []) (b's' ∷ []) 30
      ∷ []
unfolding cost_sort
sorted_costs = refl

abbrev row : ℕ → List ℕ → List ℕ → ℕ → CostRow
row lang from to cost = record {
  i_lang = pos lang;
  from = from;
  to = to;
  i_cost = pos cost;
  realloc = true;
  malloc = true;
}

-- A default cost and an entry for language 0, a cost that is too large, and an entry for language 1.
abbrev table : Table
table = record {
  mprintf = true;
  prepare = ok;
  rows =
      row 0 (b'?' ∷ []) [] 50
      ∷ row 0 (b'a' ∷ []) (b'e' ∷ []) 40
      ∷ row 0 (b'a' ∷ []) (b'i' ∷ []) 10000
      ∷ row 1 [] (b'h' ∷ []) 10
      ∷ [];
  finalize = ok;
}

loaded : (config_load table []).0 ≡ ok
unfolding config_load
loaded = refl

first_language : find_lang (config_load table []).1 (pos 0) ≡ record {
  i_lang = pos 0;
  i_ins_cost = 100;
  i_del_cost = 50;
  i_sub_cost = 150;
  costs = costs_from (b'a' ∷ []) (b'e' ∷ []) 40 ∷ [];
}
unfolding config_load find_lang
first_language = refl

other_language : find_lang (config_load table []).1 (pos 7) ≡ default_lang
unfolding config_load find_lang
other_language = refl

cost_sort-IsSorted_example :
    IsSorted (cost_sort three_costs) × Perm (cost_sort three_costs) three_costs
cost_sort-IsSorted_example = cost_sort-IsSorted three_costs

fill_slots-le_example : length (fill_slots three_costs ([] ∷ [])) ≤ 59
fill_slots-le_example = fill_slots-le three_costs (omega arith)

config_load-IsLoaded_example :
    All IsLoaded (config_load table []).1
    × IsLoaded (find_lang (config_load table []).1 (pos 0))
    × ((config_load table []).0 ≡ ok → All HasSorted (config_load table []).1)
config_load-IsLoaded_example = config_load-IsLoaded table [] (pos 0) tt
