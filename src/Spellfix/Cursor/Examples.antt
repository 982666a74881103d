-- ===== src/Spellfix/Cursor/Examples.antt =====
-- Runs of the cursor and of its query, and their theorems at concrete inputs.
use letarette.Base.{
  ℕ, ◌+◌, ◌^◌, ◌≤◌, ◌<◌, ◌≡◌, refl, true, false, none, some, List, [], ◌∷◌, arith, length, pos,
  negsuc,
}
use mathlib.Core.Option
use letarette.Sqlite.{ok}
use letarette.Spellfix.Classes.{init_class, mid_class, class_name}
use letarette.Spellfix.Phonetic.{phonetic_hash}
use letarette.Spellfix.Cursor.{Row, Cursor, cells, score, log2_loop}
use letarette.Spellfix.Cursor.Query.{
  Fetched, MatchQuery, Search, hash_range, scope_of, mx_hash, run_rows, start, measure,
}
use letarette.Spellfix.Cursor.Query.Best.{IsBest, all_accepted, run_rows-IsBest}
use letarette.Spellfix.Cursor.Query.Range.{is_selected, starts_with, hash_range-selects}
use letarette.Spellfix.Cursor.Query.Safe.{IsSound, run_rows-IsSound}
use letarette.Spellfix.Cursor.Scan.{rowids}
use letarette.Spellfix.Cursor.Score.{score_bounds}

-- The array has room for two rows.
abbrev two_rows : Cursor
two_rows = record {
  z_pattern = none;
  idx_num = 5;
  rows = some [];
  n_alloc = 2;
  i_row = pos 0;
  i_lang = pos 0;
  i_top = pos 2;
  i_scope = 3;
  n_search = 0;
  full_scan = none;
}

abbrev fetched : ℕ → ℕ → Fetched
fetched id distance = record {
  id = pos id;
  word = b'a' ∷ [];
  rank = pos distance;
  k1 = none;
  edit_malloc = true;
  overflow = negsuc 0;
  mprintf = true;
  realloc = true;
}

-- The distance of a row is given, as its rank.
abbrev given_query : MatchQuery
given_query = record {
  z_pattern = b'a' ∷ [];
  core = some (λ f. (f.rank, negsuc 0));
  i_max_dist = none;
  has_top = true;
  hash = b'A' ∷ [];
}

abbrev three_fetched : List Fetched
three_fetched = fetched 1 300 ∷ fetched 2 100 ∷ fetched 3 200 ∷ []

-- The row with the greatest distance makes room for the last one.
best_two :
    Option.map
      (λ (s : Search). rowids (cells s.cursor.rows))
      (run_rows given_query three_fetched (start two_rows))
    ≡ some (pos 3 ∷ pos 2 ∷ [])
unfolding run_rows score log2_loop
best_two = refl

run_rows-IsBest_example :
    (s : Search) × (run_rows given_query three_fetched (start two_rows) ≡ some s)
    × (s.rc ≡ ok)
    × (kept : List Row) × (s.cursor.rows ≡ some kept)
    × IsBest given_query 2 kept (all_accepted given_query three_fetched)
unfolding measure
run_rows-IsBest_example =
    run_rows-IsBest given_query three_fetched two_rows refl (omega arith)
      ((tt, refl, refl), ((tt, refl, refl), ((tt, refl, refl), tt)))

score_of_five : score 100 (pos 5) ≡ 129
unfolding score log2_loop
score_of_five = refl

score_bounds_example :
    (digits : ℕ) × (score 100 (pos 5) + digits ≡ 132)
    × (101 ≤ score 100 (pos 5))
    × (score 100 (pos 5) ≤ 132)
    × (5 < 2 ^ digits)
    × (1 ≤ 5 → 2 ^ digits ≤ 10)
    × (◌≡◌ {A = ℕ} 5 0 → digits ≡ 0)
score_bounds_example = score_bounds 100 (pos 5) (omega arith)

-- "bob", whose hash is "BAB".
abbrev hash_of_bob : List ℕ
hash_of_bob = b'B' ∷ b'A' ∷ b'B' ∷ []

hash_range-selects_example :
    (is_selected (hash_range 3 hash_of_bob) hash_of_bob
      ≡ starts_with (hash_range 3 hash_of_bob).0 hash_of_bob)
    × (length (hash_range 3 hash_of_bob).0 ≡ scope_of 3 3)
    × (scope_of 3 3 ≤ 3)
    × (length (hash_range 3 hash_of_bob).0 + 1 ≤ mx_hash)
    × (length (hash_range 3 hash_of_bob).1 + 1 ≤ mx_hash)
unfolding phonetic_hash init_class mid_class class_name
hash_range-selects_example =
    hash_range-selects 3 true hash_of_bob (b'b' ∷ b'o' ∷ b'b' ∷ []) hash_of_bob refl

-- The second row has no memory for its word.
abbrev failing : List Fetched
failing = fetched 1 300 ∷ record (fetched 2 100) { mprintf = false } ∷ []

run_rows-IsSound_example :
    (s : Search) × (run_rows given_query failing (start two_rows) ≡ some s) × IsSound s
run_rows-IsSound_example = run_rows-IsSound given_query failing two_rows refl (omega arith)
