-- ===== src/Snowball/Setup/Examples.antt =====
-- The theorems on starting and stopping the tokenizer at concrete inputs.
use letarette.Base.{◌≡◌, refl, Bool, true, false, none, some, List, [], ◌∷◌, pos}
use letarette.Sqlite.{ok, error}
use letarette.Snowball.Setup.{
  Heap, Language, Environment, Options, fts5_api_from_db, failed, init_snowball_stemmer,
  fts_snowball_create, fts_snowball_delete, prepare_statement, registered, with_stemmers,
  register_module, allocate_stemmer_list, fill_stemmer_list, destroy_stemmer_module,
}
use letarette.Snowball.Setup.Lifetime.{started, init_snowball_stemmer_leak, module_of}
use letarette.Snowball.Setup.Instances.{Event, create, prepare, delete, run, run_leak}

abbrev bare : Heap
bare = record {
  modules = 0;
  lists = 0;
  stemmers = 0;
  arrays = 0;
  strings = 0;
  instances = 0;
  parents = 0;
  statements = 0;
}

abbrev english : Language
english = 101 ∷ 110 ∷ []

abbrev options : Options
options = record {
  languages = english ∷ [];
  diacritics = pos 2;
  token_characters = some (45 ∷ []);
  separators = none;
  min_token_length = pos 2;
}

abbrev environment : Bool → Environment
environment found = record {
  module_memory = true;
  list_memory = true;
  args_memory = true;
  knows = λ l. true;
  prepare = ok;
  found = found;
  create_tokenizer = ok;
}

init_snowball_stemmer_leak_example :
    init_snowball_stemmer (environment false) options bare ≡ (failed error, started options bare)
unfolding fts5_api_from_db
init_snowball_stemmer_leak_example =
    init_snowball_stemmer_leak (environment false) options bare (λ e. cc) refl refl refl (refl, tt)
      refl

-- Two instances, of which one prepares a statement.
abbrev calls : List Event
calls =
    create true ok ok
    ∷ create true ok error
    ∷ prepare ok
    ∷ create true ok ok
    ∷ prepare error
    ∷ delete
    ∷ delete
    ∷ []

abbrev leaked : Heap
leaked = record bare { statements = 1 }

start_succeeds :
    init_snowball_stemmer (environment true) options bare
    ≡ (registered (module_of options), started options bare)
unfolding init_snowball_stemmer with_stemmers register_module allocate_stemmer_list
    fill_stemmer_list fts5_api_from_db
start_succeeds = refl

all_served : run calls 0 (started options bare) ≡ some (0, started options leaked)
unfolding run fts_snowball_create prepare_statement fts_snowball_delete
all_served = refl

run_leak_example : destroy_stemmer_module (module_of options) (started options leaked) ≡ some leaked
run_leak_example =
    run_leak (environment true) options calls (module_of options) bare (started options bare)
      (started options leaked) (λ e. cc) start_succeeds all_served
