-- ===== src/Snowball/Setup/Lifetime.antt =====
-- What starting the tokenizer makes of its options, and what it leaves allocated.
use letarette.Base.{
  ◌+◌, ◌%◌, ◌≤◌, ◌≡◌, refl, ◌≢◌, ◌⊎◌, inl, inr, true, false, some, [], arith, Bool-cases, length,
}
use letarette.Sqlite.{Rc, error, is_ok}
use letarette.Snowball.Setup.{
  Heap, StemmerList, stemmers, StemmerModule, Environment, Options, parent_args, fts5_api_from_db,
  Outcome, failed, registered, fault, register_module, with_stemmers, init_snowball_stemmer,
  destroy_stemmer_module,
}
use letarette.Snowball.Setup.StemmerLists.{
  listed, free_stemmer_list_lem, AllKnown, IsFilled, allocate_stemmer_list-IsFilled,
  allocate_stemmer_list-known,
}

-- The heap with a module, its stemmers and its arguments more.
abbrev pub started : Options → Heap → Heap
started o h = record h {
  modules = h.modules + 1;
  lists = h.lists + 1;
  stemmers = h.stemmers + length o.languages;
  arrays = h.arrays + 1;
  strings = h.strings + length (parent_args o);
}

abbrev pub module_of : Options → StemmerModule
module_of o = record {
  stemmers = stemmers o.languages;
  min_token_length = o.min_token_length;
  parent_args = parent_args o;
}

-- Why starting fails after all was allocated: FTS5 was not found, or it did not take the module.
abbrev pub IsRefused : Environment → Rc → Type 0
IsRefused env rc =
    ((fts5_api_from_db env ≡ false) × (rc ≡ error))
    ⊎ ((fts5_api_from_db env ≡ true) × (is_ok rc ≡ false) × (rc ≡ env.create_tokenizer))

-- The outcomes of starting the tokenizer.
abbrev pub IsStart : Environment → Options → Heap → Outcome × Heap → Type 0
IsStart env o h (failed rc, h') =
    ((rc ≡ error) × (h' ≡ h))
    ⊎ (AllKnown env.knows o.languages × IsRefused env rc × (h' ≡ started o h))
IsStart env o h (registered m, h') =
    (is_ok env.create_tokenizer ≡ true)
    × (m ≡ module_of o)
    × AllKnown env.knows o.languages
    × (h' ≡ started o h)
    × (destroy_stemmer_module m h' ≡ some h)
IsStart env o h (fault, h') = env.args_memory ≡ false

pub destroy-started :
    (o : Options) (h : Heap) → destroy_stemmer_module (module_of o) (started o h) ≡ some h
unfolding destroy_stemmer_module
destroy-started o h = rw (free_stemmer_list_lem o.languages (started o h)) (ground arith)

register_module-IsStart :
    (env : Environment) (o : Options) (h : Heap)
    → AllKnown env.knows o.languages
    → IsStart env o h (
        register_module env o
          (stemmers o.languages)
          (listed (length o.languages) (record h { modules = h.modules + 1 })))
unfolding register_module
register_module-IsStart env o h known = elim (Bool-cases env.args_memory) [
  | inr missing ↦ rw missing refl
  | inl granted ↦ elim (Bool-cases (fts5_api_from_db env)) [
    | inr absent ↦ rw (granted, absent) (inr (known, inl (absent, refl), refl))
    | inl found ↦ elim (Bool-cases (is_ok env.create_tokenizer)) [
      | inr refused ↦ rw (granted, found, refused) (inr (known, inr (found, refused, refl), refl))
      | inl taken ↦ rw (granted, found, taken) (taken, refl, known, refl, destroy-started o h)
    ]
  ]
]

with_stemmers-IsStart :
    (env : Environment) (o : Options) (h : Heap) (r : StemmerList × Heap)
    → IsFilled env.knows o.languages (record h { modules = h.modules + 1 }) r
    → IsStart env o h (with_stemmers env o r)
unfolding with_stemmers
with_stemmers-IsStart env o h (list, g) (inl (filled, known, e)) =
    rw (filled, e) (register_module-IsStart env o h known)
with_stemmers-IsStart env o h (list, g) (inr (empty, e)) = rw (empty, e) (inl (refl, ground arith))

pub init_snowball_stemmer-IsStart :
    (env : Environment) (o : Options) (h : Heap)
    → o.languages ≢ []
    → IsStart env o h (init_snowball_stemmer env o h)
unfolding init_snowball_stemmer
init_snowball_stemmer-IsStart env o h ne = elim (Bool-cases env.module_memory) [
  | inr missing ↦ rw missing (inl (refl, refl))
  | inl granted ↦ rw granted (
      with_stemmers-IsStart env o h _
        (allocate_stemmer_list-IsFilled env o.languages (record h { modules = h.modules + 1 }) ne))
]

-- If all memory is granted, all languages are known and FTS5 is not found, starting fails and
-- releases nothing of what it allocated.
pub init_snowball_stemmer_leak :
    (env : Environment) (o : Options) (h : Heap)
    → o.languages ≢ []
    → env.module_memory ≡ true
    → env.list_memory ≡ true
    → env.args_memory ≡ true
    → AllKnown env.knows o.languages
    → fts5_api_from_db env ≡ false
    → init_snowball_stemmer env o h ≡ (failed error, started o h)
unfolding init_snowball_stemmer
init_snowball_stemmer_leak env o h ne m l a known absent =
    let list =
      allocate_stemmer_list-known env o.languages (record h { modules = h.modules + 1 }) ne l
        known in
    rw (m, list) (unfold with_stemmers register_module in ground arith)

-- The arguments fit the array of 6 that is allocated for them, and come in pairs.
pub length-parent_args :
    (o : Options) → (length (parent_args o) ≤ 6) × (length (parent_args o) % 2 ≡ 0)
unfolding parent_args
length-parent_args o = ground arith
