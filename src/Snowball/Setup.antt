-- ===== src/Snowball/Setup.antt =====
-- initSnowballStemmer, destroyStemmerModule, ftsSnowballCreate and ftsSnowballDelete: what is
-- allocated and what is released. The heap counts the live blocks of each kind, the tokenizers that
-- unicode61 made for the instances (`parents`), and the prepared statements.
pub mod StemmerLists
pub mod Lifetime
pub mod Instances
mod Examples
use letarette.Base.{
  ℕ, zero, suc, ◌+◌, ◌-◌, ◌*◌, ◌/◌, ◌%◌, ◌^◌, ◌≤◌, ◌<◌, bit_and, bit_or, ◌≡◌, refl, sym, ap, ◌∙◌,
  ◌≢◌, ◌↔◌, ◌⊎◌, inl, inr, Bool, true, false, ◌&&◌, ◌||◌, not, Option, none, some, List, [], ◌∷◌,
  ◌++◌, append_assoc, append-nil, arith, ltb, leb, ◌==◌, ==_iff, if◌then◌else◌, Bool-cases,
  Option-cases, length, take, drop, length-append, All, IsByte, ℤ, pos, negsuc, pos_part, neg_part,
  ltb_ℤ, eqb_ℤ, eqb_ℤ→eq, to_int32,
}
use letarette.Sqlite.{Rc, ok, error, is_ok}

pub record Heap : Type 0 where
  pub modules : ℕ
  pub lists : ℕ
  pub stemmers : ℕ
  pub arrays : ℕ
  pub strings : ℕ
  pub instances : ℕ
  pub parents : ℕ
  pub statements : ℕ

abbrev pub Language : Type 0
Language = List ℕ

-- The null-terminated array of stemmers, by their languages. `garbage` is an array whose terminator
-- was not written.
pub data StemmerList : Type 0 where
  null garbage : StemmerList
  stemmers : List Language → StemmerList

-- A string of the argument list for unicode61. `quoted` is a text in single quotes.
pub data Arg : Type 0 where
  remove_diacritics tokenchars separators : Arg
  number : ℤ → Arg
  quoted : List ℕ → Arg

-- `struct StemmerModuleData`, less the handles of the database and of FTS5.
pub record StemmerModule : Type 0 where
  pub stemmers : StemmerList
  pub min_token_length : ℤ
  pub parent_args : List Arg

-- What the allocator, libstemmer, SQLite and FTS5 answer. The memory for the texts of the arguments
-- is given.
pub record Environment : Type 0 where
  pub module_memory : Bool
  pub list_memory : Bool
  pub args_memory : Bool
  pub knows : Language → Bool
  pub prepare : Rc
  pub found : Bool
  pub create_tokenizer : Rc

-- The arguments of initSnowballStemmer.
pub record Options : Type 0 where
  pub languages : List Language
  pub diacritics : ℤ
  pub token_characters : Option (List ℕ)
  pub separators : Option (List ℕ)
  pub min_token_length : ℤ

pub free_stemmer_list : List Language → Heap → Heap
free_stemmer_list [] h = record h { lists = h.lists - 1 }
free_stemmer_list (s ∷ rest) h = free_stemmer_list rest (record h { stemmers = h.stemmers - 1 })

fill_stemmer_list : (Language → Bool) → List Language → List Language → Heap → StemmerList × Heap
unfolding free_stemmer_list
fill_stemmer_list knows [] made h = (stemmers made, h)
fill_stemmer_list knows (language ∷ rest) made h =
    let more =
      fill_stemmer_list knows rest (made ++ language ∷ [])
        (record h { stemmers = h.stemmers + 1 }) in
    if knows language then more else (null, free_stemmer_list made h)

pub allocate_stemmer_list : Environment → List Language → Heap → StemmerList × Heap
unfolding fill_stemmer_list
allocate_stemmer_list env [] h =
    if env.list_memory then (garbage, record h { lists = h.lists + 1 }) else (null, h)
allocate_stemmer_list env (language ∷ rest) h =
    if env.list_memory
    then fill_stemmer_list env.knows (language ∷ rest) [] (record h { lists = h.lists + 1 })
    else (null, h)

optional_args : Arg → Option (List ℕ) → List Arg
optional_args name none = []
optional_args name (some value) = name ∷ quoted value ∷ []

pub parent_args : Options → List Arg
unfolding optional_args
parent_args o =
    remove_diacritics ∷ number o.diacritics ∷ optional_args tokenchars o.token_characters
    ++ optional_args separators o.separators

pub fts5_api_from_db : Environment → Bool
fts5_api_from_db env = if is_ok env.prepare then env.found else false

-- `registered` hands the module over to FTS5 and answers SQLITE_OK. If xCreateTokenizer fails, FTS5
-- does not keep the module and does not call xDestroy. `fault` is a write through the null pointer
-- that the unchecked allocation of the argument list may return.
pub data Outcome : Type 0 where
  failed : Rc → Outcome
  registered : StemmerModule → Outcome
  fault : Outcome

register_module : Environment → Options → StemmerList → Heap → Outcome × Heap
unfolding parent_args fts5_api_from_db
register_module env o list h =
    let args = parent_args o in
    let h' = record h { arrays = h.arrays + 1; strings = h.strings + length args } in
    if not env.args_memory
    then (fault, h)
    else if not (fts5_api_from_db env)
    then (failed error, h')
    else if not (is_ok env.create_tokenizer)
    then (failed env.create_tokenizer, h')
    else (
      registered
          (record { stemmers = list; min_token_length = o.min_token_length; parent_args = args }),
      h',
    )

with_stemmers : Environment → Options → StemmerList × Heap → Outcome × Heap
unfolding register_module
with_stemmers env o (null, h) = (failed error, record h { modules = h.modules - 1 })
with_stemmers env o (list, h) = register_module env o list h

pub init_snowball_stemmer : Environment → Options → Heap → Outcome × Heap
unfolding allocate_stemmer_list with_stemmers
init_snowball_stemmer env o h =
    if not env.module_memory
    then (failed error, h)
    else with_stemmers env o
        (allocate_stemmer_list env o.languages (record h { modules = h.modules + 1 }))

-- Reading through an array without its terminator, or through a null pointer, is a fault.
pub destroy_stemmer_module : StemmerModule → Heap → Option Heap
unfolding free_stemmer_list
destroy_stemmer_module m h = elim m.stemmers [
  | null ↦ none
  | garbage ↦ none
  | stemmers list ↦
      let h' = free_stemmer_list list h in
      some (record h' {
        strings = h'.strings - length m.parent_args;
        arrays = h'.arrays - 1;
        modules = h'.modules - 1;
      })
]

-- `found` and `created` are the answers of xFindTokenizer and of the xCreate of unicode61, which
-- makes the parent's tokenizer where it answers SQLITE_OK. The result says whether an instance was
-- made.
pub fts_snowball_create : Bool → Rc → Rc → Heap → Rc × Bool × Heap
fts_snowball_create memory found created h =
    let h' = record h { instances = h.instances + 1 } in
    if not memory
    then (error, false, h)
    else if not (is_ok found)
    then (found, false, record h' { instances = h'.instances - 1 })
    else if not (is_ok created)
    then (created, false, record h' { instances = h'.instances - 1 })
    else (ok, true, record h' { parents = h'.parents + 1 })

-- The first use of one of the two statements of an instance, by the answer of sqlite3_prepare_v2.
pub prepare_statement : Rc → Heap → Heap
prepare_statement rc h = if is_ok rc then record h { statements = h.statements + 1 } else h

-- The xDelete of unicode61 releases the parent's tokenizer. The statements are not finalized.
pub fts_snowball_delete : Heap → Heap
fts_snowball_delete h =
    let h' = record h { parents = h.parents - 1 } in record h' { instances = h'.instances - 1 }
