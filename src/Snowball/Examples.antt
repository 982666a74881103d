-- ===== src/Snowball/Examples.antt =====
-- Runs of the tokenizer, and its theorems at concrete inputs.
use letarette.Base.{
  ℕ, ◌≡◌, refl, true, false, not, List, [], ◌∷◌, ◌++◌, arith, ◌==◌, if◌then◌else◌, length, pos,
}
use letarette.Sqlite.{ok, row, done, Token, deliver, Tokenizes}
use letarette.Sqlite.Walk.{seen, all_terms}
use letarette.Snowball.Session.{unprepared, idle, Database, Session, Emit}
use letarette.Snowball.Stopwords.{is_stop_word, IsHealthy}
use letarette.Snowball.Synonyms.{emit_synonyms, finish_synonyms, add_synonyms}
use letarette.Snowball.Filter.{
  Stemmer, stem_token, Settings, is_short, emit_token, after_stopwords, snowball_callback, Flags,
  has_space, Parent, snowball_tokenize,
}
use letarette.Snowball.Indexing.{index_terms, with_caller, tokenize-index_terms}
use letarette.Snowball.Searching.{HasSynonyms, search_terms, caller_of, tokenize-search_terms}
use letarette.Snowball.Failures.{add_synonyms_stopped}

abbrev word : List ℕ → Token
word bytes = record { bytes = bytes; start = 0; finish = length bytes }

-- Drops a final "s".
abbrev singular : Stemmer
singular (a ∷ b ∷ c ∷ _ ∷ []) = a ∷ b ∷ c ∷ []
singular token = token

abbrev cats : List ℕ
cats = 99 ∷ 97 ∷ 116 ∷ 115 ∷ []

abbrev the : List ℕ
the = 116 ∷ 104 ∷ 101 ∷ []

abbrev a_word : List ℕ
a_word = 97 ∷ []

abbrev settings : Settings
settings = record { stemmers = singular ∷ []; min_token_length = pos 2 }

-- "the" is a stop word, and every word has the synonym "cat".
abbrev database : Database
database = record {
  prepare_stopword = λ t. ok;
  bind_stopword = λ t. ok;
  step_stopword = λ t. row;
  count = λ t. if length t.bytes == 3 then pos 1 else pos 0;
  reset_stopword = λ t. ok;
  prepare_synonym = λ t. ok;
  bind_synonym = λ t. ok;
  synonyms = λ t. (99 ∷ 97 ∷ 116 ∷ []) ∷ [];
  synonyms_end = λ t. done;
  reset_synonym = λ t. ok;
}

abbrev words : List ℕ → List Token
words bytes = word a_word ∷ word the ∷ word cats ∷ []

abbrev parent : Parent (List (List ℕ))
parent callback s bytes = deliver callback s (words bytes)

words-Tokenizes : Tokenizes words parent
words-Tokenizes = record { delivers = λ callback s bytes. refl }

-- Keeps the words that it is handed.
abbrev collect : Emit (List (List ℕ))
collect seen_words e = (ok, seen_words ++ e.bytes ∷ [])

abbrev fresh : Session (List (List ℕ))
fresh = record { stopword = unprepared; synonym = unprepared; caller = [] }

abbrev for_document : Flags
for_document = record { query = false; prefix = false }

abbrev for_query : Flags
for_query = record { query = true; prefix = false }

indexed :
    (snowball_tokenize settings collect database parent for_document [] fresh).1.caller
    ≡ the ∷ (99 ∷ 97 ∷ 116 ∷ []) ∷ []
unfolding snowball_tokenize snowball_callback emit_token is_short stem_token deliver
indexed = refl

searched :
    (snowball_tokenize settings collect database parent for_query [] fresh).1.caller
    ≡ (99 ∷ 97 ∷ 116 ∷ []) ∷ (99 ∷ 97 ∷ 116 ∷ []) ∷ []
unfolding snowball_tokenize snowball_callback emit_token after_stopwords is_short stem_token deliver
    is_stop_word add_synonyms emit_synonyms finish_synonyms
searched = refl

tokenize-index_terms_example :
    snowball_tokenize settings collect database parent for_document [] fresh
    ≡ with_caller fresh (deliver collect [] (index_terms settings (words [])))
tokenize-index_terms_example =
    tokenize-index_terms words-Tokenizes settings collect database for_document [] fresh refl

healthy : (t : Token) → IsHealthy database t
healthy t = record {
  prepares = refl;
  binds = refl;
  steps = refl;
  resets = refl;
  counts = ground arith;
}

with_synonyms : (t : Token) → HasSynonyms database t
with_synonyms t = record { prepares = refl; binds = refl; ends = refl; resets = refl }

tokenize-search_terms_example :
    seen caller_of (snowball_tokenize settings collect database parent for_query [] fresh)
    ≡ deliver collect []
        (all_terms (search_terms settings database (not (has_space []))) (words []))
tokenize-search_terms_example =
    tokenize-search_terms words-Tokenizes settings collect (λ c e h. cc) database for_query [] fresh
      refl
      (
        (healthy _, with_synonyms _),
        ((healthy _, with_synonyms _), ((healthy _, with_synonyms _), tt)),
      )

-- Upper case for a first "c": a change that keeps the length.
abbrev capital : Stemmer
capital (_ ∷ rest) = 67 ∷ rest
capital [] = []

-- Takes one word, and then asks to stop by SQLITE_DONE.
abbrev take_one : Emit (List (List ℕ))
take_one [] e = (ok, e.bytes ∷ [])
take_one (w ∷ ws) e = (done, e.bytes ∷ w ∷ ws)

abbrev three_synonyms : Database
three_synonyms = record database { synonyms = λ t. the ∷ cats ∷ a_word ∷ [] }

add_synonyms_stopped_example :
    add_synonyms take_one three_synonyms (word cats) fresh
    ≡ (ok, record fresh { synonym = idle; caller = cats ∷ the ∷ [] })
add_synonyms_stopped_example =
    add_synonyms_stopped take_one three_synonyms (word cats) fresh (the ∷ []) (a_word ∷ []) cats
      done (the ∷ []) (cats ∷ the ∷ []) refl refl refl (the ∷ [], refl, refl) refl (λ e. cc)
