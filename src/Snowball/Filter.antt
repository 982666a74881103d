-- ===== src/Snowball/Filter.antt =====
-- ftsSnowballCallback and ftsSnowballTokenize: what becomes of each token of unicode61.
use letarette.Base.{
  ℕ, Bool, true, false, ◌&&◌, ◌||◌, not, List, [], ◌∷◌, ltb, ◌==◌, if◌then◌else◌, length, ℤ, pos,
  ltb_ℤ, eqb_ℤ,
}
use letarette.Sqlite.{Rc, ok, is_ok, Token}
use letarette.Snowball.Session.{Statement, Database, Emitted, Session, Emit}
use letarette.Snowball.Stopwords.{is_stop_word}
use letarette.Snowball.Synonyms.{add_synonyms}

abbrev pub max_token_len : ℕ
max_token_len = 40

abbrev pub min_token_len : ℕ
min_token_len = 3

-- Stops at the first byte that is no decimal digit.
unfoldable pub is_numerical : List ℕ → Bool
is_numerical [] = true
is_numerical (c ∷ word) = if ltb c b'0' || ltb b'9' c then false else is_numerical word

-- sb_stemmer_stem with sb_stemmer_length: the bytes of the stem.
abbrev pub Stemmer : Type 0
Stemmer = List ℕ → List ℕ

-- The loop over the stemmers: each reads the token, and the first that changes its length is the
-- last one asked.
unfoldable pub stem_with : List Stemmer → List ℕ → List ℕ → List ℕ
stem_with [] token stemmed = stemmed
stem_with (stem ∷ stemmers) token stemmed =
    if not (length (stem token) == length token)
    then stem token
    else stem_with stemmers token (stem token)

-- What the caller gets for a token: only tokens of 3 to 40 bytes are stemmed.
unfoldable pub stem_token : List Stemmer → List ℕ → List ℕ
unfolding stem_with
stem_token stemmers token =
    if ltb max_token_len (length token) || ltb (length token) min_token_len
    then token
    else stem_with stemmers token token

-- The settings of `struct StemmerModuleData` that the callback reads.
pub record Settings : Type 0 where
  pub stemmers : List Stemmer
  pub min_token_length : ℤ

-- The two switches of `struct StemmerContext`.
pub record Mode : Type 0 where
  pub remove_stopwords : Bool
  pub add_synonyms : Bool

-- A token below the minimal length that is no decimal number.
unfoldable pub is_short : Settings → List ℕ → Bool
unfolding is_numerical
is_short settings token =
    ltb_ℤ (pos (length token)) settings.min_token_length && not (is_numerical token)

abbrev pub stemmed_token : Settings → Token → Emitted
stemmed_token settings t = record {
  colocated = false;
  bytes = stem_token settings.stemmers t.bytes;
  start = t.start;
  finish = t.finish;
}

module _ {ℓ} {S : Type ℓ} (settings : Settings) (emit : Emit S) (db : Database) where
  -- The part behind the stop words.
  unfoldable pub emit_token : Mode → Session S → Token → Rc × Session S
  emit_token mode s t =
      let (rc, caller) = emit s.caller (stemmed_token settings t) in
      let s' = record s { caller = caller } in
      if not (is_ok rc)
      then (rc, s')
      else if mode.add_synonyms
      then add_synonyms emit db t s'
      else (ok, s')

  unfoldable pub after_stopwords : Mode → Session S → Token → ℤ × Statement → Rc × Session S
  after_stopwords mode s t (status, statement) =
      if ltb_ℤ status (pos 0)
      then (Rc.error, record s { stopword = statement })
      else if not (eqb_ℤ status (pos 0))
      then (ok, record s { stopword = statement })
      else emit_token mode (record s { stopword = statement }) t

  unfoldable pub snowball_callback : Mode → Session S → Token → Rc × Session S
  unfolding emit_token after_stopwords
  snowball_callback mode s t =
      if is_short settings t.bytes
      then (ok, s)
      else if mode.remove_stopwords
      then after_stopwords mode s t (is_stop_word db t s.stopword)
      else emit_token mode s t

unfoldable pub has_space : List ℕ → Bool
has_space [] = false
has_space (c ∷ bytes) = if c == b' ' then true else has_space bytes

-- The flags that the code tests: FTS5_TOKENIZE_QUERY and FTS5_TOKENIZE_PREFIX.
pub record Flags : Type 0 where
  pub query : Bool
  pub prefix : Bool

unfoldable pub mode_of : Flags → List ℕ → Mode
unfolding has_space
mode_of flags bytes =
    if flags.query && not flags.prefix
    then record { remove_stopwords = not (has_space bytes); add_synonyms = true }
    else record { remove_stopwords = false; add_synonyms = false }

-- `parent` is the xTokenize of unicode61, which is called with no flags.
abbrev pub Parent {ℓ} : Type ℓ → Type ℓ
Parent S = (Session S → Token → Rc × Session S) → Session S → List ℕ → Rc × Session S

unfoldable pub snowball_tokenize {ℓ} :
    {S : Type ℓ}
    → Settings
    → Emit S
    → Database
    → Parent S
    → Flags
    → List ℕ
    → Session S
    → Rc × Session S
unfolding mode_of
snowball_tokenize settings emit db parent flags bytes s =
    parent (snowball_callback settings emit db (mode_of flags bytes)) s bytes
