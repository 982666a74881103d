-- ===== src/Lib.antt =====
-- Letarette's SQLite extensions in C: a model of their functions and the theorems that make them
-- correct.
--
-- Letarette is a full-text search system over SQLite's FTS5. Its Go service loads extensions written
-- in C into every connection, and reaches them through SQL:
--   internal/compress/compress.c    compress(), uncompress() and iscompressed(), over miniz
--   internal/auxiliary/auxiliary.c  firstmatch(), gettokens() and tokens(), for ranking and snippets
--   internal/snowball/snowball.c    the tokenizer "snowball", for indexing and for queries
--   internal/spellfix/spellfix.c    the virtual table spellfix1, for spelling corrections
-- A document's text is compressed by the first; the third splits it into terms, both when it is
-- indexed and when a query is parsed; the second reports where a query matched and cuts the snippet.
--
-- Files:
--   Base             tests, lists, signed integers and masks over the native numbers
--   Sqlite           result codes, values, tokens; Sqlite.Walk has the laws of walks over tokens
--   Compress         compress.c: compressFunc is compress_func, uncompressFunc is uncompress_func,
--                    isCompressedFunc is is_compressed_func, isValidHeader is is_valid_header
--   Auxiliary        auxiliary.c: firstMatch is first_match, tokenRangeCallback is
--                    token_range_callback, getTokens is get_tokens, tokenCount is token_count
--   Snowball         snowball.c: isStopWord is Stopwords.is_stop_word, addSynonyms is
--                    Synonyms.add_synonyms, ftsSnowballCallback is Filter.snowball_callback,
--                    ftsSnowballTokenize is Filter.snowball_tokenize, and Setup has the functions
--                    that allocate and release, and Setup.Instances the calls of
--                    FTS5 on the instances of a module
--   Spellfix         spellfix.c, in part: Classes has the character classes; Phonetic has
--                    phoneticHash as phonetic_hash; Costs has characterClass as character_class,
--                    insertOrDeleteCost and substituteCost in the same way; Edit has editdist1 and
--                    editdistSqlFunc; Utf8 has utf8Read and utf8Charlen; Translit has transliterate,
--                    translen_to_charlen and scriptCodeSqlFunc as script_code; Config has
--                    editDist3ConfigLoad as config_load, editDist3CostSort as cost_sort and
--                    editDist3FindLang as find_lang; Edit3 has
--                    editDist3FromStringNew as from_string_new, editDist3Core as
--                    edit_dist3_core, whose calls of updateCost are a list of updates, and
--                    editDist3SqlFunc; Cursor has spellfix1_cursor as Cursor, with the
--                    methods Open, ResetCursor, ResizeCursor, Close, Next, Eof, Column and Rowid and
--                    spellfix1Score as score; Cursor.Query has spellfix1RunQuery as run_query, with
--                    its loop over the vocabulary as run_rows; Cursor.Plan has
--                    spellfix1BestIndex as best_index; Cursor.Filter has spellfix1Filter and
--                    its two parts
--
-- State is passed explicitly: the auxiliary data of a query, the range that the token callback fills
-- in, the two prepared statements of a tokenizer instance, and counts of the live blocks of each
-- kind. C integers are natural numbers with the wrap-around written out, or integers where a sign
-- can come in. A read past the end of a blob, a write through a null pointer and an overflow of an
-- `int` are results of their own, called fault; the results of editdist1 have `none` for an overflow
-- and for its failed assertion, and a query takes what an overflow leaves in its distance as a
-- parameter. The strings of SQLite are shorter than 2^31 bytes.
--
-- SQLite, FTS5, unicode61, libstemmer, miniz and the allocator are parameters: functions, or records
-- of the answers that they give. What is assumed of them stands in the hypotheses: `IsZlib` for
-- miniz, `Tokenizes` for a tokenizer, `IsQsort` for qsort(), `IsHealthy` and `HasSynonyms` for the two queries. The loops
-- recur on the bytes, tokens, rows or stemmers that they walk over; the loop that reads a size makes
-- at most 5 rounds, as the source does. Three loops take fuel: the loop over the characters of a text
-- has a round for each byte, which is enough since a character has one byte at least, and the binary
-- search has a round for each row of its table, which is enough since every round drops a row. The
-- loop that counts the digits of a rank has 32 rounds, which is enough for an `int`.
--
-- Not modelled: the rest of spellfix.c, that is the methods of the virtual table that change it or its
-- schema, which hand SQL text to SQLite, and the registration; a matrix of editdist3 whose size an int
-- does not hold; miniz.h, which is a copy of miniz; the Go service and its wrappers; the
-- replacement of strndup for Windows; getStemmerList, which only calls libstemmer.
pub mod Auxiliary
pub mod Base
pub mod Compress
pub mod Snowball
pub mod Spellfix
pub mod Sqlite
