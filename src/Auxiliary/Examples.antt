-- ===== src/Auxiliary/Examples.antt =====
-- Runs of the FTS5 functions, and their theorems at concrete inputs.
use letarette.Base.{
  ℕ, ◌≡◌, refl, true, none, List, [], ◌∷◌, arith, if◌then◌else◌, take, drop, ℤ, pos, eqb_ℤ,
}
use letarette.Sqlite.{Rc, ok, text, Value, Token, Tokenizes, deliver}
use letarette.Auxiliary.{Hit, TokenizeRange, token_range_callback, get_tokens}
use letarette.Auxiliary.FirstMatch.{direct_match, first_matches, first_matches-direct}
use letarette.Auxiliary.Range.{span}
use letarette.Auxiliary.Tokens.{slice, get_tokens-slice}
use mathlib.Core.List.{map}

-- "ab cd e"
abbrev sample : Value
sample = record { bytes = 97 ∷ 98 ∷ 32 ∷ 99 ∷ 100 ∷ 32 ∷ 101 ∷ []; number = pos 0 }

abbrev number : ℕ → Value
number n = record { bytes = []; number = pos n }

abbrev word : ℕ → ℕ → Token
word start finish = record { bytes = []; start = start; finish = finish }

-- Any text has these tokens here.
abbrev words : List ℕ → List Token
words bytes = word 0 2 ∷ word 3 5 ∷ word 6 7 ∷ []

abbrev tokenize_words : TokenizeRange
tokenize_words callback ctx bytes = deliver callback ctx (words bytes)

words-Tokenizes : Tokenizes words tokenize_words
words-Tokenizes = record { delivers = λ callback s bytes. refl }

second_word :
    get_tokens tokenize_words true (sample ∷ number 1 ∷ number 1 ∷ []) ≡ text (99 ∷ 100 ∷ [])
unfolding get_tokens deliver token_range_callback
second_word = refl

get_tokens-slice_example :
    get_tokens tokenize_words true (sample ∷ number 1 ∷ number 5 ∷ [])
    ≡ text (slice sample.bytes (span (take 5 (drop 1 (words sample.bytes)))))
get_tokens-slice_example =
    get_tokens-slice words-Tokenizes sample (number 1) (number 5) 1 5 (omega arith) (omega arith)
      refl refl (omega arith) (omega arith)

-- Row 7 has a match in column 1 at token 4; any other row has none.
abbrev hits : ℤ → Rc × Hit
hits row =
    if eqb_ℤ row (pos 7)
    then (ok, record { phrase = pos 0; column = pos 1; offset = pos 4 })
    else (Rc.other 25, record { phrase = pos 0; column = pos 0; offset = pos 0 })

abbrev calls : List (ℤ × List Value)
calls = (pos 7, number 0 ∷ []) ∷ (pos 7, number 1 ∷ []) ∷ (pos 8, number 0 ∷ []) ∷ []

first_matches-direct_example :
    first_matches hits none calls ≡ map (λ call. direct_match hits call.0 call.1) calls
first_matches-direct_example = first_matches-direct hits none calls tt
