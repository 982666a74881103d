-- ===== src/Snowball/Stems.antt =====
-- Which of several stemmers decides.
use letarette.Base.{
  ℕ, ◌≡◌, refl, ◌↔◌, ◌⊎◌, inl, inr, Bool, true, false, ◌||◌, not, List, [], ◌∷◌, ◌++◌, arith, ltb,
  length, All,
}
use letarette.Snowball.Filter.{Stemmer, max_token_len, min_token_len, stem_with, stem_token}

-- The stemmer keeps the length of the token.
abbrev pub Keeps : List ℕ → Stemmer → Type 0
Keeps token stem = length (stem token) ≡ length token

abbrev pub is_stemmed : List ℕ → Bool
is_stemmed token = not (ltb max_token_len (length token) || ltb (length token) min_token_len)

stem_with-length :
    (stems : List Stemmer) (token stemmed : List ℕ)
    → length stemmed ≡ length token
    → (length (stem_with stems token stemmed) ≡ length token) ↔ All (Keeps token) stems
unfolding stem_with
stem_with-length [] token stemmed h = (λ _. tt, λ _. h)
stem_with-length (stem ∷ stems) token stemmed h =
    ground (arith, stem_with-length stems token (stem token))

-- The caller gets a token of another length exactly if the token has 3 to 40 bytes and some stemmer
-- changes its length; stated for the same length and all stemmers.
pub length-stem_token :
    (stems : List Stemmer) (token : List ℕ)
    → (length (stem_token stems token) ≡ length token)
      ↔ ((is_stemmed token ≡ false) ⊎ All (Keeps token) stems)
unfolding stem_token
length-stem_token stems token = ground (arith, stem_with-length stems token token refl)

stem_with-append :
    (before after : List Stemmer) (stem : Stemmer) (token stemmed : List ℕ)
    → All (Keeps token) before
    → stem_with (before ++ stem ∷ after) token stemmed ≡ stem_with (stem ∷ after) token stemmed
unfolding stem_with
stem_with-append [] after stem token stemmed h = refl
stem_with-append (s ∷ before) after stem token stemmed h =
    ground (arith, stem_with-append before after stem token (s token) h.1)

stem_with-first :
    (after : List Stemmer) (stem : Stemmer) (token stemmed : List ℕ)
    → (¬ (Keeps token stem)) ⊎ (after ≡ [])
    → stem_with (stem ∷ after) token stemmed ≡ stem token
unfolding stem_with
stem_with-first after stem token stemmed (inl changes) = ground arith
stem_with-first after stem token stemmed (inr last) = rw last (ground arith)

-- The stems of the languages before `stem` are lost if they keep the length of the token, also where
-- they change its letters: for a token of 3 to 40 bytes the result is that of `stem`, if `stem`
-- changes the length or is the last.
pub stem_token-append :
    (before after : List Stemmer) (stem : Stemmer) (token : List ℕ)
    → is_stemmed token ≡ true
    → All (Keeps token) before
    → (¬ (Keeps token stem)) ⊎ (after ≡ [])
    → stem_token (before ++ stem ∷ after) token ≡ stem token
unfolding stem_token
stem_token-append before after stem token size h decides = ground (
  arith,
  stem_with-append before after stem token token h,
  stem_with-first after stem token token decides,
)
