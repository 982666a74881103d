-- ===== src/Auxiliary/Tokens.antt =====
-- The text that gettokens returns, and tokens on its arguments.
use letarette.Base.{
  ℕ, zero, suc, ◌+◌, ◌-◌, ◌%◌, ◌^◌, ◌≤◌, ◌<◌, ◌≡◌, refl, ◌≢◌, inl, inr, true, List, [], ◌∷◌, arith,
  ◌==◌, if◌then◌else◌, Bool-cases, take, drop, All, pos,
}
use letarette.Sqlite.{Rc, ok, done, text, Value, Token, Tokenizes, deliver}
use letarette.Auxiliary.{
  TokenRange, TokenizeRange, token_range_callback, range_from, text_until, snippet, finish_tokens,
  get_tokens,
}
use letarette.Auxiliary.Range.{span, last_finish, Finds, walk_before, walk_no_count}

-- The bytes from one position to another.
abbrev pub slice : List ℕ → ℕ × ℕ → List ℕ
slice bytes (start, finish) = take (finish - start) (drop start bytes)

-- The tokens stand in the text one after the other, from `low` on and below 2^31.
abbrev pub IsOrdered : ℕ → List Token → Type 0
IsOrdered low [] = low < 2 ^ 31
IsOrdered low (t ∷ ts) = (low ≤ t.start) × (t.start ≤ t.finish) × IsOrdered t.finish ts

abbrev pub HasNoNul : List ℕ → Type 0
HasNoNul = All (λ b. b ≢ 0)

text_until-take :
    (bytes : List ℕ) (most : ℕ) → HasNoNul bytes → text_until bytes most ≡ take most bytes
unfolding text_until
text_until-take [] zero h = refl
text_until-take [] (suc most) h = refl
text_until-take (b ∷ bytes) zero h = ground arith
text_until-take (b ∷ bytes) (suc most) h = ground (arith, text_until-take bytes most h.1)

HasNoNul-drop : (n : ℕ) (bytes : List ℕ) → HasNoNul bytes → HasNoNul (drop n bytes)
HasNoNul-drop zero bytes h = h
HasNoNul-drop (suc n) [] h = h
HasNoNul-drop (suc n) (b ∷ bytes) h = HasNoNul-drop n bytes h.1

-- The ends of a range are in order and are `int`s.
abbrev IsRange : ℕ × ℕ → Type 0
IsRange (start, finish) = (start ≤ finish) × (finish < 2 ^ 31)

last_finish-bounds :
    (low : ℕ) (ts : List Token)
    → IsOrdered low ts
    → (low ≤ last_finish low ts) × (last_finish low ts < 2 ^ 31)
last_finish-bounds low [] h = omega arith
last_finish-bounds low (t ∷ ts) h = omega (arith, last_finish-bounds t.finish ts h.2)

span-IsRange : (low : ℕ) (ts : List Token) → IsOrdered low ts → IsRange (span ts)
span-IsRange low [] h = omega arith
span-IsRange low (t ∷ ts) h = omega (arith, last_finish-bounds t.finish ts h.2)

IsOrdered-weaken :
    (low low' : ℕ) (ts : List Token) → low ≤ low' → IsOrdered low' ts → IsOrdered low ts
IsOrdered-weaken low low' [] le h = omega arith
IsOrdered-weaken low low' (t ∷ ts) le h = (omega arith, h.1, h.2)

low-bound : (low : ℕ) (ts : List Token) → IsOrdered low ts → low < 2 ^ 31
low-bound low ts h = omega (arith, last_finish-bounds low ts h)

IsOrdered-take : (n low : ℕ) (ts : List Token) → IsOrdered low ts → IsOrdered low (take n ts)
IsOrdered-take zero low ts h = low-bound low ts h
IsOrdered-take (suc n) low [] h = h
IsOrdered-take (suc n) low (t ∷ ts) h = (h.0, h.1, IsOrdered-take n t.finish ts h.2)

IsOrdered-drop : (n low : ℕ) (ts : List Token) → IsOrdered low ts → IsOrdered low (drop n ts)
IsOrdered-drop zero low ts h = h
IsOrdered-drop (suc n) low [] h = h
IsOrdered-drop (suc n) low (t ∷ ts) h =
    IsOrdered-weaken low t.finish (drop n ts) (omega arith) (IsOrdered-drop n t.finish ts h.2)

snippet-slice :
    (bytes : List ℕ) (ctx : TokenRange) (start finish : ℕ)
    → HasNoNul bytes
    → IsRange (start, finish)
    → ctx.text_range_start ≡ start
    → ctx.text_range_end ≡ finish
    → snippet true bytes ctx ≡ text (slice bytes (start, finish))
unfolding snippet
snippet-slice bytes ctx start finish clean (le, small) begins ends =
    let size : (2 ^ 64 + finish - start) % 2 ^ 64 ≡ finish - start = omega arith in
    rw (
      begins,
      ends,
      size,
      text_until-take (drop start bytes) (finish - start) (HasNoNul-drop start bytes clean),
    )

finish_tokens-slice :
    (bytes : List ℕ) (rc : Rc) (ctx : TokenRange) (found : ℕ × ℕ)
    → HasNoNul bytes
    → IsRange found
    → Finds (rc, ctx) found
    → finish_tokens true bytes (rc, ctx) ≡ text (slice bytes found)
unfolding finish_tokens
finish_tokens-slice bytes ok ctx found clean range (ended, begins, ends) =
    snippet-slice bytes ctx found.0 found.1 clean range begins ends
finish_tokens-slice bytes done ctx found clean range (ended, begins, ends) =
    snippet-slice bytes ctx found.0 found.1 clean range begins ends
finish_tokens-slice bytes rc ctx found clean range (ended, begins, ends) = ground arith

module _ {tokens : List ℕ → List Token} {tokenize : TokenizeRange} (law : Tokenizes tokens tokenize)
    (entry offset count : Value) (from wanted : ℕ) (clean : HasNoNul entry.bytes)
    (ordered : IsOrdered 0 (tokens entry.bytes)) (at_from : offset.number ≡ pos from)
    (of_wanted : count.number ≡ pos wanted) (fits : from + wanted < 2 ^ 31) where
  get_tokens_of_Finds :
      (found : ℕ × ℕ)
      → IsRange found
      → Finds
          (deliver token_range_callback (range_from from (from + wanted)) (tokens entry.bytes))
          found
      → get_tokens tokenize true (entry ∷ offset ∷ count ∷ []) ≡ text (slice entry.bytes found)
  unfolding get_tokens
  get_tokens_of_Finds found range finds =
      let (rc, ctx) =
        deliver token_range_callback (range_from from (from + wanted)) (tokens entry.bytes) in
      let found_text = finish_tokens-slice entry.bytes rc ctx found clean range finds in
      rw (at_from, of_wanted, law.delivers) (ground (arith, found_text))

  span-take-IsRange : (skip left : ℕ) → IsRange (span (take left (drop skip (tokens entry.bytes))))
  span-take-IsRange skip left =
      span-IsRange 0 _ (IsOrdered-take left 0 _ (IsOrdered-drop skip 0 _ ordered))

  -- For a count of 1 or more, gettokens returns the bytes from the start of token `from` to the end
  -- of token `from + wanted - 1`, or of the last token if there are fewer; nothing if there is no
  -- token `from`. This holds for a text without NUL whose tokens are in order, where the sum of
  -- the two arguments is an `int` and strndup succeeds.
  pub get_tokens-slice :
      0 < wanted
      → get_tokens tokenize true (entry ∷ offset ∷ count ∷ [])
        ≡ text (slice entry.bytes (span (take wanted (drop from (tokens entry.bytes)))))
  get_tokens-slice some_wanted =
      let whole : suc (wanted - 1) ≡ wanted = omega arith in
      let finds =
        walk_before from (wanted - 1) from (from + wanted) 0 (tokens entry.bytes) (omega arith)
          (omega arith) in
      get_tokens_of_Finds _ (span-take-IsRange from wanted) (rw whole at finds)

  -- A count of 0 gives the empty text at every start but token 0, where it gives the bytes from the
  -- first token to the last one. This holds under the conditions of `get_tokens-slice`.
  pub get_tokens_of_no_count :
      wanted ≡ 0
      → get_tokens tokenize true (entry ∷ offset ∷ count ∷ [])
        ≡ text (if from == 0 then slice entry.bytes (span (tokens entry.bytes)) else [])
  get_tokens_of_no_count none_wanted =
      let finds = walk_no_count from (from + wanted) (tokens entry.bytes) (omega arith) in
      elim (Bool-cases (from == 0)) [
        | inl first ↦
            rw first (get_tokens_of_Finds _ (span-IsRange 0 _ ordered) (rw first at finds))
        | inr later ↦ rw later (get_tokens_of_Finds (0, 0) (omega arith) (rw later at finds))
      ]
