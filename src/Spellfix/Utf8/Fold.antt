-- ===== src/Spellfix/Utf8/Fold.antt =====
-- On well-formed UTF-8 a loop over the bytes of a text is a loop over its characters.
use letarette.Base.{
  ℕ, zero, suc, ◌≤◌, ◌<◌, ◌≡◌, refl, ◌∙◌, inl, inr, Bool, true, false, Option, none, some, List, [],
  ◌∷◌, ◌++◌, arith, Bool-cases, Option-cases, length, drop-length_append, drop, length-append, All,
}
use letarette.Spellfix.Utf8.{utf8_read, walk}
use letarette.Spellfix.Utf8.Encode.{
  encode, encode_all, IsChar, utf8_read-encode, Starts-encode_all, length-encode,
}

module _ {S : Type 0} (more : S → Bool) (body : S → ℕ → Option S) where
  -- The loop over the characters themselves.
  abbrev pub fold_while : S → List ℕ → Option S
  fold_while s [] = some s
  fold_while s (c ∷ cs) = elim (more s) [
    | false ↦ some s
    | true ↦ elim (body s c) [ none ↦ none | some s' ↦ fold_while s' cs ]
  ]

  walk_end : (fuel : ℕ) (s : S) → walk more body fuel s [] ≡ some s
  unfolding walk
  walk_end zero s = refl
  walk_end (suc fuel) s = refl

  walk_stop :
      (fuel : ℕ) (s : S) (bytes : List ℕ)
      → length bytes ≤ fuel
      → more s ≡ false
      → walk more body fuel s bytes ≡ some s
  unfolding walk
  walk_stop zero s [] h e = refl
  walk_stop (suc fuel) s [] h e = refl
  walk_stop zero s (b ∷ bytes) h e = absurd (omega arith)
  walk_stop (suc fuel) s (b ∷ bytes) h e = rw (e, walk) refl

  -- One round, where `body` fails and where it goes on.
  walk_fails :
      (fuel : ℕ) (s : S) (bytes : List ℕ) (c size : ℕ)
      → 0 < length bytes
      → more s ≡ true
      → utf8_read bytes ≡ some (c, size)
      → body s c ≡ none
      → walk more body (suc fuel) s bytes ≡ none
  unfolding walk
  walk_fails fuel s [] c size nonempty e read fails = absurd (omega arith)
  walk_fails fuel s (b ∷ bytes) c size nonempty e read fails = rw (e, read, fails, walk) refl

  walk_next :
      (fuel : ℕ) (s s' : S) (bytes : List ℕ) (c size : ℕ)
      → 0 < length bytes
      → more s ≡ true
      → utf8_read bytes ≡ some (c, size)
      → body s c ≡ some s'
      → walk more body (suc fuel) s bytes ≡ walk more body fuel s' (drop size bytes)
  unfolding walk
  walk_next fuel s s' [] c size nonempty e read next = absurd (omega arith)
  walk_next fuel s s' (b ∷ bytes) c size nonempty e read next = rw (e, read, next, walk) refl

  -- On well-formed UTF-8 the loop sees the characters that are encoded, and its fuel is enough.
  pub walk-encode_all :
      (cs : List ℕ) (s : S) (fuel : ℕ)
      → All IsChar cs
      → length (encode_all cs) ≤ fuel
      → walk more body fuel s (encode_all cs) ≡ fold_while s cs
  walk-encode_all [] s fuel h enough = walk_end fuel s
  walk-encode_all (c ∷ cs) s zero h enough =
      absurd (omega (arith, length-append (encode c) (encode_all cs), length-encode c))
  walk-encode_all (c ∷ cs) s (suc fuel) (h, hs) enough = elim (Bool-cases (more s)) [
    | inl going ↦
        let some_left : 0 < length (encode c ++ encode_all cs) =
          omega (arith, length-append (encode c) (encode_all cs), length-encode c) in
        let read = utf8_read-encode c (encode_all cs) h (Starts-encode_all cs hs) in
        elim (Option-cases (body s c)) [
          | inl fails ↦
              rw (going, fails, fold_while)
                (walk_fails fuel s (encode c ++ encode_all cs) c _ some_left going read fails)
          | inr (s', next) ↦
              rw (going, next, fold_while)
                (walk_next fuel s s' (encode c ++ encode_all cs) c _ some_left going read next
                  ∙ rw (drop-length_append (encode c) (encode_all cs)) (
                      walk-encode_all cs s' fuel hs
                        (omega (arith, length-append (encode c) (encode_all cs), length-encode c))))
        ]
    | inr stopped ↦
        rw (stopped, fold_while) (walk_stop (suc fuel) s (encode c ++ encode_all cs) enough stopped)
  ]
