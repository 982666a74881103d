-- ===== src/Spellfix/Translit/Translen.antt =====
-- translen_to_charlen counts the characters of the shortest prefix whose spelling is long enough.
use letarette.Base.{
  ℕ, zero, suc, ◌+◌, ◌-◌, ◌≤◌, ◌<◌, ◌≡◌, refl, ◌⊎◌, inl, inr, some, List, [], ◌∷◌, arith, ltb, ◌==◌,
  if◌then◌else◌, Bool-cases, Option-cases, length, take, length-append, All,
}
use letarette.Spellfix.Utf8.Encode.{encode_all, IsChar}
use letarette.Spellfix.Utf8.Fold.{fold_while, walk-encode_all}
use letarette.Spellfix.Translit.Table.{translit}
use letarette.Spellfix.Translit.{Progress, count_char, translen_to_charlen}
use letarette.Spellfix.Translit.Search.{row_of, find_translit-eq-row_of}
use letarette.Spellfix.Translit.Spell.{spell, spell_all}

abbrev count_spelled : Progress → ℕ → Progress
count_spelled p c = record { n_char = p.n_char + 1; n_out = p.n_out + length (spell c) }

count_char-eq-spell : (p : Progress) (c : ℕ) → count_char p c ≡ some (count_spelled p c)
unfolding count_char
count_char-eq-spell p c = elim (Option-cases (row_of c translit)) [
  | inl absent ↦ rw (find_translit-eq-row_of c, absent) (ground arith)
  | inr (t, found) ↦ rw (find_translit-eq-row_of c, found) (ground arith)
]

abbrev chars_for : ℕ → List ℕ → ℕ
chars_for n [] = 0
chars_for n (c ∷ cs) = if n == 0 then 0 else suc (chars_for (n - length (spell c)) cs)

fold_while-count_char :
    (n : ℕ) (p : Progress) (cs : List ℕ)
    → (q : Progress) × (fold_while (λ p. ltb p.n_out n) count_char p cs ≡ some q)
      × (q.n_char ≡ p.n_char + chars_for (n - p.n_out) cs)
fold_while-count_char n p [] = (p, refl, omega arith)
fold_while-count_char n p (c ∷ cs) = elim (Bool-cases (ltb p.n_out n)) [
  | inr enough ↦ (p, rw (enough, fold_while) refl, ground arith)
  | inl more ↦
      let (q, folded, counted) = fold_while-count_char n (count_spelled p c) cs in
      let left : n - (p.n_out + length (spell c)) ≡ n - p.n_out - length (spell c) = omega arith in
      let counted' : q.n_char ≡ p.n_char + 1 + chars_for (n - p.n_out - length (spell c)) cs =
        rw left at counted in
      (q, rw (more, count_char-eq-spell p c, fold_while) folded, ground arith)
]

-- The number of characters is that of the shortest prefix which is spelled in `n` bytes or more, or
-- of the whole text if there is no such prefix.
abbrev pub IsShortest : ℕ → List ℕ → ℕ → Type 0
IsShortest n cs k =
    (k ≤ length cs)
    × ((n ≤ length (spell_all (take k cs))) ⊎ (k ≡ length cs))
    × ((j : ℕ) → j < k → length (spell_all (take j cs)) < n)

shorter_prefix :
    (n k : ℕ) (c : ℕ) (cs : List ℕ)
    → 0 < n
    → ((j : ℕ) → j < k → length (spell_all (take j cs)) < n - length (spell c))
    → (j : ℕ) → j < suc k
    → length (spell_all (take j (c ∷ cs))) < n
shorter_prefix n k c cs some_left shorter zero h = some_left
shorter_prefix n k c cs some_left shorter (suc j) h =
    omega (arith, length-append (spell c) (spell_all (take j cs)), shorter j (omega arith))

IsShortest-suc :
    (n k c : ℕ) (cs : List ℕ)
    → 0 < n
    → IsShortest (n - length (spell c)) cs k
    → IsShortest n (c ∷ cs) (suc k)
IsShortest-suc n k c cs some_left (within, ends, shorter) = (
  omega arith,
  elim ends [
    | inl long ↦ inl (omega (arith, length-append (spell c) (spell_all (take k cs))))
    | inr all ↦ inr (omega arith)
  ],
  shorter_prefix n k c cs some_left shorter,
)

chars_for-IsShortest : (n : ℕ) (cs : List ℕ) → IsShortest n cs (chars_for n cs)
chars_for-IsShortest n [] = (omega arith, inr refl, λ j h. absurd (omega arith))
chars_for-IsShortest n (c ∷ cs) = elim (Bool-cases (n == 0)) [
  | inl done ↦
      let none_needed : n ≡ 0 = ground arith in
      rw none_needed (omega arith, inl (omega arith), λ j h. absurd (omega arith))
  | inr more ↦ rw more (
      IsShortest-suc n (chars_for (n - length (spell c)) cs) c cs (ground arith)
        (chars_for-IsShortest (n - length (spell c)) cs))
]

-- For the encoding of any characters, the answer is the number of characters in the shortest prefix
-- whose transliteration has `n_trans` bytes or more, or the number of all characters if there is no
-- such prefix.
pub translen_to_charlen-IsShortest :
    (cs : List ℕ) (n_trans : ℕ)
    → All IsChar cs
    → (k : ℕ) × (translen_to_charlen (encode_all cs) n_trans ≡ some k) × IsShortest n_trans cs k
unfolding translen_to_charlen
translen_to_charlen-IsShortest cs n_trans h =
    let start : Progress = record { n_char = 0; n_out = 0 } in
    let (q, folded, counted) = fold_while-count_char n_trans start cs in
    (
      q.n_char,
      rw
          (
            walk-encode_all (λ p. ltb p.n_out n_trans) count_char cs start (length (encode_all cs))
                h (omega arith),
            folded,
            translen_to_charlen,
          )
          refl,
      let whole : n_trans - 0 ≡ n_trans = omega arith in
          let counted' : q.n_char ≡ 0 + chars_for n_trans cs = rw whole at counted in
          let same : q.n_char ≡ chars_for n_trans cs = omega arith in
          rw same (chars_for-IsShortest n_trans cs),
    )
