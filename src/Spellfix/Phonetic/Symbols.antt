-- ===== src/Spellfix/Phonetic/Symbols.antt =====
-- The symbols that phoneticHash writes, all of them below the letter Z.
use letarette.Base.{
  ℕ, zero, suc, ◌<◌, ◌≡◌, inl, inr, Bool, true, false, ◌&&◌, ◌||◌, not, some, List, [], ◌∷◌, arith,
  ◌==◌, if◌then◌else◌, Bool-cases, get_or, All,
}
use mathlib.Core.Path.{subst}
use letarette.Spellfix.Classes.{
  class_name, class_names, class_vowel, class_silent, class_space, class_other, class_digit,
  mid_class, init_class,
}
use letarette.Spellfix.Phonetic.{
  HashState, is_omitted, is_liquid, push_symbol, pop_symbol, hash_heard, hash_class, hash_loop,
  skip_first, start, reversed_onto, phonetic_hash,
}

abbrev pub BelowZ : List ℕ → Type 0
BelowZ = All (λ c. c < b'Z')

get_or-BelowZ : (names : List ℕ) (k : ℕ) → BelowZ names → get_or names k 0 < b'Z'
get_or-BelowZ [] k h = omega arith
get_or-BelowZ (c ∷ names) zero h = h.0
get_or-BelowZ (c ∷ names) (suc k) h = get_or-BelowZ names k h.1

class_name-BelowZ : (k : ℕ) → class_name k < b'Z'
unfolding class_name
class_name-BelowZ k = get_or-BelowZ class_names k (omega arith)

push_symbol-BelowZ : (c : ℕ) (out : List ℕ) → c < b'Z' → BelowZ out → BelowZ (push_symbol c out)
unfolding push_symbol
push_symbol-BelowZ c [] lt h = (lt, tt)
push_symbol-BelowZ c (d ∷ out) lt h = elim (Bool-cases (c == d)) [
  | inl same ↦ rw same h
  | inr differs ↦ rw differs (lt, h)
]

pop_symbol-BelowZ : (out : List ℕ) → BelowZ out → BelowZ (pop_symbol out)
unfolding pop_symbol
pop_symbol-BelowZ [] h = h
pop_symbol-BelowZ (d ∷ out) h = h.1

if-BelowZ : (b : Bool) (xs ys : List ℕ) → BelowZ xs → BelowZ ys → BelowZ (if b then xs else ys)
if-BelowZ true xs ys h k = h
if-BelowZ false xs ys h k = k

abbrev Written : HashState → Type 0
Written s = BelowZ s.out

hash_heard-BelowZ : (k : ℕ) (s : HashState) → Written s → Written (hash_heard k s)
unfolding hash_heard
hash_heard-BelowZ k s h =
    let popped : BelowZ
        (if is_liquid k && s.c_prev_x == class_vowel then pop_symbol s.out else s.out) =
      if-BelowZ (is_liquid k && s.c_prev_x == class_vowel) _ _ (pop_symbol-BelowZ s.out h) h in
    elim (Bool-cases (k == class_vowel && is_liquid s.c_prev_x)) [
      | inl passed ↦ rw passed h
      | inr heard ↦ elim (Bool-cases (k == class_silent)) [
        | inl silent ↦ rw (heard, silent) popped
        | inr sounds ↦
            rw (heard, sounds) (push_symbol-BelowZ (class_name k) _ (class_name-BelowZ k) popped)
      ]
    ]

hash_class-BelowZ : (k : ℕ) (s : HashState) → Written s → Written (hash_class k s)
unfolding hash_class
hash_class-BelowZ k s h =
    elim (Bool-cases (k == class_space || (k == class_other && not (s.c_prev == class_digit)))) [
      | inl passed ↦ rw passed h
      | inr heard ↦ rw heard (hash_heard-BelowZ k s h)
    ]

hash_loop-BelowZ : (word : List ℕ) (s : HashState) → Written s → Written (hash_loop word s)
unfolding hash_loop
hash_loop-BelowZ [] s h = h
hash_loop-BelowZ (c ∷ rest) s h = hash_loop-BelowZ rest _ (elim (Bool-cases (is_omitted c rest)) [
  | inl omitted ↦ rw omitted h
  | inr told ↦ rw told (hash_class-BelowZ (if s.initial then init_class c else mid_class c) s h)
])

reversed_onto-BelowZ : (xs out : List ℕ) → BelowZ xs → BelowZ out → BelowZ (reversed_onto xs out)
unfolding reversed_onto
reversed_onto-BelowZ [] out h k = k
reversed_onto-BelowZ (c ∷ xs) out h k = reversed_onto-BelowZ xs (c ∷ out) h.1 (h.0, k)

pub phonetic_hash-BelowZ :
    (malloc : Bool) (word hash : List ℕ) → phonetic_hash malloc word ≡ some hash → BelowZ hash
unfolding phonetic_hash
phonetic_hash-BelowZ true word hash e =
    let out : List ℕ = (hash_loop (skip_first word) start).out in
    let same : reversed_onto out [] ≡ hash = cc in
    subst BelowZ same (reversed_onto-BelowZ out [] (hash_loop-BelowZ (skip_first word) start tt) tt)
phonetic_hash-BelowZ false word hash e = cc
