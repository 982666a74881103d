-- ===== src/Spellfix/Cursor/Query/Range.antt =====
-- The range of phonetic hashes that spellfix1RunQuery asks for, and the words that it selects.
use letarette.Base.{
  ℕ, zero, suc, ◌+◌, ◌-◌, ◌≤◌, ◌≡◌, refl, inl, inr, Bool, true, false, ◌&&◌, ◌||◌, not, some, List,
  [], ◌∷◌, ◌++◌, arith, ltb, ◌==◌, Bool-cases, length, take, length-append,
}
use letarette.Spellfix.Phonetic.{phonetic_hash}
use letarette.Spellfix.Phonetic.Symbols.{BelowZ, phonetic_hash-BelowZ}
use letarette.Spellfix.Cursor.Query.{scope_of, cut_class, hash_range, mx_hash}

-- The order of SQLite's BINARY collation.
abbrev pub precedes : List ℕ → List ℕ → Bool
precedes [] [] = false
precedes [] (d ∷ b) = true
precedes (c ∷ a) [] = false
precedes (c ∷ a) (d ∷ b) = ltb c d || (c == d && precedes a b)

-- `k2>=?1 AND k2<?2`
abbrev pub is_selected : List ℕ × List ℕ → List ℕ → Bool
is_selected (lo, hi) k2 = not (precedes k2 lo) && precedes k2 hi

abbrev pub starts_with : List ℕ → List ℕ → Bool
starts_with [] k2 = true
starts_with (c ∷ lo) [] = false
starts_with (c ∷ lo) (d ∷ k2) = c == d && starts_with lo k2

is_selected-starts_with :
    (lo k2 : List ℕ) → BelowZ k2 → is_selected (lo, lo ++ b'Z' ∷ []) k2 ≡ starts_with lo k2
is_selected-starts_with [] [] h = refl
is_selected-starts_with [] (d ∷ k2) (lt, h) = ground arith
is_selected-starts_with (c ∷ lo) [] h = refl
is_selected-starts_with (c ∷ lo) (d ∷ k2) (lt, h) = ground (arith, is_selected-starts_with lo k2 h)

length-take : (n : ℕ) (z : List ℕ) → n ≤ length z → length (take n z) ≡ n
length-take zero z h = refl
length-take (suc n) [] h = absurd (omega arith)
length-take (suc n) (c ∷ z) h = omega (arith, length-take n z (omega arith))

length-cut_class :
    (z : List ℕ) → (length (cut_class z) ≤ mx_hash - 2) × (length (cut_class z) ≤ length z)
length-cut_class z = elim (Bool-cases (ltb (mx_hash - 2) (length z))) [
  | inl long ↦ rw (long, length-take 30 z (ground arith)) (omega arith, ground arith)
  | inr short ↦ rw short (ground arith, omega arith)
]

scope_of-le : (n_class i_scope : ℕ) → scope_of n_class i_scope ≤ n_class
unfolding scope_of
scope_of-le n_class i_scope = ground arith

-- The word has the phonetic hash `k2`: the statement selects it just if its hash begins with the
-- compared symbols of the query's hash `z`. Those are copied from within that hash, and both bounds
-- fit into their buffers with the NUL.
pub hash_range-selects :
    (i_scope : ℕ) (malloc : Bool) (z word k2 : List ℕ)
    → phonetic_hash malloc word ≡ some k2
    → (is_selected (hash_range i_scope z) k2 ≡ starts_with (hash_range i_scope z).0 k2)
      × (length (hash_range i_scope z).0 ≡ scope_of (length (cut_class z)) i_scope)
      × (scope_of (length (cut_class z)) i_scope ≤ length z)
      × (length (hash_range i_scope z).0 + 1 ≤ mx_hash)
      × (length (hash_range i_scope z).1 + 1 ≤ mx_hash)
unfolding hash_range
hash_range-selects i_scope malloc z word k2 e =
    let n : ℕ = scope_of (length (cut_class z)) i_scope in
    let le : n ≤ length (cut_class z) = scope_of-le (length (cut_class z)) i_scope in
    let copied : length (take n (cut_class z)) ≡ n = length-take n (cut_class z) le in
    (
      is_selected-starts_with (take n (cut_class z)) k2 (phonetic_hash-BelowZ malloc word k2 e),
      copied,
      omega (arith, le, length-cut_class z),
      omega (arith, copied, le, length-cut_class z),
      omega
          (arith, copied, le, length-cut_class z, length-append (take n (cut_class z)) (b'Z' ∷ [])),
    )
