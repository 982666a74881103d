-- ===== src/Spellfix/Edit/Answers.antt =====
-- What the answers of editdist1 tell: the cost and its bound, or the reason why there is none.
use letarette.Base.{
  ℕ, zero, suc, ◌+◌, ◌*◌, ◌≤◌, ◌<◌, ◌≡◌, refl, ap, ◌∙◌, ◌^◌, true, if◌then◌else◌, ◌≢◌, ◌⊎◌, inl,
  inr, Bool, false, ◌&&◌, ◌||◌, not, Option, none, some, List, [], ◌∷◌, ◌++◌, arith, ◌==◌,
  Bool-cases, length, get_or, length-append, All, ℤ, pos, negsuc,
}
use letarette.Spellfix.Edit.{
  Apart, first, is_empty, skip_common, is_ascii, fits_stack, fits_int, heap_size_fits, cost_of,
  matrix_answer, with_match, insert_all, delete_all, ends_in_star, wagner, compare_apart, editdist1,
}
use letarette.Spellfix.Edit.Bounds.{NonZero, insert_all-le, delete_all-le, wagner-le}

is_ascii-append : (p z : List ℕ) → is_ascii (p ++ z) ≡ (is_ascii p && is_ascii z)
unfolding is_ascii
is_ascii-append [] z = refl
is_ascii-append (c ∷ p) z = ground (arith, is_ascii-append p z)

All-suffix : (p z : List ℕ) → All NonZero (p ++ z) → All NonZero z
All-suffix [] z h = h
All-suffix (c ∷ p) z (_, h) = All-suffix p z h

-- What is skipped is a prefix of both strings, and what is left differs in its first byte or is empty.
pub record IsSkipped (a b : List ℕ) (n : ℕ) (s : Apart) : Type 0 where
  pub prefix : List ℕ
  pub whole_a : a ≡ prefix ++ s.a
  pub whole_b : b ≡ prefix ++ s.b
  pub counted : s.n_match ≡ n + length prefix
  pub apart : (first s.a ≢ first s.b) ⊎ ((s.a ≡ []) × (s.b ≡ []))

skip_common-IsSkipped :
    (dc n : ℕ) (a b : List ℕ)
    → All NonZero a
    → All NonZero b
    → IsSkipped a b n (skip_common dc n a b)
unfolding skip_common
skip_common-IsSkipped dc n [] [] p q = record {
  prefix = [];
  whole_a = refl;
  whole_b = refl;
  counted = omega arith;
  apart = inr (refl, refl);
}
skip_common-IsSkipped dc n [] (d ∷ b) p (some_d, q) = record {
  prefix = [];
  whole_a = refl;
  whole_b = refl;
  counted = omega arith;
  apart = inl (omega arith);
}
skip_common-IsSkipped dc n (c ∷ a) [] (some_c, p) q = record {
  prefix = [];
  whole_a = refl;
  whole_b = refl;
  counted = omega arith;
  apart = inl (omega arith);
}
skip_common-IsSkipped dc n (c ∷ a) (d ∷ b) (some_c, p) (some_d, q) =
    let rest = skip_common-IsSkipped c (n + 1) a b p q in
    elim (Bool-cases (not (c == 0) && c == d)) [
      | inr differs ↦ rw differs (record {
        prefix = [];
        whole_a = refl;
        whole_b = refl;
        counted = omega arith;
        apart = inl (ground arith);
      })
      | inl equal ↦
          let same : c ≡ d = ground arith in
          rw equal (record {
            prefix = c ∷ rest.prefix;
            whole_a = ap (λ z. c ∷ z) rest.whole_a;
            whole_b = rw (← same) (ap (λ z. c ∷ z) rest.whole_b);
            counted = omega (arith, rest.counted);
            apart = rest.apart;
          })
    ]

-- What an answer says: a cost is bounded, an error has the reason that the code documents, and
-- behaviour that is undefined comes from long strings, or from a pnMatch that is not NULL.
abbrev pub Explains :
    Bool → Bool → Option (List ℕ) → Option (List ℕ) → Option (ℤ × Option ℕ) → Type 0
Explains malloc pn_match (some a) (some b) none =
    (2 ^ 31 ≤ 100 * (length a + length b + 1))
    ⊎ ((pn_match ≡ true) × (0 < length a) × (ends_in_star a ≡ false))
Explains malloc pn_match (some a) (some b) (some (pos cost, matched)) =
    cost ≤ 100 * (length a + length b)
Explains malloc pn_match (some a) (some b) (some (negsuc zero, matched)) = ⊥
Explains malloc pn_match (some a) (some b) (some (negsuc (suc zero), matched)) =
    (is_ascii a && is_ascii b) ≡ false
Explains malloc pn_match (some a) (some b) (some (negsuc (suc (suc zero)), matched)) =
    (malloc ≡ false) × (60 ≤ length b)
Explains malloc pn_match (some a) (some b) (some (negsuc (suc (suc (suc n))), matched)) = ⊥
Explains malloc pn_match none b answer = answer ≡ some (negsuc 0, none)
Explains malloc pn_match (some a) none answer = answer ≡ some (negsuc 0, none)

some_left : (z : List ℕ) → is_empty z ≡ false → 0 < length z
some_left [] e = cc
some_left (c ∷ z) e = omega arith

cost_of-Explains :
    (malloc pn_match : Bool) (a b : List ℕ) (cost matched : ℕ)
    → cost ≤ 100 * (length a + length b)
    → Explains malloc pn_match (some a) (some b) (with_match pn_match (cost_of cost matched))
cost_of-Explains malloc pn_match a b cost matched h = elim (Bool-cases (fits_int cost)) [
  | inl fits ↦ rw fits h
  | inr over ↦ rw over (inl (ground arith))
]

wagner-Explains :
    (malloc pn_match : Bool) (s : Apart)
    → All NonZero s.a
    → 0 < length s.a
    → 0 < length s.b
    → Explains malloc pn_match
        (some s.a)
        (some s.b)
        (with_match pn_match (matrix_answer (wagner pn_match s)))
wagner-Explains malloc pn_match s p some_a some_b = elim (wagner-le pn_match s p some_b) [
  | inl (e, inl long) ↦ rw e (inl long)
  | inl (e, inr (wanted, plain)) ↦ rw e (inr (wanted, some_a, plain))
  | inr (found, e, low) ↦ rw e low
]

not_empty : (z : List ℕ) → All NonZero z → 0 < length z → is_empty z ≡ false
not_empty [] h some_z = absurd (omega (arith, some_z))
not_empty (c ∷ z) (some_c, h) some_z = ground arith

-- The part of `compare_apart` behind the tests for empty strings.
allocated :
    (malloc pn_match : Bool) (s : Apart)
    → All NonZero s.a
    → 0 < length s.a
    → 0 < length s.b
    → Explains malloc pn_match (some s.a) (some s.b) (
        with_match pn_match (
          if first s.a == b'*' && get_or s.a 1 0 == 0
          then some (pos 0, s.n_match)
          else if not (fits_stack (length s.b)) && not (heap_size_fits (length s.b))
          then none
          else if not (fits_stack (length s.b)) && not malloc
          then some (negsuc 2, s.n_match)
          else matrix_answer (wagner pn_match s)))
allocated malloc pn_match s p some_a some_b =
    elim (Bool-cases (first s.a == b'*' && get_or s.a 1 0 == 0)) [
      | inl star ↦ rw star (omega arith)
      | inr other ↦
          elim (Bool-cases (not (fits_stack (length s.b)) && not (heap_size_fits (length s.b)))) [
            | inl over ↦ rw (other, over) (inl (ground arith))
            | inr size ↦ elim (Bool-cases (not (fits_stack (length s.b)) && not malloc)) [
              | inl no_memory ↦ rw (other, size, no_memory) (ground arith, ground arith)
              | inr memory ↦
                  rw (other, size, memory) (wagner-Explains malloc pn_match s p some_a some_b)
            ]
          ]
    ]

compare_apart-Explains :
    (malloc pn_match : Bool) (s : Apart)
    → All NonZero s.a
    → All NonZero s.b
    → Explains malloc pn_match
        (some s.a)
        (some s.b)
        (with_match pn_match (compare_apart malloc pn_match s))
unfolding compare_apart
compare_apart-Explains malloc pn_match s p q = elim (Bool-cases (is_empty s.a && is_empty s.b)) [
  | inl over ↦ rw over (omega arith)
  | inr apart ↦ elim (Bool-cases (not (is_ascii s.a) || not (is_ascii s.b))) [
    | inl foreign ↦ rw (apart, foreign) (ground arith)
    | inr ascii ↦ elim (Bool-cases (is_empty s.a)) [
      | inl no_a ↦
          let some_b : is_empty s.b ≡ false = ground arith in
          rw (ascii, no_a, some_b)
            (cost_of-Explains malloc pn_match s.a s.b (insert_all s.dc s.b) s.n_match
              (omega (arith, insert_all-le s.dc s.b)))
      | inr some_a ↦ elim (Bool-cases (is_empty s.b)) [
        | inl no_b ↦
            rw (ascii, some_a, no_b)
              (cost_of-Explains malloc pn_match s.a s.b (delete_all s.dc s.a) s.n_match
                (omega (arith, delete_all-le s.dc s.a)))
        | inr some_b ↦
            rw (ascii, some_a, some_b)
              (allocated malloc pn_match s p (some_left s.a some_a) (some_left s.b some_b))
      ]
    ]
  ]
]

ends_in_star-append :
    (p z : List ℕ) → All NonZero (p ++ z) → 0 < length z → ends_in_star (p ++ z) ≡ ends_in_star z
unfolding ends_in_star
ends_in_star-append [] z h some_z = refl
ends_in_star-append (c ∷ p) z (some_c, h) some_z =
    let more : 0 < length (p ++ z) = omega (arith, length-append p z) in
    rw (not_empty (p ++ z) h more) (ends_in_star-append p z h some_z)

-- What explains an answer about the ends of two strings explains it about the strings.
Explains-longer :
    (malloc pn_match : Bool) (a b : List ℕ) (s : Apart)
    → All NonZero a
    → IsSkipped a b 0 s
    → (answer : Option (ℤ × Option ℕ)) → Explains malloc pn_match (some s.a) (some s.b) answer
    → Explains malloc pn_match (some a) (some b) answer
Explains-longer malloc pn_match a b s p h none (inl long) =
    rw (h.whole_a, h.whole_b)
      (inl (omega (arith, long, length-append h.prefix s.a, length-append h.prefix s.b)))
Explains-longer malloc pn_match a b s p h none (inr (wanted, some_a, plain)) =
    let p' = rw h.whole_a at p in
    rw (h.whole_a, h.whole_b)
      (inr (
        wanted,
        omega (arith, some_a, length-append h.prefix s.a),
        ends_in_star-append h.prefix s.a p' some_a ∙ plain,
      ))
Explains-longer malloc pn_match a b s p h (some (pos cost, _)) e =
    rw (h.whole_a, h.whole_b)
      (omega (arith, e, length-append h.prefix s.a, length-append h.prefix s.b))
Explains-longer malloc pn_match a b s p h (some (negsuc zero, _)) e = e
Explains-longer malloc pn_match a b s p h (some (negsuc (suc zero), _)) e =
    rw (h.whole_a, h.whole_b, is_ascii-append h.prefix s.a, is_ascii-append h.prefix s.b)
      (ground arith)
Explains-longer malloc pn_match a b s p h (some (negsuc (suc (suc zero)), _)) (refused, long) =
    (refused, rw h.whole_b (omega (arith, length-append h.prefix s.b)))
Explains-longer malloc pn_match a b s p h (some (negsuc (suc (suc (suc n))), _)) e = e

-- A string is NULL, or bytes that hold no NUL.
abbrev pub IsString : Option (List ℕ) → Type 0
IsString none = Unit {0}
IsString (some z) = All NonZero z

-- For texts without a NUL: the answer is -1 if a string is NULL. Otherwise it is a cost of at most
-- 100 for each character of both; or -2, and then a byte is not ASCII; or -3, and then the memory is
-- refused and the second string has 60 characters or more. What it answers is undefined only if 100
-- for each character of both and one more exceed an `int`, or if pnMatch is not NULL for a pattern
-- that is not empty and does not end in `*`.
pub editdist1-Explains :
    (malloc pn_match : Bool) (a b : Option (List ℕ))
    → IsString a
    → IsString b
    → Explains malloc pn_match a b (editdist1 malloc pn_match a b)
unfolding editdist1
editdist1-Explains malloc pn_match none b p q = refl
editdist1-Explains malloc pn_match (some a) none p q = refl
editdist1-Explains malloc pn_match (some a) (some b) p q =
    let s = skip_common 0 0 a b in
    let skipped = skip_common-IsSkipped 0 0 a b p q in
    let pa = All-suffix skipped.prefix s.a (rw skipped.whole_a at p) in
    let qb = All-suffix skipped.prefix s.b (rw skipped.whole_b at q) in
    Explains-longer malloc pn_match a b s p skipped
      (with_match pn_match (compare_apart malloc pn_match s))
      (compare_apart-Explains malloc pn_match s pa qb)
