-- ===== src/Spellfix/Phonetic/Tidy.antt =====
-- What phoneticHash promises: no doubled symbol, no vowel beside R or L, and room for the result.
use letarette.Base.{
  ℕ, ◌+◌, ◌≤◌, ◌<◌, ◌≡◌, refl, sym, ◌≢◌, inl, inr, Bool, true, false, ◌&&◌, ◌||◌, not, some, List,
  [], ◌∷◌, arith, ◌==◌, if◌then◌else◌, Bool-cases, length, All, IsByte,
}
use letarette.Spellfix.Classes.{
  mid_class, init_class, class_name, class_silent, class_vowel, class_digit, class_space,
  class_other, class-lt, class_name_iff,
}
use letarette.Spellfix.Phonetic.{
  HashState, is_omitted, push_symbol, pop_symbol, is_liquid, hash_heard, hash_class, hash_loop,
  skip_first, start, reversed_onto, phonetic_hash,
}

abbrev pub liquid_symbol : ℕ → Bool
liquid_symbol c = c == b'R' || c == b'L'

-- Two symbols that may stand side by side.
abbrev pub Fits : ℕ → ℕ → Type 0
Fits c d =
    (c ≢ d) × ((c == b'A' && liquid_symbol d) ≡ false) × ((d == b'A' && liquid_symbol c) ≡ false)

abbrev pub FitsHead : ℕ → List ℕ → Type 0
FitsHead c [] = Unit {0}
FitsHead c (d ∷ out) = Fits c d

abbrev pub IsTidy : List ℕ → Type 0
IsTidy [] = Unit {0}
IsTidy (c ∷ out) = FitsHead c out × IsTidy out

-- The loop has heard a class, and its symbol is the last one written; or nothing yet.
abbrev IsRecorded : ℕ → List ℕ → Type 0
IsRecorded c_prev_x [] = c_prev_x ≡ 0x77
IsRecorded c_prev_x (d ∷ out) = (c_prev_x < 13) × (d ≡ class_name c_prev_x)

record IsHashing (s : HashState) : Type 0 where
  recorded : IsRecorded s.c_prev_x s.out
  tidy : IsTidy s.out

push_symbol-IsRecorded :
    (k : ℕ) (out : List ℕ) → k < 13 → IsRecorded k (push_symbol (class_name k) out)
unfolding push_symbol
push_symbol-IsRecorded k [] h = (h, refl)
push_symbol-IsRecorded k (d ∷ out) h = ground arith

-- If the symbol is written, it fits the last one.
abbrev CanPush : ℕ → List ℕ → Type 0
CanPush c [] = Unit {0}
CanPush c (d ∷ out) = c ≢ d → Fits c d

push_symbol-IsTidy :
    (c : ℕ) (out : List ℕ) → IsTidy out → CanPush c out → IsTidy (push_symbol c out)
unfolding push_symbol
push_symbol-IsTidy c [] t h = (tt, tt)
push_symbol-IsTidy c (d ∷ out) t h = elim (Bool-cases (c == d)) [
  | inl same ↦ rw same t
  | inr differs ↦ rw differs (h (ground arith), t)
]

-- A symbol goes behind that of the class heard before, unless one is a vowel and the other R or L.
Fits-class_name :
    (k j : ℕ)
    → k < 13
    → j < 13
    → (is_liquid k && j == class_vowel) ≡ false
    → (k == class_vowel && is_liquid j) ≡ false
    → class_name k ≢ class_name j
    → Fits (class_name k) (class_name j)
Fits-class_name k j hk hj p q ne = (
  ne,
  ground (arith, class_name_iff k hk, class_name_iff j hj),
  ground (arith, class_name_iff k hk, class_name_iff j hj),
)

-- R or L goes behind whatever stands before a vowel.
Fits-is_liquid :
    (k e : ℕ) → k < 13 → is_liquid k ≡ true → Fits b'A' e → class_name k ≢ e → Fits (class_name k) e
Fits-is_liquid k e hk liquid (differs, _, _) ne =
    (ne, ground (arith, class_name_iff k hk), ground arith)

CanPush-liquid :
    (k : ℕ) (out : List ℕ)
    → k < 13
    → is_liquid k ≡ true
    → FitsHead b'A' out
    → CanPush (class_name k) out
CanPush-liquid k [] hk liquid fits = tt
CanPush-liquid k (e ∷ out) hk liquid fits = Fits-is_liquid k e hk liquid fits

pushed-IsTidy :
    (k x : ℕ) (out : List ℕ)
    → k < 13
    → (k == class_vowel && is_liquid x) ≡ false
    → IsRecorded x out
    → IsTidy out
    → IsTidy (
        push_symbol
          (class_name k)
          (if is_liquid k && x == class_vowel then pop_symbol out else out))
unfolding pop_symbol
pushed-IsTidy k x [] hk q r t =
    let none_popped : (is_liquid k && x == class_vowel) ≡ false = rw r (ground arith) in
    rw none_popped (push_symbol-IsTidy (class_name k) [] tt tt)
pushed-IsTidy k x (d ∷ out) hk q (hx, named) (fits, t) =
    elim (Bool-cases (is_liquid k && x == class_vowel)) [
      | inl popped ↦
          let vowel : d ≡ b'A' = ground (arith, class_name_iff x hx) in
          rw popped (
            push_symbol-IsTidy (class_name k) out t
              (CanPush-liquid k out hk (ground arith) (rw vowel at fits)))
      | inr kept ↦ rw kept (
          push_symbol-IsTidy (class_name k) (d ∷ out) (fits, t)
            (rw named (Fits-class_name k x hk hx kept q)))
    ]

hash_heard-IsHashing : (k : ℕ) (s : HashState) → k < 13 → IsHashing s → IsHashing (hash_heard k s)
unfolding hash_heard
hash_heard-IsHashing k s hk h = elim (Bool-cases (k == class_vowel && is_liquid s.c_prev_x)) [
  | inl passed ↦ rw passed (record { recorded = h.recorded; tidy = h.tidy })
  | inr heard ↦ elim (Bool-cases (k == class_silent)) [
    | inl silent ↦
        let none_popped : (is_liquid k && s.c_prev_x == class_vowel) ≡ false = ground arith in
        rw (heard, silent, none_popped) (record { recorded = h.recorded; tidy = h.tidy })
    | inr sounds ↦
        rw (heard, sounds)
          (record {
            recorded = push_symbol-IsRecorded k _ hk;
            tidy = pushed-IsTidy k s.c_prev_x s.out hk heard h.recorded h.tidy;
          })
  ]
]

hash_class-IsHashing : (k : ℕ) (s : HashState) → k < 13 → IsHashing s → IsHashing (hash_class k s)
unfolding hash_class
hash_class-IsHashing k s hk h =
    elim (Bool-cases (k == class_space || (k == class_other && not (s.c_prev == class_digit)))) [
      | inl passed ↦ rw passed h
      | inr heard ↦ rw heard (hash_heard-IsHashing k s hk h)
    ]

hash_loop-IsHashing :
    (word : List ℕ) (s : HashState) → All IsByte word → IsHashing s → IsHashing (hash_loop word s)
unfolding hash_loop
hash_loop-IsHashing [] s bytes h = h
hash_loop-IsHashing (c ∷ rest) s (byte, bytes) h =
    hash_loop-IsHashing rest _ bytes (elim (Bool-cases (is_omitted c rest)) [
      | inl omitted ↦ rw omitted h
      | inr told ↦ rw told (
          hash_class-IsHashing (if s.initial then init_class c else mid_class c) s
            (elim (Bool-cases s.initial) [
              | inl first ↦ rw first (class-lt c byte).1
              | inr later ↦ rw later (class-lt c byte).0
            ])
            h)
    ])

abbrev Joins : List ℕ → List ℕ → Type 0
Joins [] out = Unit {0}
Joins (x ∷ xs) out = FitsHead x out

Joins-nil : (xs : List ℕ) → Joins xs []
Joins-nil [] = tt
Joins-nil (x ∷ xs) = tt

Fits-symm : (c d : ℕ) → Fits c d → Fits d c
Fits-symm c d (ne, p, q) = ((λ e. ne (sym e)), q, p)

-- Turning the bytes round keeps them tidy.
reversed_onto-IsTidy :
    (xs out : List ℕ) → IsTidy xs → IsTidy out → Joins xs out → IsTidy (reversed_onto xs out)
unfolding reversed_onto
reversed_onto-IsTidy [] out t u j = u
reversed_onto-IsTidy (x ∷ []) out t u j = (j, u)
reversed_onto-IsTidy (x ∷ y ∷ xs) out ((fits, tidy)) u j =
    reversed_onto-IsTidy (y ∷ xs) (x ∷ out) tidy (j, u) (Fits-symm x y fits)

length-reversed_onto : (xs out : List ℕ) → length (reversed_onto xs out) ≡ length xs + length out
unfolding reversed_onto
length-reversed_onto [] out = omega arith
length-reversed_onto (x ∷ xs) out = omega (arith, length-reversed_onto xs (x ∷ out))

length-push_symbol : (c : ℕ) (out : List ℕ) → length (push_symbol c out) ≤ length out + 1
unfolding push_symbol
length-push_symbol c [] = omega arith
length-push_symbol c (d ∷ out) = ground arith

length-pop_symbol : (out : List ℕ) → length (pop_symbol out) ≤ length out
unfolding pop_symbol
length-pop_symbol [] = omega arith
length-pop_symbol (d ∷ out) = omega arith

length-hash_class : (k : ℕ) (s : HashState) → length (hash_class k s).out ≤ length s.out + 1
unfolding hash_class hash_heard
length-hash_class k s = ground (
  arith,
  length-push_symbol (class_name k) s.out,
  length-push_symbol (class_name k) (pop_symbol s.out),
  length-pop_symbol s.out,
)

length-hash_loop :
    (word : List ℕ) (s : HashState) → length (hash_loop word s).out ≤ length s.out + length word
unfolding hash_loop
length-hash_loop [] s = omega arith
length-hash_loop (c ∷ rest) s = ground (
  arith,
  length-hash_loop rest s,
  length-hash_loop rest (hash_class (init_class c) s),
  length-hash_loop rest (hash_class (mid_class c) s),
  length-hash_class (init_class c) s,
  length-hash_class (mid_class c) s,
)

skip_first_kept :
    (word : List ℕ)
    → All IsByte word
    → All IsByte (skip_first word) × (length (skip_first word) ≤ length word)
unfolding skip_first
skip_first_kept [] h = (h, omega arith)
skip_first_kept (c ∷ []) h = (h, omega arith)
skip_first_kept (c ∷ d ∷ []) h = (h, omega arith)
skip_first_kept (c ∷ d ∷ e ∷ rest) h = elim (Bool-cases ((c == b'g' || c == b'k') && d == b'n')) [
  | inl silent ↦ rw silent (h.1, omega arith)
  | inr heard ↦ rw heard (h, omega arith)
]

-- The hash of any bytes has no symbol twice in a row and no vowel symbol beside R or L, and is no
-- longer than the word, so that it fits the nIn + 1 bytes that are allocated for it.
pub phonetic_hash-IsTidy :
    (malloc : Bool) (word hash : List ℕ)
    → All IsByte word
    → phonetic_hash malloc word ≡ some hash
    → IsTidy hash × (length hash ≤ length word)
unfolding phonetic_hash
phonetic_hash-IsTidy malloc word hash bytes e =
    let (kept, shorter) = skip_first_kept word bytes in
    let out = (hash_loop (skip_first word) start).out in
    let same : hash ≡ reversed_onto out [] = ground arith in
    let hashing =
      hash_loop-IsHashing (skip_first word) start kept (record { recorded = refl; tidy = tt }) in
    rw same (
      reversed_onto-IsTidy out [] hashing.tidy tt (Joins-nil out),
      omega (arith, length-reversed_onto out [], length-hash_loop (skip_first word) start),
    )
