-- ===== src/Spellfix/Phonetic.antt =====
-- phoneticHash: the loop that turns a word into the symbols of its sound classes.
pub mod Tidy
pub mod Symbols
use letarette.Base.{
  ℕ, zero, suc, ◌+◌, ◌-◌, ◌*◌, ◌/◌, ◌%◌, ◌^◌, ◌≤◌, ◌<◌, bit_and, bit_or, ◌≡◌, refl, sym, ap, ◌∙◌,
  ◌≢◌, ◌↔◌, ◌⊎◌, inl, inr, Bool, true, false, ◌&&◌, ◌||◌, not, Option, none, some, List, [], ◌∷◌,
  ◌++◌, append_assoc, append-nil, arith, ltb, leb, ◌==◌, ==_iff, if◌then◌else◌, Bool-cases,
  Option-cases, length, take, drop, length-append, All, IsByte, ℤ, pos, negsuc, pos_part, neg_part,
  ltb_ℤ, eqb_ℤ, eqb_ℤ→eq, to_int32,
}
use letarette.Spellfix.Classes.{
  mid_class, init_class, class_name, class_silent, class_vowel, class_l, class_r, class_digit,
  class_space, class_other,
}

-- The variables of the loop. `out` is zOut[0..nOut-1] with its last byte first; `initial` says that
-- aClass is initClass.
pub record HashState : Type 0 where
  pub out : List ℕ
  pub c_prev : ℕ
  pub c_prev_x : ℕ
  pub initial : Bool

abbrev next_is : ℕ → List ℕ → Bool
next_is c [] = false
next_is c (d ∷ rest) = c == d

-- The letters that are not heard before those that follow: W before R, D before J or G, T before CH.
unfoldable pub is_omitted : ℕ → List ℕ → Bool
is_omitted c [] = false
is_omitted c (d ∷ rest) =
    (c == b'w' && d == b'r')
    || (c == b'd' && (d == b'j' || d == b'g'))
    || (c == b't' && d == b'c' && next_is b'h' rest)

-- `if( nOut==0 || c!=zOut[nOut-1] ) zOut[nOut++] = c`
unfoldable pub push_symbol : ℕ → List ℕ → List ℕ
push_symbol c [] = c ∷ []
push_symbol c (d ∷ out) = if c == d then d ∷ out else c ∷ d ∷ out

-- `nOut--`
unfoldable pub pop_symbol : List ℕ → List ℕ
pop_symbol [] = []
pop_symbol (d ∷ out) = out

abbrev pub is_liquid : ℕ → Bool
is_liquid k = k == class_r || k == class_l

-- The part behind `aClass = midClass`.
unfoldable pub hash_heard : ℕ → HashState → HashState
unfolding push_symbol pop_symbol
hash_heard k s =
    let out = if is_liquid k && s.c_prev_x == class_vowel then pop_symbol s.out else s.out in
    if k == class_vowel && is_liquid s.c_prev_x
    then record s { initial = false }
    else if k == class_silent
    then record s { initial = false; out = out; c_prev = k }
    else record { out = push_symbol (class_name k) out; c_prev = k; c_prev_x = k; initial = false }

unfoldable pub hash_class : ℕ → HashState → HashState
unfolding hash_heard
hash_class k s =
    if k == class_space || (k == class_other && not (s.c_prev == class_digit))
    then s
    else hash_heard k s

unfoldable pub hash_loop : List ℕ → HashState → HashState
unfolding is_omitted hash_class
hash_loop [] s = s
hash_loop (c ∷ rest) s = hash_loop rest (
    if is_omitted c rest then s else hash_class (if s.initial then init_class c else mid_class c) s)

-- The silent first letter of GN and KN, in a word of three bytes or more.
unfoldable pub skip_first : List ℕ → List ℕ
skip_first (c ∷ d ∷ e ∷ rest) =
    if (c == b'g' || c == b'k') && d == b'n' then d ∷ e ∷ rest else c ∷ d ∷ e ∷ rest
skip_first word = word

-- cPrev and cPrevX start as 0x77, which is no class.
abbrev pub start : HashState
start = record { out = []; c_prev = 0x77; c_prev_x = 0x77; initial = true }

-- The bytes from the last one to the first one.
unfoldable pub reversed_onto : List ℕ → List ℕ → List ℕ
reversed_onto [] out = out
reversed_onto (c ∷ rest) out = reversed_onto rest (c ∷ out)

-- `none` is the null pointer of a failed allocation; the NUL behind the hash is left out.
unfoldable pub phonetic_hash : Bool → List ℕ → Option (List ℕ)
unfolding hash_loop skip_first reversed_onto
phonetic_hash malloc word =
    if malloc then some (reversed_onto (hash_loop (skip_first word) start).out []) else none
