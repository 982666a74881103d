-- ===== src/Sqlite.antt =====
-- The parts of SQLite's C interface that the extensions share: result codes as they branch on them,
-- values, answers and tokens. The numbers behind the codes are SQLite's, and nothing depends on them.
pub mod Walk
use letarette.Base.{
  ℕ, zero, suc, ◌+◌, ◌-◌, ◌*◌, ◌/◌, ◌%◌, ◌^◌, ◌≤◌, ◌<◌, bit_and, bit_or, ◌≡◌, refl, sym, ap, ◌∙◌,
  ◌≢◌, ◌↔◌, ◌⊎◌, inl, inr, Bool, true, false, ◌&&◌, ◌||◌, not, Option, none, some, List, [], ◌∷◌,
  ◌++◌, append_assoc, append-nil, arith, ltb, leb, ◌==◌, ==_iff, if◌then◌else◌, Bool-cases,
  Option-cases, length, take, drop, length-append, All, IsByte, ℤ, pos, negsuc, pos_part, neg_part,
  ltb_ℤ, eqb_ℤ, eqb_ℤ→eq, to_int32,
}

pub data Rc : Type 0 where
  ok error row done : Rc
  other : ℕ → Rc

-- SQLITE_NOMEM
abbrev pub no_mem : Rc
no_mem = other 7

-- `rc == SQLITE_OK`
abbrev pub is_ok : Rc → Bool
is_ok ok = true
is_ok _ = false

-- What a function hands to SQLite as its result. `fault` is no such answer: the C code goes through
-- a null pointer or overflows an `int`.
pub data Answer : Type 0 where
  int : ℤ → Answer
  text : List ℕ → Answer
  null : Answer
  error : Rc → Answer
  fault : Answer

-- An argument of an SQL function, by what sqlite3_value_text and sqlite3_value_int read from it.
pub record Value : Type 0 where
  pub bytes : List ℕ
  pub number : ℤ

-- A token that FTS5 reports: its text, and the bytes of the input that it stands for.
pub record Token : Type 0 where
  pub bytes : List ℕ
  pub start : ℕ
  pub finish : ℕ

-- Goes on after SQLITE_OK only.
abbrev pub and_then {ℓ} : {S : Type ℓ} → Rc × S → (S → Rc × S) → Rc × S
and_then (ok, s) next = next s
and_then (rc, s) next = (rc, s)

-- FTS5's documentation of xTokenize: the callback sees the tokens in order, and the first answer
-- that is not SQLITE_OK ends the walk and is the result.
unfoldable pub deliver {ℓ κ} : {S : Type ℓ} {A : Type κ} → (S → A → Rc × S) → S → List A → Rc × S
deliver callback s [] = (ok, s)
deliver callback s (a ∷ rest) = and_then (callback s a) (λ s'. deliver callback s' rest)

-- What an extension relies on in a tokenizer: it reports the tokens of the text, whatever the
-- callback is.
pub record Tokenizes {ℓ} {S : Type ℓ} (tokens : List ℕ → List Token)
    (tokenize : (S → Token → Rc × S) → S → List ℕ → Rc × S) : Type ℓ where
  pub delivers :
      (callback : S → Token → Rc × S) (s : S) (bytes : List ℕ)
      → tokenize callback s bytes ≡ deliver callback s (tokens bytes)

-- The calls that are made when a list of registrations stops at the first failure.
unfoldable pub until_failure {ℓ} : {A : Type ℓ} → (A → Rc) → List A → List A
until_failure create [] = []
until_failure create (a ∷ rest) = if is_ok (create a) then a ∷ until_failure create rest else a ∷ []
