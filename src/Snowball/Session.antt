-- ===== src/Snowball/Session.antt =====
-- What the tokenizer keeps and what it calls: the prepared statements of `struct StemmerInstance`,
-- the database behind them, and the callback of its caller.
use letarette.Base.{ℕ, Bool, true, false, List, ℤ}
use letarette.Sqlite.{Rc, Token}

-- A statement is prepared on first use. It is busy from its first step to its next reset.
pub data Statement : Type 0 where
  unprepared idle busy : Statement

abbrev pub is_prepared : Statement → Bool
is_prepared unprepared = false
is_prepared idle = true
is_prepared busy = true

-- What the database answers while a token is handled. The answers may differ from token to token.
-- `count` is sqlite3_column_int after a step of the stop word query. The synonym query yields the
-- rows `synonyms`, and then `synonyms_end`, which is not SQLITE_ROW.
pub record Database : Type 0 where
  pub prepare_stopword : Token → Rc
  pub bind_stopword : Token → Rc
  pub step_stopword : Token → Rc
  pub count : Token → ℤ
  pub reset_stopword : Token → Rc
  pub prepare_synonym : Token → Rc
  pub bind_synonym : Token → Rc
  pub synonyms : Token → List (List ℕ)
  pub synonyms_end : Token → Rc
  pub reset_synonym : Token → Rc

-- A token handed to the caller's `xToken`. One that is not colocated has the flags of the token
-- from unicode61 that it stands for.
pub record Emitted : Type 0 where
  pub colocated : Bool
  pub bytes : List ℕ
  pub start : ℕ
  pub finish : ℕ

-- The two statements, and the state of the caller that its `xToken` changes.
pub record Session {ℓ} (S : Type ℓ) : Type ℓ where
  pub stopword : Statement
  pub synonym : Statement
  pub caller : S

abbrev pub Emit {ℓ} : Type ℓ → Type ℓ
Emit S = S → Emitted → Rc × S
