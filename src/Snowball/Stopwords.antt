-- ===== src/Snowball/Stopwords.antt =====
-- isStopWord.
use letarette.Base.{
  ◌≡◌, refl, ◌≢◌, ◌↔◌, ◌⊎◌, Bool, true, false, not, arith, if◌then◌else◌, ℤ, pos, negsuc, ltb_ℤ,
}
use letarette.Sqlite.{Rc, ok, row, is_ok, Token}
use letarette.Snowball.Session.{Statement, unprepared, idle, busy, is_prepared, Database}

abbrev is_row : Rc → Bool
is_row row = true
is_row _ = false

-- The part behind the step.
reset_status : Database → Token → ℤ × Statement
reset_status db t =
    if not (is_row (db.step_stopword t))
    then (negsuc 2, busy)
    else if not (is_ok (db.reset_stopword t))
    then (negsuc 3, idle)
    else (db.count t, idle)

-- The part behind the preparation. A failed bind leaves the statement as it is.
bind_status : Database → Token → Statement → ℤ × Statement
unfolding reset_status
bind_status db t s = if not (is_ok (db.bind_stopword t)) then (negsuc 1, s) else reset_status db t

-- The number of rows that hold the word, or -1 to -4 for the call that failed, and the statement
-- afterwards.
unfoldable pub is_stop_word : Database → Token → Statement → ℤ × Statement
unfolding bind_status
is_stop_word db t s =
    if is_prepared s
    then bind_status db t s
    else if not (is_ok (db.prepare_stopword t))
    then (negsuc 0, unprepared)
    else bind_status db t idle

-- Every call of the stop word query succeeds for the token, and no count is negative.
pub record IsHealthy (db : Database) (t : Token) : Type 0 where
  pub prepares : db.prepare_stopword t ≡ ok
  pub binds : db.bind_stopword t ≡ ok
  pub steps : db.step_stopword t ≡ row
  pub resets : db.reset_stopword t ≡ ok
  pub counts : ltb_ℤ (db.count t) (pos 0) ≡ false

-- Where every call succeeds the status is the count, and the statement is ready for the next word.
pub is_stop_word_healthy :
    (db : Database) (t : Token) (s : Statement)
    → IsHealthy db t
    → is_stop_word db t s ≡ (db.count t, idle)
unfolding is_stop_word
is_stop_word_healthy db t s h = rw (h.prepares, h.binds, h.steps, h.resets) (ground arith)

-- If no count is negative, the status is negative exactly if a call failed that was made; and if
-- the statement was not busy before, it is busy afterwards exactly if the step failed.
pub is_stop_word-status :
    (db : Database) (t : Token) (s : Statement)
    → ltb_ℤ (db.count t) (pos 0) ≡ false
    → s ≢ busy
    → ((ltb_ℤ (is_stop_word db t s).0 (pos 0) ≡ false) ↔ (
        ((is_prepared s ≡ true) ⊎ (db.prepare_stopword t ≡ ok))
        × (db.bind_stopword t ≡ ok)
        × (db.step_stopword t ≡ row)
        × (db.reset_stopword t ≡ ok)))
      × (((is_stop_word db t s).1 ≡ busy) ↔ ((is_stop_word db t s).0 ≡ negsuc 2))
unfolding is_stop_word
is_stop_word-status db t unprepared counts free = ground arith
is_stop_word-status db t idle counts free = ground arith
is_stop_word-status db t busy counts free = absurd (free refl)
