-- ===== src/Auxiliary/Registration.antt =====
-- Loading the functions into FTS5.
use letarette.Base.{◌≡◌, ◌↔◌, Bool, true, [], ◌∷◌, arith, if◌then◌else◌}
use letarette.Sqlite.{Rc, ok, until_failure}
use letarette.Auxiliary.{
  Function, firstmatch, gettokens, tokens, fts5_api_from_db, init_auxiliary_functions,
}

-- Loading answers SQLITE_OK exactly if the FTS5 interface was found and all three functions were
-- registered, in the order firstmatch, gettokens, tokens; whichever it answers, nothing is
-- registered behind a failure, and nothing at all without the interface.
pub init_auxiliary_functions-ok :
    (prepare : Rc) (found : Bool) (create : Function → Rc)
    → ((init_auxiliary_functions prepare found create).0 ≡ ok ↔ (
        (fts5_api_from_db prepare found ≡ true)
        × (create firstmatch ≡ ok)
        × (create gettokens ≡ ok)
        × (create tokens ≡ ok)))
      × ((init_auxiliary_functions prepare found create).1 ≡ (
          if fts5_api_from_db prepare found
          then until_failure create (firstmatch ∷ gettokens ∷ tokens ∷ [])
          else []))
unfolding init_auxiliary_functions until_failure
init_auxiliary_functions-ok prepare found create = ground arith
