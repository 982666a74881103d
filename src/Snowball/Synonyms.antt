-- ===== src/Snowball/Synonyms.antt =====
-- addSynonyms.
use letarette.Base.{ℕ, true, not, List, [], ◌∷◌, if◌then◌else◌}
use letarette.Sqlite.{Rc, done, is_ok, Token}
use letarette.Snowball.Session.{idle, busy, is_prepared, Database, Emitted, Session, Emit}

abbrev pub synonym_of : Token → List ℕ → Emitted
synonym_of t word = record { colocated = true; bytes = word; start = t.start; finish = t.finish }

module _ {ℓ} {S : Type ℓ} (emit : Emit S) (db : Database) (t : Token) where
  -- The loop over the rows; the code it ends with is that of the last step or of the caller.
  unfoldable pub emit_synonyms : List (List ℕ) → S → Rc × S
  emit_synonyms [] caller = (db.synonyms_end t, caller)
  emit_synonyms (word ∷ words) caller =
      let (rc, caller') = emit caller (synonym_of t word) in
      let rest = emit_synonyms words caller' in if not (is_ok rc) then (rc, caller') else rest

  unfoldable pub finish_synonyms : Session S → Rc × S → Rc × Session S
  finish_synonyms s (done, caller) =
      (db.reset_synonym t, record s { synonym = idle; caller = caller })
  finish_synonyms s (rc, caller) = (rc, record s { synonym = busy; caller = caller })

  bind_synonym : Session S → Rc × Session S
  unfolding finish_synonyms
  bind_synonym s =
      if not (is_ok (db.bind_synonym t))
      then (db.bind_synonym t, s)
      else finish_synonyms s (emit_synonyms (db.synonyms t) s.caller)

  unfoldable pub add_synonyms : Session S → Rc × Session S
  unfolding bind_synonym
  add_synonyms s =
      if is_prepared s.synonym
      then bind_synonym s
      else if not (is_ok (db.prepare_synonym t))
      then (db.prepare_synonym t, s)
      else bind_synonym (record s { synonym = idle })
