-- ===== src/Snowball/Indexing.antt =====
-- Tokenizing a document: no stop words are removed and no synonyms are added.
use letarette.Base.{
  ℕ, ◌≡◌, refl, inl, inr, false, ◌&&◌, not, List, [], ◌∷◌, arith, if◌then◌else◌, Bool-cases,
}
use letarette.Sqlite.{Rc, ok, row, done, error, other, is_ok, Token, deliver, and_then, Tokenizes}
use letarette.Snowball.Session.{Database, Emitted, Session, Emit}
use letarette.Snowball.Filter.{
  Settings, Mode, is_short, stemmed_token, snowball_callback, Flags, Parent, snowball_tokenize,
}

-- The tokens of a document as the index stores them: those that are not short, each stemmed.
abbrev pub index_terms : Settings → List Token → List Emitted
index_terms settings [] = []
index_terms settings (t ∷ ts) =
    if is_short settings t.bytes
    then index_terms settings ts
    else stemmed_token settings t ∷ index_terms settings ts

abbrev pub with_caller {ℓ} : {S : Type ℓ} → Session S → Rc × S → Rc × Session S
with_caller s (rc, caller) = (rc, record s { caller = caller })

abbrev plain : Mode
plain = record { remove_stopwords = false; add_synonyms = false }

module _ {ℓ} {S : Type ℓ} (settings : Settings) (emit : Emit S) (db : Database) where
  kept_token :
      (r : Rc × S) (s : Session S)
      → (if not (is_ok r.0)
          then (r.0, record s { caller = r.1 })
          else (ok, record s { caller = r.1 }))
        ≡ with_caller s r
  kept_token (rc, caller) s = ground arith

  go_on :
      (s : Session S) (r : Rc × S) (next : Session S → Rc × Session S) (simple : S → Rc × S)
      → ((s' : Session S) → next s' ≡ with_caller s' (simple s'.caller))
      → and_then (with_caller s r) next ≡ with_caller s (and_then r simple)
  go_on s (ok, caller) next simple h = h (record s { caller = caller })
  go_on s (error, caller) next simple h = refl
  go_on s (row, caller) next simple h = refl
  go_on s (done, caller) next simple h = refl
  go_on s (other n, caller) next simple h = refl

  deliver-index_terms :
      (s : Session S) (ts : List Token)
      → deliver (snowball_callback settings emit db plain) s ts
        ≡ with_caller s (deliver emit s.caller (index_terms settings ts))
  unfolding deliver snowball_callback
  deliver-index_terms s [] = refl
  deliver-index_terms s (t ∷ ts) = elim (Bool-cases (is_short settings t.bytes)) [
    | inl short ↦ rw (short, deliver) (deliver-index_terms s ts)
    | inr long ↦ rw (long, deliver, kept_token) (go_on s _ _ _ (λ s'. deliver-index_terms s' ts))
  ]

module _ {ℓ} {S : Type ℓ} {tokens : List ℕ → List Token} {parent : Parent S}
    (law : Tokenizes tokens parent) (settings : Settings) (emit : Emit S) (db : Database) where
  -- Unless the flags say query and not prefix, the caller is handed the index terms of the text in
  -- order, until it answers something else than SQLITE_OK, which is then the result; neither
  -- statement is touched.
  pub tokenize-index_terms :
      (flags : Flags) (bytes : List ℕ) (s : Session S)
      → (flags.query && not flags.prefix) ≡ false
      → snowball_tokenize settings emit db parent flags bytes s
        ≡ with_caller s (deliver emit s.caller (index_terms settings (tokens bytes)))
  unfolding snowball_tokenize
  tokenize-index_terms flags bytes s indexing =
      rw (indexing, law.delivers) (deliver-index_terms settings emit db s (tokens bytes))
