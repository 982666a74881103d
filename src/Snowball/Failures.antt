-- ===== src/Snowball/Failures.antt =====
-- What addSynonyms does where its caller stops the walk over the synonyms.
use letarette.Base.{
  ℕ, ◌≡◌, refl, sym, ◌≢◌, inl, inr, Bool, true, false, List, [], ◌∷◌, ◌++◌, if◌then◌else◌,
  Bool-cases,
}
use mathlib.Core.Path.{subst}
use letarette.Sqlite.{Rc, ok, row, done, error, other, is_ok, Token}
use letarette.Snowball.Session.{idle, busy, is_prepared, Database, Session, Emit}
use letarette.Snowball.Synonyms.{synonym_of, emit_synonyms, finish_synonyms, add_synonyms}

abbrev pub is_done : Rc → Bool
is_done done = true
is_done _ = false

not_ok : (rc : Rc) → rc ≢ ok → is_ok rc ≡ false
not_ok ok ne = absurd (ne refl)
not_ok error ne = refl
not_ok row ne = refl
not_ok done ne = refl
not_ok (other n) ne = refl

module _ {ℓ} {S : Type ℓ} (emit : Emit S) (db : Database) (t : Token) where
  -- The caller answers SQLITE_OK for each of the words, and goes from one state to another.
  abbrev pub Accepted : List (List ℕ) → S → S → Type ℓ
  Accepted [] c c' = c ≡ c'
  Accepted (word ∷ words) c c' =
      (c1 : S) × (emit c (synonym_of t word) ≡ (ok, c1)) × Accepted words c1 c'

  emit_synonyms_stopped :
      (before after : List (List ℕ)) (word : List ℕ) (rc : Rc) (c c1 c2 : S)
      → Accepted before c c1
      → emit c1 (synonym_of t word) ≡ (rc, c2)
      → rc ≢ ok
      → emit_synonyms emit db t (before ++ word ∷ after) c ≡ (rc, c2)
  unfolding emit_synonyms
  emit_synonyms_stopped [] after word rc c c1 c2 same answer ne =
      let here = subst (λ x. emit x (synonym_of t word) ≡ (rc, c2)) (sym same) answer in
      rw (here, not_ok rc ne) refl
  emit_synonyms_stopped (w ∷ before) after word rc c c1 c2 (c', e, accepted) answer ne =
      rw e (emit_synonyms_stopped before after word rc c' c1 c2 accepted answer ne)

  -- What addSynonyms answers where the caller answers `rc`, and what it leaves.
  abbrev pub stopped : Rc → Session S → S → Rc × Session S
  stopped rc s c =
      if is_done rc
      then (db.reset_synonym t, record s { synonym = idle; caller = c })
      else (rc, record s { synonym = busy; caller = c })

  finish_synonyms-stopped :
      (s : Session S) (rc : Rc) (c : S) → finish_synonyms emit db t s (rc, c) ≡ stopped rc s c
  unfolding finish_synonyms
  finish_synonyms-stopped s ok c = refl
  finish_synonyms-stopped s error c = refl
  finish_synonyms-stopped s row c = refl
  finish_synonyms-stopped s done c = refl
  finish_synonyms-stopped s (other n) c = refl

  -- Where the synonym query can be prepared and bound, and the caller answers SQLITE_OK for some
  -- synonyms and `rc` for the next one: the caller is handed no further synonym. If `rc` is
  -- SQLITE_DONE, addSynonyms answers what the reset answers, so that the caller's wish to stop is
  -- lost; else it answers `rc`, and the query is left busy, without a reset.
  pub add_synonyms_stopped :
      (s : Session S) (before after : List (List ℕ)) (word : List ℕ) (rc : Rc) (c1 c2 : S)
      → db.prepare_synonym t ≡ ok
      → db.bind_synonym t ≡ ok
      → db.synonyms t ≡ before ++ word ∷ after
      → Accepted before s.caller c1
      → emit c1 (synonym_of t word) ≡ (rc, c2)
      → rc ≢ ok
      → add_synonyms emit db t s ≡ stopped rc s c2
  unfolding add_synonyms
  add_synonyms_stopped s before after word rc c1 c2 prepares binds listed accepted answer ne =
      let loop = emit_synonyms_stopped before after word rc s.caller c1 c2 accepted answer ne in
      elim (Bool-cases (is_prepared s.synonym)) [
        | inl prepared ↦ rw (prepared, binds, listed, loop) (finish_synonyms-stopped s rc c2)
        | inr fresh ↦
            rw (fresh, prepares, binds, listed, loop)
              (finish_synonyms-stopped (record s { synonym = idle }) rc c2)
      ]
