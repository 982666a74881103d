-- ===== src/Snowball/Searching.antt =====
-- Tokenizing a query: stop words are removed from single words, and synonyms are added.
use letarette.Base.{
  ℕ, ◌≡◌, refl, ap, ◌∙◌, ◌≢◌, inl, inr, Bool, true, ◌&&◌, ◌||◌, not, List, [], ◌∷◌, if◌then◌else◌,
  Bool-cases, All, pos, eqb_ℤ,
}
use letarette.Sqlite.{Rc, ok, row, done, error, other, is_ok, Token, deliver, and_then, Tokenizes}
use letarette.Sqlite.Walk.{deliver-Refines, seen, all_terms, Refines}
use letarette.Snowball.Session.{idle, is_prepared, Database, Emitted, Session, Emit}
use letarette.Snowball.Stopwords.{IsHealthy, is_stop_word_healthy}
use letarette.Snowball.Synonyms.{synonym_of, emit_synonyms, finish_synonyms, add_synonyms}
use letarette.Snowball.Filter.{
  Settings, Mode, is_short, stemmed_token, emit_token, after_stopwords, snowball_callback, Flags,
  has_space, Parent, snowball_tokenize,
}
use mathlib.Core.List.{map}

-- Every call of the synonym query succeeds for the token.
pub record HasSynonyms (db : Database) (t : Token) : Type 0 where
  pub prepares : db.prepare_synonym t ≡ ok
  pub binds : db.bind_synonym t ≡ ok
  pub ends : db.synonyms_end t ≡ done
  pub resets : db.reset_synonym t ≡ ok

-- What a token of a query becomes: nothing if it is short or a stop word that is to be removed;
-- else its stem, and then its synonyms as they are in the database.
abbrev pub search_terms : Settings → Database → Bool → Token → List Emitted
search_terms settings db remove t =
    if is_short settings t.bytes || (remove && not (eqb_ℤ (db.count t) (pos 0)))
    then []
    else stemmed_token settings t ∷ map (synonym_of t) (db.synonyms t)

abbrev pub caller_of {ℓ} : {S : Type ℓ} → Session S → S
caller_of s = s.caller

module _ {ℓ} {S : Type ℓ} (emit : Emit S) (never_done : (c : S) (e : Emitted) → (emit c e).0 ≢ done)
    (db : Database) (t : Token) where
  -- The code that the loop over the rows ends with, in terms of a plain walk.
  loop_end : Rc × S → Rc × S
  loop_end (ok, c) = (db.synonyms_end t, c)
  loop_end (rc, c) = (rc, c)

  loop_step :
      (r : Rc × S) (f g : S → Rc × S)
      → ((c : S) → f c ≡ loop_end (g c))
      → (if not (is_ok r.0) then (r.0, r.1) else f r.1) ≡ loop_end (and_then r g)
  unfolding loop_end
  loop_step (ok, c) f g h = h c
  loop_step (error, c) f g h = refl
  loop_step (row, c) f g h = refl
  loop_step (done, c) f g h = refl
  loop_step (other n, c) f g h = refl

  ne_done_step :
      (r : Rc × S) (g : S → Rc × S)
      → r.0 ≢ done
      → ((c : S) → (g c).0 ≢ done)
      → (and_then r g).0 ≢ done
  ne_done_step (ok, c) g h k = k c
  ne_done_step (error, c) g h k = h
  ne_done_step (row, c) g h k = h
  ne_done_step (done, c) g h k = h
  ne_done_step (other n, c) g h k = h

  emit_synonyms-deliver :
      (words : List (List ℕ)) (c : S)
      → emit_synonyms emit db t words c ≡ loop_end (deliver emit c (map (synonym_of t) words))
  unfolding emit_synonyms deliver loop_end
  emit_synonyms-deliver [] c = refl
  emit_synonyms-deliver (word ∷ words) c =
      loop_step (emit c (synonym_of t word)) _ _ (emit_synonyms-deliver words)

  deliver-ne-done : (es : List Emitted) (c : S) → (deliver emit c es).0 ≢ done
  unfolding deliver
  deliver-ne-done [] c = λ e. cc
  deliver-ne-done (x ∷ es) c = ne_done_step (emit c x) _ (never_done c x) (deliver-ne-done es)

  finish_end :
      (s : Session S) (r : Rc × S)
      → HasSynonyms db t
      → r.0 ≢ done
      → seen caller_of (finish_synonyms emit db t s (loop_end r)) ≡ r
  unfolding finish_synonyms loop_end
  finish_end s (ok, c) h k = rw (h.ends, h.resets)
  finish_end s (error, c) h k = refl
  finish_end s (row, c) h k = refl
  finish_end s (done, c) h k = absurd (k refl)
  finish_end s (other n, c) h k = refl

  add_synonyms-deliver :
      (s : Session S)
      → HasSynonyms db t
      → seen caller_of (add_synonyms emit db t s)
        ≡ deliver emit s.caller (map (synonym_of t) (db.synonyms t))
  unfolding add_synonyms
  add_synonyms-deliver s h =
      let words = map (synonym_of t) (db.synonyms t) in
      let end = λ (s' : Session S).
        finish_end s' (deliver emit s'.caller words) h (deliver-ne-done words s'.caller) in
      rw (h.prepares, h.binds, emit_synonyms-deliver)
        (elim (Bool-cases (is_prepared s.synonym)) [
          | inl prepared ↦ rw prepared (end s)
          | inr fresh ↦ rw fresh (end (record s { synonym = idle }))
        ])

module _ {ℓ} {S : Type ℓ} (settings : Settings) (emit : Emit S)
    (never_done : (c : S) (e : Emitted) → (emit c e).0 ≢ done) (db : Database) (remove : Bool) where
  abbrev searching : Mode
  searching = record { remove_stopwords = remove; add_synonyms = true }

  emitted_step :
      (t : Token) (s : Session S) (r : Rc × S)
      → HasSynonyms db t
      → seen caller_of (
          if not (is_ok r.0)
          then (r.0, record s { caller = r.1 })
          else add_synonyms emit db t (record s { caller = r.1 }))
        ≡ and_then r (λ c. deliver emit c (map (synonym_of t) (db.synonyms t)))
  emitted_step t s (ok, c) h = add_synonyms-deliver emit never_done db t (record s { caller = c }) h
  emitted_step t s (error, c) h = refl
  emitted_step t s (row, c) h = refl
  emitted_step t s (done, c) h = refl
  emitted_step t s (other n, c) h = refl

  emit_token-deliver :
      (t : Token) (s : Session S)
      → HasSynonyms db t
      → seen caller_of (emit_token settings emit db searching s t)
        ≡ deliver emit s.caller (stemmed_token settings t ∷ map (synonym_of t) (db.synonyms t))
  unfolding emit_token deliver
  emit_token-deliver t s h = emitted_step t s (emit s.caller (stemmed_token settings t)) h

  callback-Refines :
      (t : Token)
      → IsHealthy db t
      → HasSynonyms db t
      → Refines caller_of
          (snowball_callback settings emit db searching)
          emit
          (search_terms settings db remove)
          t
  unfolding snowball_callback after_stopwords emit_token deliver
  callback-Refines t healthy h s = elim (Bool-cases (is_short settings t.bytes)) [
    | inl short ↦ rw short refl
    | inr long ↦ elim (Bool-cases remove) [
      | inl removing ↦
          rw (long, removing, is_stop_word_healthy db t s.stopword healthy, healthy.counts)
            (elim (Bool-cases (eqb_ℤ (db.count t) (pos 0))) [
              | inl kept ↦ rw kept (emit_token-deliver t (record s { stopword = idle }) h)
              | inr removed ↦ rw removed refl
            ])
      | inr keeping ↦ rw (long, keeping) (emit_token-deliver t s h)
    ]
  ]

  callbacks-Refine :
      (ts : List Token)
      → All (λ t. IsHealthy db t × HasSynonyms db t) ts
      → All
          (Refines caller_of
            (snowball_callback settings emit db searching)
            emit
            (search_terms settings db remove))
          ts
  callbacks-Refine [] h = tt
  callbacks-Refine (t ∷ ts) (here, later) =
      (callback-Refines t here.0 here.1, callbacks-Refine ts later)

module _ {ℓ} {S : Type ℓ} {tokens : List ℕ → List Token} {parent : Parent S}
    (law : Tokenizes tokens parent) (settings : Settings) (emit : Emit S)
    (never_done : (c : S) (e : Emitted) → (emit c e).0 ≢ done) (db : Database) where
  tokenize-callback :
      (flags : Flags) (bytes : List ℕ) (s : Session S)
      → (flags.query && not flags.prefix) ≡ true
      → snowball_tokenize settings emit db parent flags bytes s
        ≡ deliver
            (snowball_callback settings emit db
              (record { remove_stopwords = not (has_space bytes); add_synonyms = true }))
            s
            (tokens bytes)
  unfolding snowball_tokenize
  tokenize-callback flags bytes s asked = rw (asked, law.delivers)

  -- With flags that say query and not prefix, and while the database answers every call, the caller
  -- is handed the search terms of the tokens in order, until it answers something else than
  -- SQLITE_OK, which is then the result. Stop words are removed exactly if the text has no space.
  -- The caller is assumed never to answer SQLITE_DONE.
  pub tokenize-search_terms :
      (flags : Flags) (bytes : List ℕ) (s : Session S)
      → (flags.query && not flags.prefix) ≡ true
      → All (λ t. IsHealthy db t × HasSynonyms db t) (tokens bytes)
      → seen caller_of (snowball_tokenize settings emit db parent flags bytes s)
        ≡ deliver emit s.caller
            (all_terms (search_terms settings db (not (has_space bytes))) (tokens bytes))
  tokenize-search_terms flags bytes s asked healthy =
      let remove = not (has_space bytes) in
      ap (seen caller_of) (tokenize-callback flags bytes s asked)
      ∙ (deliver-Refines caller_of _ emit (search_terms settings db remove) s (tokens bytes)
          (callbacks-Refine settings emit never_done db remove (tokens bytes) healthy))
