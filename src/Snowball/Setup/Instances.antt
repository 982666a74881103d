-- ===== src/Snowball/Setup/Instances.antt =====
-- The tokenizer instances that FTS5 makes and deletes while a module is registered.
use letarette.Base.{
  ℕ, zero, suc, ◌+◌, ◌≡◌, sym, ◌∙◌, ap, ◌≢◌, Bool, Option, none, some, List, [], ◌∷◌, arith,
  if◌then◌else◌,
}
use mathlib.Core.Path.{subst}
use letarette.Sqlite.{Rc, is_ok}
use letarette.Snowball.Setup.{
  Heap, StemmerModule, Environment, Options, registered, init_snowball_stemmer,
  destroy_stemmer_module, fts_snowball_create, fts_snowball_delete, prepare_statement,
}
use letarette.Snowball.Setup.Lifetime.{
  IsStart, started, destroy-started, init_snowball_stemmer-IsStart,
}

-- A call of FTS5, or the first use of a statement, with what the allocator, FTS5, unicode61 and
-- SQLite answer.
pub data Event : Type 0 where
  create : Bool → Rc → Rc → Event
  prepare : Rc → Event
  delete : Event

-- The live instances and the heap after some calls. FTS5 deletes only an instance that is alive.
unfoldable pub run : List Event → ℕ → Heap → Option (ℕ × Heap)
run [] live h = some (live, h)
run (create memory found created ∷ events) live h =
    let (rc, made, h') = fts_snowball_create memory found created h in
    run events (if made then suc live else live) h'
run (prepare rc ∷ events) live h = run events live (prepare_statement rc h)
run (delete ∷ events) zero h = none
run (delete ∷ events) (suc live) h = run events live (fts_snowball_delete h)

abbrev pub prepared : List Event → ℕ
prepared [] = 0
prepared (create _ _ _ ∷ events) = prepared events
prepared (prepare rc ∷ events) = if is_ok rc then suc (prepared events) else prepared events
prepared (delete ∷ events) = prepared events

-- The heap `h` with `live` instances and `n` statements more.
abbrev pub serving : ℕ → ℕ → Heap → Heap
serving live n h = record h {
  instances = h.instances + live;
  parents = h.parents + live;
  statements = h.statements + n;
}

create-serving :
    (memory : Bool) (found created : Rc) (live n : ℕ) (h : Heap)
    → let (rc, made, h') = fts_snowball_create memory found created (serving live n h) in
      h' ≡ serving (if made then suc live else live) n h
unfolding fts_snowball_create
create-serving memory found created live n h = ground arith

prepare-serving :
    (rc : Rc) (live n : ℕ) (h : Heap)
    → prepare_statement rc (serving live n h) ≡ serving live (if is_ok rc then suc n else n) h
unfolding prepare_statement
prepare-serving rc live n h = ground arith

delete-serving :
    (live n : ℕ) (h : Heap) → fts_snowball_delete (serving (suc live) n h) ≡ serving live n h
unfolding fts_snowball_delete
delete-serving live n h = ground arith

run-serving :
    (events : List Event) (live n left : ℕ) (h h' : Heap)
    → run events live (serving live n h) ≡ some (left, h')
    → h' ≡ serving left (n + prepared events) h
unfolding run
run-serving [] live n left h h' e =
    let kept : serving live n h ≡ h' = cc in
    let same : live ≡ left = cc in rw (← kept, ← same) (ground arith)
run-serving (create memory found created ∷ events) live n left h h' e =
    run-serving events _ n left h h' (rw (create-serving memory found created live n h) at e)
run-serving (prepare rc ∷ events) live n left h h' e =
    run-serving events live (if is_ok rc then suc n else n) left h h'
      (rw (prepare-serving rc live n h) at e)
    ∙ ap (λ k. serving left k h) (ground arith)
run-serving (delete ∷ events) zero n left h h' e = cc
run-serving (delete ∷ events) (suc live) n left h h' e =
    run-serving events live n left h h' (rw (delete-serving live n h) at e)

-- If starting succeeds, then however FTS5 makes and deletes instances: once all are deleted,
-- destroying the module releases all that was allocated since the start, but for the statements,
-- every one of which stays prepared.
pub run_leak :
    (env : Environment) (o : Options) (events : List Event) (m : StemmerModule) (h h1 h2 : Heap)
    → o.languages ≢ []
    → init_snowball_stemmer env o h ≡ (registered m, h1)
    → run events 0 h1 ≡ some (0, h2)
    → destroy_stemmer_module m h2 ≡ some (record h { statements = h.statements + prepared events })
run_leak env o events m h h1 h2 ne start ran =
    let (_, same, _, after, _) =
      subst (IsStart env o h) start (init_snowball_stemmer-IsStart env o h ne) in
    let unused : serving 0 0 (started o h) ≡ started o h = ground arith in
    let end =
      run-serving events 0 0 0 (started o h) h2
        (subst (λ g. run events 0 g ≡ some (0, h2)) (after ∙ sym unused) ran) in
    let kept = record h { statements = h.statements + prepared events } in
    let moved : serving 0 (0 + prepared events) (started o h) ≡ started o kept = ground arith in
    rw (same, end, moved) (destroy-started o kept)
