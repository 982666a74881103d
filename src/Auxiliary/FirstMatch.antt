-- ===== src/Auxiliary/FirstMatch.antt =====
-- firstmatch against its meaning without the cache.
use letarette.Base.{
  ◌≡◌, refl, sym, ap, inl, inr, true, Option, none, some, List, [], ◌∷◌, arith, if◌then◌else◌,
  Bool-cases, ℤ, eqb_ℤ, eqb_ℤ→eq,
}
use letarette.Sqlite.{Rc, ok, is_ok, Answer, int, Value}
use letarette.Auxiliary.{
  Hit, MatchData, Cursor, fill, choose, store_match, query_match, first_match,
}
use mathlib.Core.List.{map}

-- The answer that one call of xInst gives, with no cache.
abbrev pub direct_match : (ℤ → Rc × Hit) → ℤ → List Value → Answer
direct_match index rowid (v ∷ []) =
    let (rc, hit) = index rowid in
    if is_ok rc then int (choose v.number hit.column hit.offset) else Answer.error rc
direct_match index rowid _ = Answer.error Rc.error

-- The auxiliary data holds what xInst reports for the row that it names.
abbrev pub IsFaithful : (ℤ → Rc × Hit) → Option MatchData → Type 0
IsFaithful index none = Unit {0}
IsFaithful index (some m) = (hit : Hit) × (index m.rowid ≡ (ok, hit)) × (m ≡ fill m.rowid hit)

-- One row of a query, as firstmatch meets it: the memory for the cache is granted and kept.
abbrev pub visit : (ℤ → Rc × Hit) → ℤ → Cursor
visit index rowid = record { rowid = rowid; inst = index rowid; malloc = true; set_auxdata = ok }

-- A call with the cache in `cached`, for each of the rows in turn.
pub first_matches : (ℤ → Rc × Hit) → Option MatchData → List (ℤ × List Value) → List Answer
first_matches index cached [] = []
first_matches index cached ((rowid, args) ∷ calls) =
    let (answer, cached') = first_match (visit index rowid) cached args in
    answer ∷ first_matches index cached' calls

module _ (index : ℤ → Rc × Hit) where
  fill-IsFaithful :
      (rowid : ℤ) (inst : Rc × Hit)
      → inst ≡ index rowid
      → is_ok inst.0 ≡ true
      → IsFaithful index (some (fill rowid inst.1))
  fill-IsFaithful rowid (ok, hit) same e = (hit, sym same, refl)
  fill-IsFaithful rowid (Rc.error, hit) same e = cc
  fill-IsFaithful rowid (Rc.row, hit) same e = cc
  fill-IsFaithful rowid (Rc.done, hit) same e = cc
  fill-IsFaithful rowid (Rc.other n, hit) same e = cc

  query_match-IsFaithful :
      (c : Cursor) (cached : Option MatchData) (wanted : ℤ)
      → c.inst ≡ index c.rowid
      → IsFaithful index cached
      → IsFaithful index (query_match c cached wanted).1
  unfolding query_match store_match
  query_match-IsFaithful c none wanted same h = elim (Bool-cases (is_ok c.inst.0)) [
    | inl found ↦ rw found (elim (Bool-cases (is_ok c.set_auxdata)) [
      | inl kept ↦ rw kept (elim (Bool-cases c.malloc) [
        | inl granted ↦ rw granted (fill-IsFaithful c.rowid c.inst same found)
        | inr missing ↦ rw missing tt
      ])
      | inr refused ↦ rw refused tt
    ])
    | inr failed ↦ rw failed h
  ]
  query_match-IsFaithful c (some m) wanted same h = elim (Bool-cases (is_ok c.inst.0)) [
    | inl found ↦ rw found (fill-IsFaithful c.rowid c.inst same found)
    | inr failed ↦ rw failed h
  ]

  -- Whatever the allocator and xSetAuxdata answer, a call leaves the auxiliary data faithful.
  pub first_match-IsFaithful :
      (c : Cursor) (cached : Option MatchData) (args : List Value)
      → c.inst ≡ index c.rowid
      → IsFaithful index cached
      → IsFaithful index (first_match c cached args).1
  unfolding first_match
  first_match-IsFaithful c none (v ∷ []) same h = query_match-IsFaithful c none v.number same h
  first_match-IsFaithful c (some m) (v ∷ []) same h = elim (Bool-cases (eqb_ℤ m.rowid c.rowid)) [
    | inl hit ↦ rw hit h
    | inr miss ↦ rw miss (query_match-IsFaithful c (some m) v.number same h)
  ]
  first_match-IsFaithful c cached [] same h = h
  first_match-IsFaithful c cached (v ∷ w ∷ rest) same h = h

  -- With faithful auxiliary data and no failure of memory, a call answers as xInst does.
  first_match-direct :
      (rowid : ℤ) (cached : Option MatchData) (args : List Value)
      → IsFaithful index cached
      → (first_match (visit index rowid) cached args).0 ≡ direct_match index rowid args
  unfolding first_match
  first_match-direct rowid none (v ∷ []) h = ground arith
  first_match-direct rowid (some m) (v ∷ []) (hit, found, shape) =
      elim (Bool-cases (eqb_ℤ m.rowid rowid)) [
        | inl same ↦
            rw (same, ← (eqb_ℤ→eq m.rowid rowid same), found)
              (ap (λ (k : MatchData). int (choose v.number k.column k.offset)) shape)
        | inr miss ↦ rw miss (unfold query_match store_match in ground arith)
      ]
  first_match-direct rowid cached [] h = refl
  first_match-direct rowid cached (v ∷ w ∷ rest) h = refl

-- Over any sequence of calls that starts with no auxiliary data, the answers are those of calls
-- without the cache, if no memory fails and xInst depends on the row alone.
pub first_matches-direct :
    (index : ℤ → Rc × Hit) (cached : Option MatchData) (calls : List (ℤ × List Value))
    → IsFaithful index cached
    → first_matches index cached calls ≡ map (λ call. direct_match index call.0 call.1) calls
unfolding first_matches
first_matches-direct index cached [] h = refl
first_matches-direct index cached ((rowid, args) ∷ calls) h =
    let cached' = (first_match (visit index rowid) cached args).1 in
    let kept = first_match-IsFaithful index (visit index rowid) cached args refl h in
    rw (first_match-direct index rowid cached args h, first_matches-direct index cached' calls kept)
