-- ===== src/Auxiliary.antt =====
-- internal/auxiliary/auxiliary.c: the FTS5 functions firstmatch, gettokens and tokens.
-- What they call of FTS5 and SQLite is a parameter.
pub mod FirstMatch
pub mod Range
pub mod Tokens
pub mod Registration
mod Examples
use letarette.Base.{
  ℕ, zero, suc, ◌+◌, ◌-◌, ◌*◌, ◌/◌, ◌%◌, ◌^◌, ◌≤◌, ◌<◌, bit_and, bit_or, ◌≡◌, refl, sym, ap, ◌∙◌,
  ◌≢◌, ◌↔◌, ◌⊎◌, inl, inr, Bool, true, false, ◌&&◌, ◌||◌, not, Option, none, some, List, [], ◌∷◌,
  ◌++◌, append_assoc, append-nil, arith, ltb, leb, ◌==◌, ==_iff, if◌then◌else◌, Bool-cases,
  Option-cases, length, take, drop, length-append, All, IsByte, ℤ, pos, negsuc, pos_part, neg_part,
  ltb_ℤ, eqb_ℤ, eqb_ℤ→eq, to_int32,
}
use letarette.Sqlite.{Rc, ok, done, is_ok, Answer, int, text, null, fault, Value, Token}
use letarette.Sqlite

-- What xInst reports: the phrase, the column and the token offset of a phrase match.
pub record Hit : Type 0 where
  pub phrase : ℤ
  pub column : ℤ
  pub offset : ℤ

-- `struct MatchData`, the auxiliary data that SQLite keeps for a query.
pub record MatchData : Type 0 where
  pub rowid : ℤ
  pub phrase : ℤ
  pub column : ℤ
  pub offset : ℤ

-- What FTS5 and the allocator answer during one call of firstmatch.
pub record Cursor : Type 0 where
  pub rowid : ℤ
  pub inst : Rc × Hit
  pub malloc : Bool
  pub set_auxdata : Rc

abbrev pub fill : ℤ → Hit → MatchData
fill rowid hit = record {
  rowid = rowid;
  phrase = hit.phrase;
  column = hit.column;
  offset = hit.offset;
}

-- `columnOrOffset ? offset : column`
abbrev pub choose : ℤ → ℤ → ℤ → ℤ
choose (pos zero) column offset = column
choose _ column offset = offset

-- The part behind xInst, where there is no usable cache. The memory may be missing, and the null
-- pointer is handed to xSetAuxdata and written through.
store_match : Cursor → Option MatchData → ℤ → Answer × Option MatchData
store_match c (some old) wanted =
    (int (choose wanted c.inst.1.column c.inst.1.offset), some (fill c.rowid c.inst.1))
store_match c none wanted =
    if not (is_ok c.set_auxdata)
    then (Answer.error c.set_auxdata, none)
    else if not c.malloc
    then (fault, none)
    else (int (choose wanted c.inst.1.column c.inst.1.offset), some (fill c.rowid c.inst.1))

query_match : Cursor → Option MatchData → ℤ → Answer × Option MatchData
unfolding store_match
query_match c cached wanted =
    if not (is_ok c.inst.0) then (Answer.error c.inst.0, cached) else store_match c cached wanted

cached_match : Cursor → Option MatchData → ℤ → Answer × Option MatchData
unfolding query_match
cached_match c none wanted = query_match c none wanted
cached_match c (some m) wanted =
    if eqb_ℤ m.rowid c.rowid
    then (int (choose wanted m.column m.offset), some m)
    else query_match c (some m) wanted

-- The second part of a state is the auxiliary data, before and after.
pub first_match : Cursor → Option MatchData → List Value → Answer × Option MatchData
unfolding cached_match
first_match c cached (v ∷ []) = cached_match c cached v.number
first_match c cached _ = (Answer.error Rc.error, cached)

pub record TokenRange : Type 0 where
  pub token_start : ℕ
  pub token_end : ℕ
  pub current_token : ℕ
  pub text_range_start : ℕ
  pub text_range_end : ℕ

pub token_range_callback : TokenRange → Token → Rc × TokenRange
token_range_callback ctx t =
    let start = if ctx.current_token == ctx.token_start then t.start else ctx.text_range_start in
    let finish = if leb ctx.token_start ctx.current_token then t.finish else ctx.text_range_end in
    let ctx' = record ctx {
      text_range_start = start;
      text_range_end = finish;
      current_token = ctx.current_token + 1;
    } in
    (if ctx.current_token + 1 == ctx.token_end then done else ok, ctx')

-- The bytes that strnlen counts: up to a NUL, `most` at most.
unfoldable pub text_until : List ℕ → ℕ → List ℕ
text_until [] most = []
text_until (b ∷ bytes) most = if b == 0 || most == 0 then [] else b ∷ text_until bytes (most - 1)

-- The difference of the two ends becomes a size_t. A failed strndup makes the result NULL.
snippet : Bool → List ℕ → TokenRange → Answer
unfolding text_until
snippet strndup entry ctx =
    let most = (2 ^ 64 + ctx.text_range_end - ctx.text_range_start) % 2 ^ 64 in
    if strndup then text (text_until (drop ctx.text_range_start entry) most) else null

finish_tokens : Bool → List ℕ → Rc × TokenRange → Answer
unfolding snippet
finish_tokens strndup entry (ok, ctx) = snippet strndup entry ctx
finish_tokens strndup entry (done, ctx) = snippet strndup entry ctx
finish_tokens strndup entry (rc, ctx) = Answer.error rc

abbrev pub range_from : ℕ → ℕ → TokenRange
range_from offset finish = record {
  token_start = offset;
  token_end = finish;
  current_token = 0;
  text_range_start = 0;
  text_range_end = 0;
}

abbrev pub TokenizeRange : Type 0
TokenizeRange = (TokenRange → Token → Rc × TokenRange) → TokenRange → List ℕ → Rc × TokenRange

-- `offset + count` is a sum of two `int`s.
pub get_tokens : TokenizeRange → Bool → List Value → Answer
unfolding finish_tokens
get_tokens tokenize strndup (entry ∷ offset ∷ count ∷ []) =
    if ltb_ℤ count.number (pos 0) || ltb_ℤ offset.number (pos 0)
    then Answer.error Rc.error
    else if leb (2 ^ 31) (pos_part offset.number + pos_part count.number)
    then fault
    else finish_tokens strndup entry.bytes (
        tokenize token_range_callback
          (range_from (pos_part offset.number) (pos_part offset.number + pos_part count.number))
          entry.bytes)
get_tokens tokenize strndup _ = Answer.error Rc.error

-- `column_size` is xColumnSize.
pub token_count : (ℤ → Rc × ℤ) → List Value → Answer
token_count column_size (v ∷ []) =
    let (rc, tokens) = column_size v.number in if is_ok rc then int tokens else Answer.error rc
token_count column_size _ = Answer.error Rc.error

pub data Function : Type 0 where
  firstmatch gettokens tokens : Function

-- Whether the statement that asks for the FTS5 interface could be prepared, and what it found.
pub fts5_api_from_db : Rc → Bool → Bool
fts5_api_from_db prepare found = if is_ok prepare then found else false

pub init_auxiliary_functions : Rc → Bool → (Function → Rc) → Rc × List Function
unfolding fts5_api_from_db
init_auxiliary_functions prepare found create =
    if not (fts5_api_from_db prepare found)
    then (Rc.error, [])
    else if not (is_ok (create firstmatch))
    then (create firstmatch, firstmatch ∷ [])
    else if not (is_ok (create gettokens))
    then (create gettokens, firstmatch ∷ gettokens ∷ [])
    else (create tokens, firstmatch ∷ gettokens ∷ tokens ∷ [])
