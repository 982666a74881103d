-- ===== src/Auxiliary/Range.antt =====
-- The token range that gettokens selects, as the callback finds it one token at a time.
use letarette.Base.{
  ℕ, zero, suc, ◌+◌, ◌<◌, ◌≡◌, ◌⊎◌, false, List, [], ◌∷◌, arith, ◌==◌, if◌then◌else◌, take, drop,
}
use letarette.Sqlite.{Rc, ok, done, Token, deliver}
use letarette.Auxiliary.{TokenRange, token_range_callback}

-- The finish of the last of some tokens.
abbrev pub last_finish : ℕ → List Token → ℕ
last_finish finish [] = finish
last_finish finish (t ∷ ts) = last_finish t.finish ts

-- The bytes from the start of the first token to the finish of the last one; 0 and 0 if there is
-- no token.
abbrev pub span : List Token → ℕ × ℕ
span [] = (0, 0)
span (t ∷ ts) = (t.start, last_finish t.finish ts)

abbrev pub Ended : Rc → Type 0
Ended rc = (rc ≡ ok) ⊎ (rc ≡ done)

abbrev pub state : ℕ → ℕ → ℕ → ℕ → ℕ → TokenRange
state from to current start finish = record {
  token_start = from;
  token_end = to;
  current_token = current;
  text_range_start = start;
  text_range_end = finish;
}

-- The walk ends well and has found `found`.
abbrev pub Finds : Rc × TokenRange → ℕ × ℕ → Type 0
Finds (rc, ctx) found = Ended rc × (ctx.text_range_start ≡ found.0) × (ctx.text_range_end ≡ found.1)

abbrev pub walk : TokenRange → List Token → Rc × TokenRange
walk = deliver token_range_callback

-- Past the first token, `left` more tokens are wanted.
pub walk_inside :
    (from to start finish left current : ℕ) (ts : List Token)
    → from < current
    → to ≡ current + left
    → 0 < left
    → Finds
        (walk (state from to current start finish) ts)
        (start, last_finish finish (take left ts))
unfolding deliver token_range_callback
walk_inside from to start finish zero current ts past ends some_left = absurd (omega arith)
walk_inside from to start finish (suc left) current [] past ends some_left = ground arith
walk_inside from to start finish (suc zero) current (t ∷ ts) past ends some_left = ground arith
walk_inside from to start finish (suc (suc left)) current (t ∷ ts) past ends some_left =
    ground (arith, walk_inside from to start t.finish (suc left) (current + 1) ts)

-- Before the first token, `skip` tokens are passed over and `suc left` are wanted then.
pub walk_before :
    (skip left from to current : ℕ) (ts : List Token)
    → from ≡ current + skip
    → to ≡ from + suc left
    → Finds (walk (state from to current 0 0) ts) (span (take (suc left) (drop skip ts)))
unfolding deliver token_range_callback
walk_before zero left from to current [] begins ends = ground arith
walk_before (suc skip) left from to current [] begins ends = ground arith
walk_before zero zero from to current (t ∷ ts) begins ends = ground arith
walk_before zero (suc left) from to current (t ∷ ts) begins ends =
    ground (arith, walk_inside from to t.start t.finish (suc left) (current + 1) ts)
walk_before (suc skip) left from to current (t ∷ ts) begins ends =
    ground (arith, walk_before skip left from to (current + 1) ts)

-- With a count of 0 the walk stops before it finds a token, unless it starts at token 0.
pub walk_empty :
    (skip from current : ℕ) (ts : List Token)
    → from ≡ current + suc skip
    → Finds (walk (state from from current 0 0) ts) (0, 0)
unfolding deliver token_range_callback
walk_empty skip from current [] begins = ground arith
walk_empty zero from current (t ∷ ts) begins = ground arith
walk_empty (suc skip) from current (t ∷ ts) begins =
    ground (arith, walk_empty skip from (current + 1) ts)

-- With a count of 0 at token 0 the walk never stops.
pub walk_through :
    (start finish current : ℕ) (ts : List Token)
    → 0 < current
    → Finds (walk (state 0 0 current start finish) ts) (start, last_finish finish ts)
unfolding deliver token_range_callback
walk_through start finish current [] past = ground arith
walk_through start finish current (t ∷ ts) past =
    ground (arith, walk_through start t.finish (current + 1) ts)

pub walk_no_count :
    (from to : ℕ) (ts : List Token)
    → to ≡ from
    → Finds (walk (state from to 0 0 0) ts) (if from == 0 then span ts else (0, 0))
unfolding deliver token_range_callback
walk_no_count zero to [] h = ground arith
walk_no_count zero to (t ∷ ts) h = ground (arith, h, walk_through t.start t.finish 1 ts)
walk_no_count (suc from) to ts h =
    let later : (suc from == 0) ≡ false = ground arith in
    rw (h, later) (walk_empty from (suc from) 0 ts (omega arith))
