-- ===== src/Spellfix/Cursor/Plan/Arguments.antt =====
-- spellfix1FilterForMatch reads what spellfix1BestIndex asked for.
use letarette.Base.{
  ℕ, zero, suc, ◌+◌, ◌≡◌, refl, ◌∙◌, Bool, true, false, ◌&&◌, not, some, List, [], ◌∷◌, ◌++◌, arith,
  ◌==◌, if◌then◌else◌, get_elem?, All,
}
use mathlib.Core.Path.{subst}
use letarette.Sqlite.{Value}
use letarette.Spellfix.Cursor.Plan.{Constraint, flag, assign, has_flag}

-- SQLite's documentation of xBestIndex: the value of a constraint with argvIndex k + 1 is argv[k].
pub record IsPassed (cs : List Constraint) (argv_index : ℕ → ℕ) (argv : List Value) : Type 0 where
  pub passed :
      (i k : ℕ) (c : Constraint)
      → get_elem? cs i ≡ some c
      → argv_index i ≡ suc k
      → get_elem? argv k ≡ some c.rhs

-- No index stands twice.
abbrev pub Apart : List ℕ → Type 0
Apart [] = Unit {0}
Apart (x ∷ xs) = All (λ y. (x == y) ≡ false) xs × Apart xs

assign-keeps :
    (xs : List ℕ) (k : ℕ) (usage : ℕ → ℕ) (x : ℕ)
    → All (λ y. (x == y) ≡ false) xs
    → assign xs k usage x ≡ usage x
unfolding assign
assign-keeps [] k usage x h = refl
assign-keeps (y ∷ xs) k usage x (h, hs) =
    assign-keeps xs (k + 1) (λ i. if i == y then k else usage i) x hs ∙ rw h refl

-- The constraint at place `j` of the list is passed as argument number `k + j`.
pub assign-at :
    (xs : List ℕ) (k j : ℕ) (usage : ℕ → ℕ) (x : ℕ)
    → Apart xs
    → get_elem? xs j ≡ some x
    → assign xs k usage x ≡ k + j
unfolding assign
assign-at [] k j usage x a at = cc
assign-at (y ∷ xs) k zero usage x (h, a) at =
    let same : y ≡ x = cc in
    rw (← same) (assign-keeps xs (k + 1) (λ i. if i == y then k else usage i) y h ∙ ground arith)
assign-at (y ∷ xs) k (suc j) usage x (h, a) at =
    assign-at xs (k + 1) j (λ i. if i == y then k else usage i) x a at ∙ omega arith

-- Each index of the list is that of the constraint beside it.
abbrev pub Points : List Constraint → List ℕ → List Constraint → Type 0
Points cs [] [] = Unit {0}
Points cs [] (d ∷ ds) = ⊥
Points cs (x ∷ xs) [] = ⊥
Points cs (x ∷ xs) (d ∷ ds) = (get_elem? cs x ≡ some d) × Points cs xs ds

abbrev pub values : List Constraint → List Value
values [] = []
values (c ∷ cs) = c.rhs ∷ values cs

Points-at :
    (cs : List Constraint) (xs : List ℕ) (ds : List Constraint) (j : ℕ) (v : Value)
    → Points cs xs ds
    → get_elem? (values ds) j ≡ some v
    → (x : ℕ) × (c : Constraint) × (get_elem? xs j ≡ some x)
      × (get_elem? cs x ≡ some c)
      × (c.rhs ≡ v)
Points-at cs [] [] j v p at = cc
Points-at cs [] (d ∷ ds) j v p at = absurd p
Points-at cs (x ∷ xs) [] j v p at = absurd p
Points-at cs (x ∷ xs) (d ∷ ds) zero v (here, p) at = (x, d, refl, here, ground arith)
Points-at cs (x ∷ xs) (d ∷ ds) (suc j) v (here, p) at = Points-at cs xs ds j v p at

begins :
    (vs argv : List Value)
    → ((j : ℕ) (v : Value) → get_elem? vs j ≡ some v → get_elem? argv j ≡ some v)
    → (rest : List Value) × (argv ≡ vs ++ rest)
begins [] argv h = (argv, refl)
begins (v ∷ vs) [] h = absurd (ground (arith, h 0 v refl))
begins (v ∷ vs) (w ∷ argv) h =
    let (rest, e) = begins vs argv (λ j u at. h (suc j) u at) in
    let same : w ≡ v = ground (arith, h 0 v refl) in (rest, rw (same, e) refl)

-- What is passed begins with the values of the constraints that were assigned, in their order.
pub passed-begins :
    (cs : List Constraint) (xs : List ℕ) (ds : List Constraint) (argv : List Value)
    → Points cs xs ds
    → Apart xs
    → IsPassed cs (assign xs 1 (λ _. 0)) argv
    → (rest : List Value) × (argv ≡ values ds ++ rest)
passed-begins cs xs ds argv p a passing = begins (values ds) argv λ j v at.
    let (x, c, place, given, same) = Points-at cs xs ds j v p at in
    subst (λ u. get_elem? argv j ≡ some u) same
      (passing.passed x j c given (assign-at xs 1 j (λ _. 0) x a place ∙ omega arith))

both : (Bool → Bool) → Bool
both p = p true && p false

both_sound : (p : Bool → Bool) → both p ≡ true → (b : Bool) → p b ≡ true
unfolding both
both_sound p h true = ground arith
both_sound p h false = ground arith

same : Bool → Bool → Bool
same true b = b
same false b = not b

same→eq : (a b : Bool) → same a b ≡ true → a ≡ b
unfolding same
same→eq true true h = refl
same→eq true false h = cc
same→eq false true h = cc
same→eq false false h = refl

abbrev number : Bool → Bool → Bool → Bool → Bool → Bool → Bool → ℕ
number m l t s d strict r =
    flag m 1
    + flag l 2
    + flag t 4
    + flag s 8
    + flag (d && strict) 16
    + flag (d && not strict) 32
    + flag r 64

read_back : Bool → Bool → Bool → Bool → Bool → Bool → Bool → Bool
read_back m l t s d strict r =
    let n = number m l t s d strict r in
    same (has_flag n 2) l
    && same (has_flag n 4) t
    && same (has_flag n 8) s
    && same (has_flag n 48) d
    && same (has_flag n 16) (d && strict)

all_read_back :
    both (λ m. both (λ l.
      both
        (λ t. both (λ s. both (λ d. both (λ strict. both (λ r. read_back m l t s d strict r)))))))
    ≡ true
unfolding both same read_back
all_read_back = refl

all_five :
    (a b c d e : Bool)
    → (a && b && c && d && e) ≡ true
    → (a ≡ true) × (b ≡ true) × (c ≡ true) × (d ≡ true) × (e ≡ true)
all_five a b c d e h = ground arith

-- The flags of iPlan can be read back.
pub flags_read :
    (m l t s d strict r : Bool)
    → (has_flag (number m l t s d strict r) 2 ≡ l)
      × (has_flag (number m l t s d strict r) 4 ≡ t)
      × (has_flag (number m l t s d strict r) 8 ≡ s)
      × (has_flag (number m l t s d strict r) 48 ≡ d)
      × (has_flag (number m l t s d strict r) 16 ≡ (d && strict))
unfolding read_back
flags_read m l t s d strict r =
    let n : ℕ = number m l t s d strict r in
    let told : read_back m l t s d strict r ≡ true =
      both_sound _
        (both_sound _
          (both_sound _
            (both_sound _ (both_sound _ (both_sound _ (both_sound _ all_read_back m) l) t) s) d)
          strict)
        r in
    let (h2, h4, h8, h48, h16) = all_five _ _ _ _ _ told in
    (
      same→eq (has_flag n 2) l h2,
      same→eq (has_flag n 4) t h4,
      same→eq (has_flag n 8) s h8,
      same→eq (has_flag n 48) d h48,
      same→eq (has_flag n 16) (d && strict) h16,
    )
