-- ===== src/Spellfix/Edit3/Matches.antt =====
-- What it means that a configured cost is found at a character: matchTo, matchFrom, matchFromTo.
use letarette.Base.{
  ℕ, zero, suc, ◌≤◌, ◌<◌, ◌≡◌, refl, sym, ap, ◌∙◌, inl, inr, Bool, true, false, not, List, [], ◌∷◌,
  ◌++◌, arith, ltb, ◌==◌, ==_iff, if◌then◌else◌, Bool-cases, length, take, All, ltb_ℤ,
}
use mathlib.Core.Path.{subst}
use letarette.Spellfix.Config.{Cost, Lang, compare_bytes}
use letarette.Spellfix.Edit3.{
  head, utf8_len, same_bytes, match_to, match_from, match_from_to, from_costs, has_to, signed_char,
  ins_costs,
}
use letarette.Spellfix.Edit3.Script.{Among, Begins}

pub All-append {ℓ κ} :
    {A : Type ℓ} (P : A → Type κ) (xs ys : List A) → All P xs → All P ys → All P (xs ++ ys)
All-append P [] ys h k = k
All-append P (x ∷ xs) ys (p, h) k = (p, All-append P xs ys h k)

pub All-split {ℓ κ} :
    {A : Type ℓ} (P : A → Type κ) (xs ys : List A) → All P (xs ++ ys) → All P xs × All P ys
All-split P [] ys h = (tt, h)
All-split P (x ∷ xs) ys (p, h) = let (k, l) = All-split P xs ys h in ((p, k), l)

pub All-if {ℓ κ} :
    {A : Type ℓ} (P : A → Type κ) (b : Bool) (xs ys : List A)
    → (b ≡ true → All P xs)
    → (b ≡ false → All P ys)
    → All P (if b then xs else ys)
All-if P true xs ys h k = h refl
All-if P false xs ys h k = k refl

pub length-take {ℓ} : {A : Type ℓ} (n : ℕ) (xs : List A) → n ≤ length xs → length (take n xs) ≡ n
length-take zero xs h = refl
length-take (suc n) [] h = absurd (omega arith)
length-take (suc n) (x ∷ xs) h = ap suc (length-take n xs (omega arith))

abbrev pub NonZero : List ℕ → Type 0
NonZero = All (λ c. 0 < c)

first_rest : {c d : ℕ} {y z : List ℕ} → c ≡ d → z ≡ y → d ∷ z ≡ c ∷ y
first_rest e f = cc

pub empty-Begins : (a z : List ℕ) → length a ≡ 0 → Begins a z
empty-Begins [] z e = (z, refl)
empty-Begins (c ∷ a) z e = absurd (omega arith)

-- A string without a NUL that is compared and found equal is a prefix of the other, longer one.
pub same_bytes-Begins :
    (a z : List ℕ) → NonZero z → length a ≤ length z → same_bytes a z ≡ true → Begins a z
unfolding same_bytes compare_bytes
same_bytes-Begins [] z nz le e = (z, refl)
same_bytes-Begins (c ∷ a) [] nz le e = absurd (omega arith)
same_bytes-Begins (c ∷ a) (d ∷ z) (pos_d, nz) le e = elim (Bool-cases (c == d)) [
  | inl same ↦
      let (rest, e') = same_bytes-Begins a z nz (omega arith) (ground arith) in
      (rest, first_rest ((==_iff c d).0 same) e')
  | inr other ↦ absurd (ground arith)
]

pub utf8_len_bounds : (c n : ℕ) → 1 ≤ n → (1 ≤ utf8_len c n) × (utf8_len c n ≤ n)
unfolding utf8_len
utf8_len_bounds c n h = ground arith

pub match_to-Begins : (p : Cost) (z : List ℕ) → NonZero z → match_to p z ≡ true → Begins p.to z
unfolding match_to
match_to-Begins p z nz e = same_bytes-Begins p.to z nz (ground arith) (ground arith)

match_from-Begins :
    (p : Cost) (z : List ℕ)
    → NonZero z
    → length p.from ≤ length z
    → match_from p z ≡ true
    → Begins p.from z
unfolding match_from
match_from-Begins p z nz le e = elim (Bool-cases (length p.from == 0)) [
  | inl no_from ↦ empty-Begins p.from z (ground arith)
  | inr some_from ↦ same_bytes-Begins p.from z nz le (ground arith)
]

pub match_from_to-Begins :
    (n : ℕ) (z1 z2 : List ℕ)
    → NonZero z2
    → n ≤ length z1
    → match_from_to n z1 z2 ≡ true
    → Begins (take n z1) z2
unfolding match_from_to
match_from_to-Begins n z1 z2 nz le e =
    same_bytes-Begins (take n z1) z2 nz
      (subst (λ k. k ≤ length z2) (sym (length-take n z1 le)) (ground arith)) (ground arith)

-- The costs of a character are costs of the language that begin there, with a TO string or without.
abbrev pub Fits : Lang → Bool → List ℕ → Cost → Type 0
Fits lang to z p = Among p lang.costs × Begins p.from z × (has_to p ≡ to)

pub from_costs-Fits :
    (lang : Lang) (to : Bool) (z : List ℕ) (costs : List Cost)
    → NonZero z
    → ((p : Cost) → Among p costs → Among p lang.costs)
    → All (Fits lang to z) (from_costs to z costs)
unfolding from_costs
from_costs-Fits lang to z [] nz among = tt
from_costs-Fits lang to z (p ∷ costs) nz among =
    let rest = from_costs-Fits lang to z costs nz (λ q h. among q (inr h)) in
    All-if (Fits lang to z) (ltb (length z) (length p.from)) _ _ (λ long. rest)
      (λ short.
        All-if (Fits lang to z) (not (match_from p z)) _ _ (λ other. rest)
          (λ m.
            let from = match_from-Begins p z nz (ground arith) (ground arith) in
            All-if (Fits lang to z) to _ _
              (λ wanted.
                All-if (Fits lang to z) (has_to p) _ _
                  (λ h. ((among p (inl refl), from, h ∙ sym wanted), rest)) (λ h. rest))
              (λ unwanted.
                All-if (Fits lang to z) (has_to p) _ _ (λ h. rest)
                  (λ h. ((among p (inl refl), from, h ∙ sym unwanted), rest)))))

abbrev pub FitsIns : Lang → List ℕ → Cost → Type 0
FitsIns lang z p = Among p lang.costs × (length p.from ≡ 0) × Begins p.to z

pub ins_costs-FitsIns :
    (lang : Lang) (z : List ℕ) (costs : List Cost)
    → NonZero z
    → ((p : Cost) → Among p costs → Among p lang.costs)
    → All (FitsIns lang z) (ins_costs z costs)
unfolding ins_costs
ins_costs-FitsIns lang z [] nz among = tt
ins_costs-FitsIns lang z (p ∷ costs) nz among =
    let rest = ins_costs-FitsIns lang z costs nz (λ q h. among q (inr h)) in
    All-if (FitsIns lang z) (ltb 0 (length p.from)) _ _ (λ h. tt)
      (λ no_from.
        All-if (FitsIns lang z) (ltb (length z) (length p.to)) _ _ (λ h. rest)
          (λ short.
            All-if (FitsIns lang z) (ltb_ℤ (signed_char (head z)) (signed_char (head p.to))) _ _
              (λ h. tt)
              (λ h.
                All-if (FitsIns lang z) (match_to p z) _ _
                  (λ m. ((among p (inl refl), ground arith, match_to-Begins p z nz m), rest))
                  (λ m. rest))))
