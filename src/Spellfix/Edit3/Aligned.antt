-- ===== src/Spellfix/Edit3/Aligned.antt =====
-- The bytes of a string at which the loops of editDist3Core stop: the first bytes of its characters.
use letarette.Base.{
  ℕ, zero, suc, ◌+◌, ◌-◌, ◌≤◌, ◌<◌, ◌≡◌, ap, ◌∙◌, inl, inr, false, List, [], ◌∷◌, arith, ltb,
  Bool-cases, length, drop,
}
use mathlib.Core.Path.{subst}
use letarette.Spellfix.Edit3.Script.{char_len}
use letarette.Spellfix.Edit3.Matches.{utf8_len_bounds}

-- A loop over `z` that leaves out `skip` bytes stops at the byte `p`, or ends there.
abbrev pub Aligned : List ℕ → ℕ → ℕ → Type 0
Aligned z zero zero = Unit
Aligned z (suc skip) zero = ⊥
Aligned [] skip (suc p) = ⊥
Aligned (c ∷ z) zero (suc p) = Aligned z (char_len (c ∷ z) - 1) p
Aligned (c ∷ z) (suc skip) (suc p) = Aligned z skip p

Aligned-skip : (z : List ℕ) (n : ℕ) → n ≤ length z → Aligned z n n
Aligned-skip z zero h = tt
Aligned-skip [] (suc n) h = absurd (omega arith)
Aligned-skip (c ∷ z) (suc n) h = Aligned-skip z n (omega arith)

plus_one : (l : ℕ) → 1 ≤ l → suc (l - 1) ≡ 0 + l
plus_one l h = omega arith

suc_plus : (p n : ℕ) → suc (p + n) ≡ suc p + n
suc_plus p n = omega arith

-- The loop stops behind a character.
pub Aligned-next :
    (z : List ℕ) (skip p : ℕ)
    → Aligned z skip p
    → p < length z
    → Aligned z skip (p + char_len (drop p z))
Aligned-next [] skip p a h = absurd (omega arith)
Aligned-next (c ∷ z) (suc skip) zero a h = elim a [ ]
Aligned-next (c ∷ z) zero zero a h =
    let (b, l) = utf8_len_bounds c (length (c ∷ z)) (omega arith) in
    subst (Aligned (c ∷ z) 0) (plus_one (char_len (c ∷ z)) b)
      (Aligned-skip z (char_len (c ∷ z) - 1) (omega arith))
Aligned-next (c ∷ z) zero (suc p) a h =
    subst (Aligned (c ∷ z) 0) (suc_plus p (char_len (drop p z)))
      (Aligned-next z (char_len (c ∷ z) - 1) p a (omega arith))
Aligned-next (c ∷ z) (suc skip) (suc p) a h =
    subst (Aligned (c ∷ z) (suc skip)) (suc_plus p (char_len (drop p z)))
      (Aligned-next z skip p a (omega arith))

pub Aligned-least : (z : List ℕ) (skip p : ℕ) → Aligned z skip p → skip ≤ p
Aligned-least z zero p a = omega arith
Aligned-least z (suc skip) zero a = elim a [ ]
Aligned-least [] (suc skip) (suc p) a = elim a [ ]
Aligned-least (c ∷ z) (suc skip) (suc p) a = let h = Aligned-least z skip p a in omega arith

first_end : (l p : ℕ) → 1 ≤ l → l - 1 ≤ p → ltb (l - 1) p ≡ false → suc p ≡ 0 + l
first_end l p h k e = ground arith

-- A stop behind the first one is at the end of a character.
pub Aligned-last :
    (z : List ℕ) (skip p : ℕ)
    → Aligned z skip p
    → skip < p
    → (q : ℕ) × Aligned z skip q × (q < length z) × (p ≡ q + char_len (drop q z))
Aligned-last z skip zero a h = absurd (omega arith)
Aligned-last [] skip (suc p) a h = elim a [ ]
Aligned-last (c ∷ z) (suc skip) (suc p) a h =
    let (q, b, l, e) = Aligned-last z skip p a (omega arith) in
    (suc q, b, omega arith, ap suc e ∙ suc_plus q (char_len (drop q z)))
Aligned-last (c ∷ z) zero (suc p) a h =
    let (b, l) = utf8_len_bounds c (length (c ∷ z)) (omega arith) in
    elim (Bool-cases (ltb (char_len (c ∷ z) - 1) p)) [
      | inl more ↦
          let (q, b, l, e) = Aligned-last z (char_len (c ∷ z) - 1) p a (ground arith) in
          (suc q, b, omega arith, ap suc e ∙ suc_plus q (char_len (drop q z)))
      | inr same ↦
          let e = Aligned-least z (char_len (c ∷ z) - 1) p a in
          (0, tt, omega arith, first_end (char_len (c ∷ z)) p b e same)
    ]
