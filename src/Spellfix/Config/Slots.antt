-- ===== src/Spellfix/Config/Slots.antt =====
-- The slots of editDist3CostSort count in binary, so that 60 of them are enough.
use native.Mathlib.Decide.{dec_le}
use letarette.Base.{
  ℕ, zero, suc, ◌+◌, ◌-◌, ◌^◌, ◌≤◌, ◌<◌, ◌≡◌, refl, ap, ◌⊎◌, inl, inr, List, [], ◌∷◌, arith,
  Bool-cases, length, length-append,
}
use letarette.Spellfix.Config.{Cost, cost_le, cost_merge, add_slot, fill_slots}
use letarette.Spellfix.Config.Sort.{all_slots}

length-cost_merge : (ps qs : List Cost) → length (cost_merge ps qs) ≡ length ps + length qs
unfolding cost_merge
length-cost_merge [] qs = omega arith
length-cost_merge (p ∷ ps) [] = omega arith
length-cost_merge (p ∷ ps) (q ∷ qs) = elim (Bool-cases (cost_le p q)) [
  | inl first ↦ rw (first, cost_merge) (omega (arith, length-cost_merge ps (q ∷ qs)))
  | inr second ↦ rw (second, cost_merge) (omega (arith, length-cost_merge (p ∷ ps) qs))
]

length-add_slot :
    (p : List Cost) (slots : List (List Cost))
    → length (all_slots (add_slot p slots)) ≡ length p + length (all_slots slots)
unfolding add_slot
length-add_slot p [] = omega (arith, length-append p [])
length-add_slot p ([] ∷ slots) = omega (arith, length-append p (all_slots slots))
length-add_slot p ((c ∷ slot) ∷ slots) = omega (
  arith,
  length-add_slot (cost_merge (c ∷ slot) p) slots,
  length-cost_merge (c ∷ slot) p,
  length-append (c ∷ slot) (all_slots slots),
)

length-fill_slots :
    (list : List Cost) (slots : List (List Cost))
    → length (all_slots (fill_slots list slots)) ≡ length list + length (all_slots slots)
unfolding fill_slots
length-fill_slots [] slots = omega arith
length-fill_slots (c ∷ list) slots =
    omega (arith, length-fill_slots list (add_slot (c ∷ []) slots), length-add_slot (c ∷ []) slots)

-- `w`, doubled `n` times.
abbrev scale : ℕ → ℕ → ℕ
scale w zero = w
scale w (suc n) = scale (w + w) n

scale_mono : (w k n : ℕ) → k ≤ n → scale w k ≤ scale w n
scale_mono w zero zero h = omega arith
scale_mono w zero (suc n) h = omega (arith, scale_mono (w + w) zero n (omega arith))
scale_mono w (suc k) zero h = absurd (omega arith)
scale_mono w (suc k) (suc n) h = scale_mono (w + w) k n (omega arith)

-- A slot is empty or holds `w` entries, the next one twice as many, and so on.
abbrev IsCounter : ℕ → List (List Cost) → Type 0
IsCounter w [] = Unit {0}
IsCounter w (slot ∷ slots) = ((slot ≡ []) ⊎ (length slot ≡ w)) × IsCounter (w + w) slots

add_slot-IsCounter :
    (w : ℕ) (p : List Cost) (slots : List (List Cost))
    → length p ≡ w
    → IsCounter w slots
    → IsCounter w (add_slot p slots)
unfolding add_slot
add_slot-IsCounter w p [] h k = (inr h, tt)
add_slot-IsCounter w p ([] ∷ slots) h (_, k) = (inr h, k)
add_slot-IsCounter w p ((c ∷ slot) ∷ slots) h (inl none_here, k) =
    absurd (omega (arith, ap length none_here))
add_slot-IsCounter w p ((c ∷ slot) ∷ slots) h (inr full, k) = (
  inl refl,
  add_slot-IsCounter (w + w) (cost_merge (c ∷ slot) p) slots
      (omega (arith, length-cost_merge (c ∷ slot) p)) k,
)

-- A slot is added only where all slots before it are full.
add_slot_grows :
    (w : ℕ) (p : List Cost) (slots : List (List Cost))
    → length p ≡ w
    → IsCounter w slots
    → (length (add_slot p slots) ≡ length slots)
      ⊎ ((length (add_slot p slots) ≡ suc (length slots))
          × (scale w (length slots) ≤ length (all_slots (add_slot p slots))))
unfolding add_slot
add_slot_grows w p [] h k = inr (refl, omega (arith, length-append p []))
add_slot_grows w p ([] ∷ slots) h (_, k) = inl refl
add_slot_grows w p ((c ∷ slot) ∷ slots) h (inl none_here, k) =
    absurd (omega (arith, ap length none_here))
add_slot_grows w p ((c ∷ slot) ∷ slots) h (inr full, k) =
    elim (add_slot_grows (w + w) (cost_merge (c ∷ slot) p) slots
      (omega (arith, length-cost_merge (c ∷ slot) p)) k) [
        | inl same ↦ inl (ap suc same)
        | inr (longer, many) ↦ inr (ap suc longer, many)
      ]

-- With `n` + 2 slots there are at least 2 ^ (n + 1) entries.
abbrev IsTall : List (List Cost) → Type 0
IsTall slots = (n : ℕ) → length slots ≡ suc (suc n) → scale 1 (suc n) ≤ length (all_slots slots)

add_slot-IsTall :
    (c : Cost) (slots : List (List Cost))
    → IsCounter 1 slots
    → IsTall slots
    → IsTall (add_slot (c ∷ []) slots)
add_slot-IsTall c slots k tall n e = elim (add_slot_grows 1 (c ∷ []) slots refl k) [
  | inl same ↦ omega (arith, length-add_slot (c ∷ []) slots, tall n (omega arith))
  | inr (longer, many) ↦ let count : length slots ≡ suc n = omega arith in rw count at many
]

fill_slots-IsTall :
    (list : List Cost) (slots : List (List Cost))
    → IsCounter 1 slots
    → IsTall slots
    → IsTall (fill_slots list slots)
unfolding fill_slots
fill_slots-IsTall [] slots k tall = tall
fill_slots-IsTall (c ∷ list) slots k tall =
    fill_slots-IsTall list (add_slot (c ∷ []) slots) (add_slot-IsCounter 1 (c ∷ []) slots refl k)
      (add_slot-IsTall c slots k tall)

-- A list of less than 2 ^ 59 entries uses 59 of the 60 slots at most, and leaves one for the null
-- pointer behind them.
pub fill_slots-le :
    (list : List Cost) → length list < 2 ^ 59 → length (fill_slots list ([] ∷ [])) ≤ 59
fill_slots-le list h = elim (dec_le (length (fill_slots list ([] ∷ []))) 59) [
  | yes few ↦ few
  | no many ↦
      let n = length (fill_slots list ([] ∷ [])) - 2 in
      let tall =
        fill_slots-IsTall list ([] ∷ []) (inl refl, tt) (λ k e. absurd (omega arith)) n
          (omega arith) in
      let top : scale 1 59 ≤ scale 1 (suc n) = scale_mono 1 59 (suc n) (omega arith) in
      let size : scale 1 59 ≡ 2 ^ 59 = refl in
      absurd (omega (arith, length-fill_slots list ([] ∷ [])))
]
