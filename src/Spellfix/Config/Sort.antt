-- ===== src/Spellfix/Config/Sort.antt =====
-- editDist3CostSort sorts, keeps every entry, and does not run out of its 60 slots.
use letarette.Base.{
  ℕ, ◌≡◌, refl, inl, inr, true, false, List, [], ◌∷◌, ◌++◌, append_assoc, append-nil, arith,
  Bool-cases, All,
}
use mathlib.Core.List.{Perm, perm_middle, perm_append_comm}
use mathlib.Core.List.Perm
use Prim.Native.Nat.{Ordering}
use letarette.Spellfix.Config.{
  Cost, compare_bytes, cost_compare, cost_le, cost_merge, add_slot, fill_slots, merge_slots,
  cost_sort,
}

compare_bytes_flip :
    (a b : List ℕ)
    → (compare_bytes a b ≡ Ordering.lt → compare_bytes b a ≡ Ordering.gt)
      × (compare_bytes a b ≡ Ordering.eq → compare_bytes b a ≡ Ordering.eq)
      × (compare_bytes a b ≡ Ordering.gt → compare_bytes b a ≡ Ordering.lt)
unfolding compare_bytes
compare_bytes_flip [] [] = (λ e. cc, λ e. refl, λ e. cc)
compare_bytes_flip [] (d ∷ b) = (λ e. cc, λ e. refl, λ e. cc)
compare_bytes_flip (c ∷ a) [] = (λ e. cc, λ e. refl, λ e. cc)
compare_bytes_flip (c ∷ a) (d ∷ b) =
    let (lt, eq, gt) = compare_bytes_flip a b in
    (λ e. ground (arith, lt), λ e. ground (arith, eq), λ e. ground (arith, gt))

-- Of two entries one is not behind the other.
cost_le_total : (p q : Cost) → cost_le p q ≡ false → cost_le q p ≡ true
unfolding cost_le cost_compare
cost_le_total p q e =
    let (lt, eq, gt) = compare_bytes_flip p.from q.from in ground (arith, lt, eq, gt)

-- Each entry of the list is not behind the next one, nor is `p` behind the first.
abbrev pub Leads : Cost → List Cost → Type 0
Leads p [] = Unit {0}
Leads p (q ∷ qs) = cost_le p q ≡ true

abbrev pub IsSorted : List Cost → Type 0
IsSorted [] = Unit {0}
IsSorted (p ∷ ps) = Leads p ps × IsSorted ps

cost_merge-Leads :
    (r : Cost) (ps qs : List Cost) → Leads r ps → Leads r qs → Leads r (cost_merge ps qs)
unfolding cost_merge
cost_merge-Leads r [] qs h k = k
cost_merge-Leads r (p ∷ ps) [] h k = h
cost_merge-Leads r (p ∷ ps) (q ∷ qs) h k = elim (Bool-cases (cost_le p q)) [
  | inl first ↦ rw (first, cost_merge) h
  | inr second ↦ rw (second, cost_merge) k
]

cost_merge-IsSorted : (ps qs : List Cost) → IsSorted ps → IsSorted qs → IsSorted (cost_merge ps qs)
unfolding cost_merge
cost_merge-IsSorted [] qs h k = k
cost_merge-IsSorted (p ∷ ps) [] h k = h
cost_merge-IsSorted (p ∷ ps) (q ∷ qs) (hp, h) (kq, k) = elim (Bool-cases (cost_le p q)) [
  | inl first ↦
      rw (first, cost_merge)
        (cost_merge-Leads p ps (q ∷ qs) hp first, cost_merge-IsSorted ps (q ∷ qs) h (kq, k))
  | inr second ↦
      rw (second, cost_merge)
        (
          cost_merge-Leads q (p ∷ ps) qs (cost_le_total p q second) kq,
          cost_merge-IsSorted (p ∷ ps) qs (hp, h) k,
        )
]

cost_merge-perm : (ps qs : List Cost) → Perm (cost_merge ps qs) (ps ++ qs)
unfolding cost_merge
cost_merge-perm [] qs = Perm.refl qs
cost_merge-perm (p ∷ ps) [] = rw (append-nil (p ∷ ps)) (Perm.refl (p ∷ ps))
cost_merge-perm (p ∷ ps) (q ∷ qs) = elim (Bool-cases (cost_le p q)) [
  | inl first ↦ rw (first, cost_merge) (Perm.cons p (cost_merge-perm ps (q ∷ qs)))
  | inr second ↦
      rw (second, cost_merge)
        (Perm.trans (Perm.cons q (cost_merge-perm (p ∷ ps) qs))
          (Perm.symm (perm_middle (p ∷ ps) qs)))
]

-- The entries in all slots.
abbrev pub all_slots : List (List Cost) → List Cost
all_slots [] = []
all_slots (slot ∷ slots) = slot ++ all_slots slots

add_slot-perm :
    (p : List Cost) (slots : List (List Cost))
    → Perm (all_slots (add_slot p slots)) (p ++ all_slots slots)
unfolding add_slot
add_slot-perm p [] = Perm.refl (p ++ [])
add_slot-perm p ([] ∷ slots) = Perm.refl (p ++ all_slots slots)
add_slot-perm p ((c ∷ slot) ∷ slots) =
    let taken = add_slot-perm (cost_merge (c ∷ slot) p) slots in
    let merged = Perm.append_right (all_slots slots) (cost_merge-perm (c ∷ slot) p) in
    let turned = Perm.append_right (all_slots slots) (perm_append_comm (c ∷ slot) p) in
    rw (← append_assoc p (c ∷ slot) (all_slots slots)) (Perm.trans taken (Perm.trans merged turned))

fill_slots-perm :
    (list : List Cost) (slots : List (List Cost))
    → Perm (all_slots (fill_slots list slots)) (list ++ all_slots slots)
unfolding fill_slots
fill_slots-perm [] slots = Perm.refl (all_slots slots)
fill_slots-perm (c ∷ list) slots =
    let filled = fill_slots-perm list (add_slot (c ∷ []) slots) in
    let added = Perm.append_left list (add_slot-perm (c ∷ []) slots) in
    Perm.trans filled (Perm.trans added (perm_middle list (all_slots slots)))

merge_slots-perm :
    (p : List Cost) (slots : List (List Cost)) → Perm (merge_slots p slots) (p ++ all_slots slots)
unfolding merge_slots
merge_slots-perm p [] = rw (append-nil p) (Perm.refl p)
merge_slots-perm p ([] ∷ slots) = merge_slots-perm p slots
merge_slots-perm p ((c ∷ slot) ∷ slots) =
    let merged = Perm.append_right (all_slots slots) (cost_merge-perm p (c ∷ slot)) in
    rw (← append_assoc p (c ∷ slot) (all_slots slots))
      (Perm.trans (merge_slots-perm (cost_merge p (c ∷ slot)) slots) merged)

add_slot-IsSorted :
    (p : List Cost) (slots : List (List Cost))
    → IsSorted p
    → All IsSorted slots
    → All IsSorted (add_slot p slots)
unfolding add_slot
add_slot-IsSorted p [] h k = (h, tt)
add_slot-IsSorted p ([] ∷ slots) h (_, k) = (h, k)
add_slot-IsSorted p ((c ∷ slot) ∷ slots) h (sorted, k) = (
  tt,
  add_slot-IsSorted (cost_merge (c ∷ slot) p) slots (cost_merge-IsSorted (c ∷ slot) p sorted h) k,
)

fill_slots-IsSorted :
    (list : List Cost) (slots : List (List Cost))
    → All IsSorted slots
    → All IsSorted (fill_slots list slots)
unfolding fill_slots
fill_slots-IsSorted [] slots k = k
fill_slots-IsSorted (c ∷ list) slots k =
    fill_slots-IsSorted list (add_slot (c ∷ []) slots) (add_slot-IsSorted (c ∷ []) slots (tt, tt) k)

merge_slots-IsSorted :
    (p : List Cost) (slots : List (List Cost))
    → IsSorted p
    → All IsSorted slots
    → IsSorted (merge_slots p slots)
unfolding merge_slots
merge_slots-IsSorted p [] h k = h
merge_slots-IsSorted p ([] ∷ slots) h (_, k) = merge_slots-IsSorted p slots h k
merge_slots-IsSorted p ((c ∷ slot) ∷ slots) h (sorted, k) =
    merge_slots-IsSorted (cost_merge p (c ∷ slot)) slots (cost_merge-IsSorted p (c ∷ slot) h sorted)
      k

-- The result holds the entries of the list, each as often, and each of its entries is not behind the
-- next one in the order of editDist3CostCompare.
pub cost_sort-IsSorted : (list : List Cost) → IsSorted (cost_sort list) × Perm (cost_sort list) list
unfolding cost_sort
cost_sort-IsSorted list =
    let slots = fill_slots list ([] ∷ []) in
    (
      merge_slots-IsSorted [] slots tt (fill_slots-IsSorted list ([] ∷ []) (tt, tt)),
      Perm.trans (merge_slots-perm [] slots)
          (rw (append-nil list) at (fill_slots-perm list ([] ∷ []))),
    )
