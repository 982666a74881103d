-- ===== src/Sqlite/Walk.antt =====
-- Walks over tokens: how two walks join, and when a detailed walk refines a simple one.
use letarette.Base.{◌≡◌, refl, sym, ◌∙◌, List, [], ◌∷◌, ◌++◌, All}
use letarette.Sqlite.{Rc, ok, error, row, done, other, and_then, deliver}
use mathlib.Core.Path.{fun_ext}

module _ {ℓ} {S : Type ℓ} where
  pub and_then_assoc :
      (r : Rc × S) (f g : S → Rc × S)
      → and_then (and_then r f) g ≡ and_then r (λ s. and_then (f s) g)
  and_then_assoc (ok, s) f g = refl
  and_then_assoc (error, s) f g = refl
  and_then_assoc (row, s) f g = refl
  and_then_assoc (done, s) f g = refl
  and_then_assoc (other n, s) f g = refl

  pub deliver-append {κ} :
      {A : Type κ} (callback : S → A → Rc × S) (s : S) (xs ys : List A)
      → deliver callback s (xs ++ ys)
        ≡ and_then (deliver callback s xs) (λ s'. deliver callback s' ys)
  unfolding deliver
  deliver-append callback s [] ys = refl
  deliver-append callback s (x ∷ xs) ys =
      rw (fun_ext (λ s'. deliver-append callback s' xs ys))
        (sym (and_then_assoc (callback s x) _ _))

abbrev pub seen {ℓ κ} : {S : Type ℓ} {V : Type κ} → (S → V) → Rc × S → Rc × V
seen view (rc, s) = (rc, view s)

abbrev pub all_terms {ℓ κ} : {A : Type ℓ} {B : Type κ} → (A → List B) → List A → List B
all_terms terms [] = []
all_terms terms (a ∷ rest) = terms a ++ all_terms terms rest

-- A walk over detailed items refines a walk over what they stand for: `view` is the part of the
-- state that the second walk sees.
module _ {ℓ κ μ ν} {S : Type ℓ} {V : Type κ} {A : Type μ} {B : Type ν} (view : S → V)
    (detailed : S → A → Rc × S) (simple : V → B → Rc × V) (terms : A → List B) where
  -- One item, handled in any state, does to the view what its terms do.
  abbrev pub Refines : A → Type (ℓ ⊔ κ)
  Refines a = (s : S) → seen view (detailed s a) ≡ deliver simple (view s) (terms a)

  seen-and_then :
      (r : Rc × S) (f : S → Rc × S) (g : V → Rc × V)
      → ((s : S) → seen view (f s) ≡ g (view s))
      → seen view (and_then r f) ≡ and_then (seen view r) g
  seen-and_then (ok, s) f g h = h s
  seen-and_then (error, s) f g h = refl
  seen-and_then (row, s) f g h = refl
  seen-and_then (done, s) f g h = refl
  seen-and_then (other n, s) f g h = refl

  pub deliver-Refines :
      (s : S) (items : List A)
      → All Refines items
      → seen view (deliver detailed s items) ≡ deliver simple (view s) (all_terms terms items)
  unfolding deliver
  deliver-Refines s [] h = refl
  deliver-Refines s (a ∷ rest) (here, later) =
      seen-and_then (detailed s a) (λ s'. deliver detailed s' rest)
        (λ v. deliver simple v (all_terms terms rest)) (λ s'. deliver-Refines s' rest later)
      ∙ rw (here s) (sym (deliver-append simple (view s) (terms a) (all_terms terms rest)))
