-- ===== src/Snowball/Setup/StemmerLists.antt =====
-- allocateStemmerList and freeStemmerList.
use letarette.Base.{
  ℕ, ◌+◌, ◌-◌, ◌≡◌, refl, ◌∙◌, ◌≢◌, ◌⊎◌, inl, inr, Bool, true, List, [], ◌∷◌, ◌++◌, append_assoc,
  append-nil, arith, Bool-cases, length, length-append, All,
}
use letarette.Snowball.Setup.{
  Heap, Language, StemmerList, null, stemmers, Environment, free_stemmer_list, fill_stemmer_list,
  allocate_stemmer_list,
}

-- A heap with a list and `n` stemmers more.
abbrev pub listed : ℕ → Heap → Heap
listed n h = record h { lists = h.lists + 1; stemmers = h.stemmers + n }

pub free_stemmer_list_lem :
    (list : List Language) (h : Heap)
    → free_stemmer_list list h
      ≡ record h { lists = h.lists - 1; stemmers = h.stemmers - length list }
unfolding free_stemmer_list
free_stemmer_list_lem [] h = ground arith
free_stemmer_list_lem (s ∷ list) h =
    ground (arith, free_stemmer_list_lem list (record h { stemmers = h.stemmers - 1 }))

free_stemmer_list-listed :
    (list : List Language) (h : Heap) → free_stemmer_list list (listed (length list) h) ≡ h
free_stemmer_list-listed list h = free_stemmer_list_lem list (listed (length list) h) ∙ ground arith

abbrev pub AllKnown : (Language → Bool) → List Language → Type 0
AllKnown knows = All (λ l. knows l ≡ true)

AllKnown-snoc :
    (knows : Language → Bool) (made : List Language) (l : Language)
    → AllKnown knows made
    → knows l ≡ true
    → AllKnown knows (made ++ l ∷ [])
AllKnown-snoc knows [] l h k = (k, tt)
AllKnown-snoc knows (m ∷ made) l h k = (h.0, AllKnown-snoc knows made l h.1 k)

-- The list holds the languages, all known; or nothing is left of it.
abbrev pub IsFilled : (Language → Bool) → List Language → Heap → StemmerList × Heap → Type 0
IsFilled knows languages h (list, h') =
    ((list ≡ stemmers languages) × AllKnown knows languages × (h' ≡ listed (length languages) h))
    ⊎ ((list ≡ null) × (h' ≡ h))

fill_stemmer_list-IsFilled :
    (knows : Language → Bool) (rest made : List Language) (h g : Heap)
    → AllKnown knows made
    → g ≡ listed (length made) h
    → IsFilled knows (made ++ rest) h (fill_stemmer_list knows rest made g)
unfolding fill_stemmer_list
fill_stemmer_list-IsFilled knows [] made h g k e = rw append-nil (inl (refl, k, e))
fill_stemmer_list-IsFilled knows (l ∷ rest) made h g k e = elim (Bool-cases (knows l)) [
  | inl known ↦ rw known (
      rw (append_assoc made (l ∷ []) rest) at (
        fill_stemmer_list-IsFilled knows rest (made ++ l ∷ []) h
          (record g { stemmers = g.stemmers + 1 }) (AllKnown-snoc knows made l k known)
          (ground (arith, length-append made (l ∷ [])))))
  | inr unknown ↦ rw unknown (inr (refl, rw e (free_stemmer_list-listed made h)))
]

pub allocate_stemmer_list-IsFilled :
    (env : Environment) (languages : List Language) (h : Heap)
    → languages ≢ []
    → IsFilled env.knows languages h (allocate_stemmer_list env languages h)
unfolding allocate_stemmer_list
allocate_stemmer_list-IsFilled env [] h ne = absurd (ne refl)
allocate_stemmer_list-IsFilled env (l ∷ rest) h ne = elim (Bool-cases env.list_memory) [
  | inl granted ↦ rw granted (
      fill_stemmer_list-IsFilled env.knows (l ∷ rest) [] h (record h { lists = h.lists + 1 }) tt
        (ground arith))
  | inr missing ↦ rw missing (inr (refl, refl))
]

fill_stemmer_list-known :
    (knows : Language → Bool) (rest made : List Language) (g : Heap)
    → AllKnown knows rest
    → fill_stemmer_list knows rest made g
      ≡ (stemmers (made ++ rest), record g { stemmers = g.stemmers + length rest })
unfolding fill_stemmer_list
fill_stemmer_list-known knows [] made g k = rw append-nil (ground arith)
fill_stemmer_list-known knows (l ∷ rest) made g k = ground (
  arith,
  append_assoc made (l ∷ []) rest,
  fill_stemmer_list-known knows rest (made ++ l ∷ []) (record g { stemmers = g.stemmers + 1 }) k.1,
)

pub allocate_stemmer_list-known :
    (env : Environment) (languages : List Language) (h : Heap)
    → languages ≢ []
    → env.list_memory ≡ true
    → AllKnown env.knows languages
    → allocate_stemmer_list env languages h ≡ (stemmers languages, listed (length languages) h)
unfolding allocate_stemmer_list
allocate_stemmer_list-known env [] h ne granted k = absurd (ne refl)
allocate_stemmer_list-known env (l ∷ rest) h ne granted k =
    ground
      (arith, fill_stemmer_list-known env.knows (l ∷ rest) [] (record h { lists = h.lists + 1 }) k)
