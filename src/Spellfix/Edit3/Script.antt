-- ===== src/Spellfix/Edit3/Script.antt =====
-- What an edit distance is: edit scripts, and their cost.
use letarette.Base.{ℕ, ◌+◌, ◌<◌, ◌≡◌, ◌⊎◌, List, [], ◌∷◌, ◌++◌, length, take, drop}
use letarette.Spellfix.Config.{Cost, Lang}
use letarette.Spellfix.Edit3.{utf8_len, head}

abbrev pub Among : Cost → List Cost → Type 0
Among p [] = ⊥
Among p (q ∷ costs) = (p ≡ q) ⊎ Among p costs

-- The bytes of the first character, but no more than there are.
abbrev pub char_len : List ℕ → ℕ
char_len z = utf8_len (head z) (length z)

abbrev pub Begins : List ℕ → List ℕ → Type 0
Begins a z = (rest : List ℕ) × (z ≡ a ++ rest)

-- One edit, of what is left of both strings: `a` bytes of FROM become `b` bytes of TO.
pub data Edit (lang : Lang) (z1 z2 : List ℕ) (a b cost : ℕ) : Type 0 where
  delete :
      0 < length z1 → a ≡ char_len z1 → b ≡ 0 → cost ≡ lang.i_del_cost → Edit lang z1 z2 a b cost
  insert :
      0 < length z2 → a ≡ 0 → b ≡ char_len z2 → cost ≡ lang.i_ins_cost → Edit lang z1 z2 a b cost
  substitute :
      0 < length z1
      → 0 < length z2
      → a ≡ char_len z1
      → b ≡ char_len z2
      → cost ≡ lang.i_sub_cost
      → Edit lang z1 z2 a b cost
  keep :
      0 < length z1
      → 0 < length z2
      → a ≡ char_len z1
      → b ≡ char_len z2
      → Begins (take a z1) z2
      → cost ≡ 0
      → Edit lang z1 z2 a b cost
  configured :
      (p : Cost)
      → Among p lang.costs
      → Begins p.from z1
      → Begins p.to z2
      → a ≡ length p.from
      → b ≡ length p.to
      → cost ≡ p.i_cost
      → Edit lang z1 z2 a b cost

-- The first `i` bytes of FROM become the first `j` bytes of TO.
pub data Script (lang : Lang) (z1 z2 : List ℕ) : ℕ → ℕ → ℕ → Type 0 where
  start : {i j cost : ℕ} → i ≡ 0 → j ≡ 0 → cost ≡ 0 → Script lang z1 z2 i j cost
  step :
      {i j cost : ℕ} (i' j' c a b k : ℕ)
      → Script lang z1 z2 i' j' c
      → Edit lang (drop i' z1) (drop j' z2) a b k
      → i ≡ i' + a
      → j ≡ j' + b
      → cost ≡ c + k
      → Script lang z1 z2 i j cost
