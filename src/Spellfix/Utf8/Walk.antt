-- ===== src/Spellfix/Utf8/Walk.antt =====
-- What holds along the loop over the characters of any bytes, well-formed or not.
use letarette.Base.{
  ℕ, zero, suc, ◌+◌, ◌-◌, ◌*◌, ◌≤◌, bit_and, ◌≡◌, ◌⊎◌, inl, inr, Bool, Option, some, List, [], ◌∷◌,
  arith, Bool-cases, Option-cases, length, get_or, drop,
}
use letarette.Spellfix.Utf8.{utf8_trans, read_more, utf8_read, walk}

read_more_size :
    (c i : ℕ) (bytes : List ℕ) (d size : ℕ) → read_more c i bytes ≡ some (d, size) → i ≤ size
unfolding read_more
read_more_size c i [] d size e = ground arith
read_more_size c i (b ∷ bytes) d size e =
    ground (arith, read_more_size (c * 64 + bit_and 0x3f b) (i + 1) bytes d size)

-- A character has one byte at least, so every round of a loop makes progress.
utf8_read_size :
    (b : ℕ) (bytes : List ℕ) (c size : ℕ) → utf8_read (b ∷ bytes) ≡ some (c, size) → 1 ≤ size
unfolding utf8_read
utf8_read_size b bytes c size e =
    ground (arith, read_more_size (get_or utf8_trans (b - 0xc0) 0) 1 bytes c size)

length-drop : (n : ℕ) (xs : List ℕ) → length (drop n xs) ≡ length xs - n
length-drop zero xs = omega arith
length-drop (suc n) [] = omega arith
length-drop (suc n) (x ∷ xs) = omega (arith, length-drop n xs)

module _ {S : Type 0} (more : S → Bool) (body : S → ℕ → Option S) where
  -- One round of the loop, if the loop gives a result.
  walk_round :
      (fuel : ℕ) (s : S) (b : ℕ) (bytes : List ℕ) (t : S)
      → walk more body (suc fuel) s (b ∷ bytes) ≡ some t
      → (s ≡ t)
        ⊎ ((c : ℕ) × (size : ℕ) × (s' : S) × (1 ≤ size)
            × (body s c ≡ some s')
            × (walk more body fuel s' (drop size (b ∷ bytes)) ≡ some t))
  unfolding walk
  walk_round fuel s b bytes t e = elim (Bool-cases (more s)) [
    | inr stopped ↦ inl (ground arith)
    | inl going ↦ elim (Option-cases (utf8_read (b ∷ bytes))) [
      | inl fails ↦ ground arith
      | inr ((c, size), read) ↦ elim (Option-cases (body s c)) [
        | inl fails ↦ ground arith
        | inr (s', next) ↦ inr (
          c,
          size,
          s',
          utf8_read_size b bytes c size read,
          next,
          rw (going, read, next, walk) at e,
        )
      ]
    ]
  ]

  -- What the body keeps, the loop keeps.
  pub walk_keeps {κ} :
      (P : S → Type κ)
      → ((s s' : S) (c : ℕ) → P s → body s c ≡ some s' → P s')
      → (fuel : ℕ) (s : S) (bytes : List ℕ) (t : S) → P s
      → walk more body fuel s bytes ≡ some t
      → P t
  unfolding walk
  walk_keeps P keep zero s [] t p e = let same : s ≡ t = ground arith in rw (← same) p
  walk_keeps P keep (suc fuel) s [] t p e = let same : s ≡ t = ground arith in rw (← same) p
  walk_keeps P keep zero s (b ∷ bytes) t p e = cc
  walk_keeps P keep (suc fuel) s (b ∷ bytes) t p e = elim (walk_round fuel s b bytes t e) [
    | inl same ↦ rw (← same) p
    | inr (c, size, s', _, next, rest) ↦
        walk_keeps P keep fuel s' (drop size (b ∷ bytes)) t (keep s s' c p next) rest
  ]

  -- What grows by 4 in a round at most grows by 4 for each byte at most.
  pub walk_grows :
      (measure : S → ℕ)
      → ((s s' : S) (c : ℕ) → body s c ≡ some s' → measure s' ≤ measure s + 4)
      → (fuel : ℕ) (s : S) (bytes : List ℕ) (t : S) → walk more body fuel s bytes ≡ some t
      → measure t ≤ measure s + 4 * length bytes
  unfolding walk
  walk_grows measure grow zero s [] t e =
      let same : s ≡ t = ground arith in rw (← same) (omega arith)
  walk_grows measure grow (suc fuel) s [] t e =
      let same : s ≡ t = ground arith in rw (← same) (omega arith)
  walk_grows measure grow zero s (b ∷ bytes) t e = cc
  walk_grows measure grow (suc fuel) s (b ∷ bytes) t e = elim (walk_round fuel s b bytes t e) [
    | inl same ↦ rw (← same) (omega arith)
    | inr (c, size, s', progress, next, rest) ↦ omega (
      arith,
      walk_grows measure grow fuel s' (drop size (b ∷ bytes)) t rest,
      grow s s' c next,
      length-drop size (b ∷ bytes),
    )
  ]
