-- ===== src/Spellfix/Utf8/Encode.antt =====
-- Well-formed UTF-8, and what utf8Read and the loops over characters make of it.
use letarette.Base.{
  ℕ, ◌+◌, ◌-◌, ◌*◌, ◌/◌, ◌%◌, ◌^◌, ◌≤◌, ◌<◌, bit_and, ◌≡◌, refl, ◌∙◌, ◌⊎◌, inl, inr, true, false,
  ◌&&◌, not, some, List, [], ◌∷◌, ◌++◌, arith, ltb, leb, ◌==◌, if◌then◌else◌, Bool-cases, length,
  get_or, All,
}
use letarette.Base.Bits.{all_below, all_below_sound}
use letarette.Spellfix.Utf8.{utf8_trans, is_continuation, read_more, utf8_read}

-- The encoding of a character in one to four bytes.
abbrev pub encode : ℕ → List ℕ
encode c =
    if ltb c 0x80
    then c ∷ []
    else if ltb c 0x800
    then (0xc0 + c / 64) ∷ (0x80 + c % 64) ∷ []
    else if ltb c 0x10000
    then (0xe0 + c / 4096) ∷ (0x80 + c / 64 % 64) ∷ (0x80 + c % 64) ∷ []
    else (0xf0 + c / 262144) ∷ (0x80 + c / 4096 % 64) ∷ (0x80 + c / 64 % 64) ∷ (0x80 + c % 64) ∷ []

abbrev pub encode_all : List ℕ → List ℕ
encode_all [] = []
encode_all (c ∷ cs) = encode c ++ encode_all cs

abbrev pub IsChar : ℕ → Type 0
IsChar c = c < 0x110000

low_table : all_below 64 (λ x. is_continuation (0x80 + x) && bit_and 0x3f (0x80 + x) == x) ≡ true
unfolding all_below is_continuation
low_table = refl

trans_table :
    all_below 32 (λ x. get_or utf8_trans x 0 == x)
      && all_below 16 (λ x. get_or utf8_trans (0x20 + x) 0 == x)
      && all_below 8 (λ x. get_or utf8_trans (0x30 + x) 0 == x)
    ≡ true
unfolding all_below utf8_trans
trans_table = refl

continuation :
    (x : ℕ) → x < 64 → (is_continuation (0x80 + x) ≡ true) × (bit_and 0x3f (0x80 + x) ≡ x)
continuation x h = let told = all_below_sound 64 _ x low_table h in (ground arith, ground arith)

-- What follows a character does not look like a part of it.
abbrev pub Starts : List ℕ → Type 0
Starts [] = Unit {0}
Starts (b ∷ bytes) = is_continuation b ≡ false

read_more-Starts : (c i : ℕ) (bytes : List ℕ) → Starts bytes → read_more c i bytes ≡ some (c, i)
unfolding read_more
read_more-Starts c i [] h = refl
read_more-Starts c i (b ∷ bytes) h = rw h refl

read_more-continuation :
    (c i x : ℕ) (bytes : List ℕ)
    → x < 64
    → c * 64 + x < 2 ^ 31
    → read_more c i ((0x80 + x) ∷ bytes) ≡ read_more (c * 64 + x) (i + 1) bytes
unfolding read_more
read_more-continuation c i x bytes h small =
    let (is, value) = continuation x h in rw (is, value) (ground arith)

utf8_read_lead :
    (k : ℕ) (bytes : List ℕ)
    → utf8_read ((0xc0 + k) ∷ bytes) ≡ read_more (get_or utf8_trans k 0) 1 bytes
unfolding utf8_read
utf8_read_lead k bytes = let same : 0xc0 + k - 0xc0 ≡ k = omega arith in rw same (ground arith)

utf8_read_two :
    (a x : ℕ) (rest : List ℕ)
    → a < 32
    → x < 64
    → Starts rest
    → utf8_read ((0xc0 + a) ∷ (0x80 + x) ∷ rest) ≡ some (a * 64 + x, 2)
utf8_read_two a x rest ha hx s =
    let lead : get_or utf8_trans a 0 ≡ a =
      let told =
        all_below_sound 32 (λ x. get_or utf8_trans x 0 == x) a (ground (arith, trans_table)) ha in
      ground arith in
    utf8_read_lead a ((0x80 + x) ∷ rest)
    ∙ rw (lead, read_more-continuation a 1 x rest hx (omega arith)) (read_more-Starts _ _ rest s)

utf8_read_three :
    (a x y : ℕ) (rest : List ℕ)
    → a < 16
    → x < 64
    → y < 64
    → Starts rest
    → utf8_read ((0xe0 + a) ∷ (0x80 + x) ∷ (0x80 + y) ∷ rest) ≡ some ((a * 64 + x) * 64 + y, 3)
utf8_read_three a x y rest ha hx hy s =
    let lead : get_or utf8_trans (0x20 + a) 0 ≡ a =
      let told =
        all_below_sound 16 (λ x. get_or utf8_trans (0x20 + x) 0 == x) a
          (ground (arith, trans_table)) ha in
      ground arith in
    let moved : 0xe0 + a ≡ 0xc0 + (0x20 + a) = omega arith in
    rw moved (
      utf8_read_lead (0x20 + a) ((0x80 + x) ∷ (0x80 + y) ∷ rest)
      ∙ rw
          (
            lead,
            read_more-continuation a 1 x ((0x80 + y) ∷ rest) hx (omega arith),
            read_more-continuation (a * 64 + x) 2 y rest hy (omega arith),
          )
          (read_more-Starts _ _ rest s))

utf8_read_four :
    (a x y z : ℕ) (rest : List ℕ)
    → a < 8
    → x < 64
    → y < 64
    → z < 64
    → Starts rest
    → utf8_read ((0xf0 + a) ∷ (0x80 + x) ∷ (0x80 + y) ∷ (0x80 + z) ∷ rest)
      ≡ some (((a * 64 + x) * 64 + y) * 64 + z, 4)
utf8_read_four a x y z rest ha hx hy hz s =
    let lead : get_or utf8_trans (0x30 + a) 0 ≡ a =
      let told =
        all_below_sound 8 (λ x. get_or utf8_trans (0x30 + x) 0 == x) a (ground (arith, trans_table))
          ha in
      ground arith in
    let moved : 0xf0 + a ≡ 0xc0 + (0x30 + a) = omega arith in
    rw moved (
      utf8_read_lead (0x30 + a) ((0x80 + x) ∷ (0x80 + y) ∷ (0x80 + z) ∷ rest)
      ∙ rw
          (
            lead,
            read_more-continuation a 1 x ((0x80 + y) ∷ (0x80 + z) ∷ rest) hx (omega arith),
            read_more-continuation (a * 64 + x) 2 y ((0x80 + z) ∷ rest) hy (omega arith),
            read_more-continuation ((a * 64 + x) * 64 + y) 3 z rest hz (omega arith),
          )
          (read_more-Starts _ _ rest s))

-- Reading the encoding of a character, whatever well-formed text follows, gives the character.
pub utf8_read-encode :
    (c : ℕ) (rest : List ℕ)
    → IsChar c
    → Starts rest
    → utf8_read (encode c ++ rest) ≡ some (c, length (encode c))
unfolding utf8_read
utf8_read-encode c rest h s = elim (Bool-cases (ltb c 0x80)) [
  | inl one ↦ rw one (ground arith)
  | inr more ↦ elim (Bool-cases (ltb c 0x800)) [
    | inl two ↦
        rw (more, two)
          (utf8_read_two (c / 64) (c % 64) rest (ground arith) (omega arith) s ∙ ground arith)
    | inr more' ↦ elim (Bool-cases (ltb c 0x10000)) [
      | inl three ↦
          rw (more, more', three)
            (utf8_read_three (c / 4096) (c / 64 % 64) (c % 64) rest (ground arith) (omega arith)
                (omega arith) s
              ∙ ground arith)
      | inr four ↦
          rw (more, more', four)
            (utf8_read_four (c / 262144) (c / 4096 % 64) (c / 64 % 64) (c % 64) rest (omega arith)
                (omega arith) (omega arith) (omega arith) s
              ∙ ground arith)
    ]
  ]
]

lead_table :
    all_below 256
      (λ b. if leb 0x80 b && ltb b 0xc0 then is_continuation b else not (is_continuation b))
    ≡ true
unfolding all_below is_continuation
lead_table = refl

lead-ne-continuation : (b : ℕ) → b < 256 → (b < 0x80) ⊎ (0xc0 ≤ b) → is_continuation b ≡ false
lead-ne-continuation b h apart = let told = all_below_sound 256 _ b lead_table h in ground arith

Starts-encode : (c : ℕ) (rest : List ℕ) → IsChar c → Starts (encode c ++ rest)
Starts-encode c rest h = elim (Bool-cases (ltb c 0x80)) [
  | inl one ↦ rw one (lead-ne-continuation c (ground arith) (inl (ground arith)))
  | inr more ↦ elim (Bool-cases (ltb c 0x800)) [
    | inl two ↦
        rw (more, two) (lead-ne-continuation (0xc0 + c / 64) (ground arith) (inr (omega arith)))
    | inr more' ↦ elim (Bool-cases (ltb c 0x10000)) [
      | inl three ↦
          rw (more, more', three)
            (lead-ne-continuation (0xe0 + c / 4096) (ground arith) (inr (omega arith)))
      | inr four ↦
          rw (more, more', four)
            (lead-ne-continuation (0xf0 + c / 262144) (omega arith) (inr (omega arith)))
    ]
  ]
]

pub Starts-encode_all : (cs : List ℕ) → All IsChar cs → Starts (encode_all cs)
Starts-encode_all [] h = tt
Starts-encode_all (c ∷ cs) (h, hs) = Starts-encode c (encode_all cs) h

pub length-encode : (c : ℕ) → 0 < length (encode c)
length-encode c = ground arith
