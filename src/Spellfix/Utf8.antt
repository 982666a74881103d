-- ===== src/Spellfix/Utf8.antt =====
-- utf8Read and utf8Charlen, and the loop over the characters of a text that their callers share.
pub mod Encode
pub mod Fold
pub mod Walk
use letarette.Base.{
  ℕ, zero, suc, ◌+◌, ◌-◌, ◌*◌, ◌/◌, ◌%◌, ◌^◌, ◌≤◌, ◌<◌, bit_and, bit_or, ◌≡◌, refl, sym, ap, ◌∙◌,
  ◌≢◌, ◌↔◌, ◌⊎◌, inl, inr, Bool, true, false, ◌&&◌, ◌||◌, not, Option, none, some, List, [], ◌∷◌,
  ◌++◌, append_assoc, append-nil, arith, ltb, leb, ◌==◌, ==_iff, if◌then◌else◌, Bool-cases,
  Option-cases, length, get_elem?, get_or, drop-length_append, take, drop, length-append, All,
  IsByte, ℤ, pos, negsuc, pos_part, neg_part, ltb_ℤ, eqb_ℤ, eqb_ℤ→eq, to_int32,
}

-- sqlite3Utf8Trans1
utf8_trans : List ℕ
utf8_trans =
    0x00 ∷ 0x01 ∷ 0x02 ∷ 0x03 ∷ 0x04 ∷ 0x05 ∷ 0x06 ∷ 0x07 ∷ 0x08 ∷ 0x09 ∷ 0x0a ∷ 0x0b ∷ 0x0c ∷ 0x0d
    ∷ 0x0e ∷ 0x0f ∷ 0x10 ∷ 0x11 ∷ 0x12 ∷ 0x13 ∷ 0x14 ∷ 0x15 ∷ 0x16 ∷ 0x17 ∷ 0x18 ∷ 0x19 ∷ 0x1a
    ∷ 0x1b ∷ 0x1c ∷ 0x1d ∷ 0x1e ∷ 0x1f ∷ 0x00 ∷ 0x01 ∷ 0x02 ∷ 0x03 ∷ 0x04 ∷ 0x05 ∷ 0x06 ∷ 0x07
    ∷ 0x08 ∷ 0x09 ∷ 0x0a ∷ 0x0b ∷ 0x0c ∷ 0x0d ∷ 0x0e ∷ 0x0f ∷ 0x00 ∷ 0x01 ∷ 0x02 ∷ 0x03 ∷ 0x04
    ∷ 0x05 ∷ 0x06 ∷ 0x07 ∷ 0x00 ∷ 0x01 ∷ 0x02 ∷ 0x03 ∷ 0x00 ∷ 0x01 ∷ 0x00 ∷ 0x00 ∷ []

unfoldable pub is_continuation : ℕ → Bool
is_continuation b = bit_and b 0xc0 == 0x80

-- The continuation bytes, with the character so far and the number of bytes read. There is no limit
-- on their number: `none` says that the next shift overflows the `int`.
unfoldable pub read_more : ℕ → ℕ → List ℕ → Option (ℕ × ℕ)
unfolding is_continuation
read_more c i [] = some (c, i)
read_more c i (b ∷ bytes) =
    let c' = c * 64 + bit_and 0x3f b in
    let rest = read_more c' (i + 1) bytes in
    if is_continuation b then (if ltb c' (2 ^ 31) then rest else none) else some (c, i)

-- The first character, and its size in bytes.
unfoldable pub utf8_read : List ℕ → Option (ℕ × ℕ)
unfolding utf8_trans read_more
utf8_read [] = some (0, 0)
utf8_read (b ∷ bytes) =
    if leb 0xc0 b then read_more (get_or utf8_trans (b - 0xc0) 0) 1 bytes else some (b, 1)

-- `while( more && n>0 ){ c = utf8Read(z, n, &sz); z += sz; n -= sz; body }`, where the body may fail.
-- The fuel is the number of bytes, since a character has a byte at least.
module _ {S : Type 0} (more : S → Bool) (body : S → ℕ → Option S) where
  unfoldable pub walk : ℕ → S → List ℕ → Option S
  walk fuel s [] = some s
  walk zero s (b ∷ bytes) = none
  walk (suc fuel) s (b ∷ bytes) = elim (more s) [
    | false ↦ some s
    | true ↦ elim (utf8_read (b ∷ bytes)) [
      | none ↦ none
      | some (c, size) ↦ elim (body s c) [
        | none ↦ none
        | some s' ↦ walk fuel s' (drop size (b ∷ bytes))
      ]
    ]
  ]

unfoldable pub utf8_charlen : List ℕ → Option ℕ
unfolding walk utf8_read
utf8_charlen bytes = walk (λ n. true) (λ n c. some (n + 1)) (length bytes) 0 bytes
