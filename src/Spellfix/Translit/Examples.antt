-- ===== src/Spellfix/Translit/Examples.antt =====
-- Runs of the transliteration, and its theorems at concrete texts.
use letarette.Base.{ℕ, ◌≤◌, ◌≡◌, refl, true, some, List, [], ◌∷◌, arith, All, pos}
use letarette.Sqlite.{int, text, Value}
use letarette.Auxiliary.{text_until}
use letarette.Spellfix.Classes.{mid_class}
use letarette.Spellfix.Utf8.{utf8_read, walk, utf8_charlen}
use letarette.Spellfix.Utf8.Encode.{encode_all}
use letarette.Spellfix.Translit.Table.{translit}
use letarette.Spellfix.Translit.{
  ascii, undefined, transliterate, transliterate_sql_func, translen_to_charlen, script_code,
}
use letarette.Spellfix.Translit.Spell.{
  spell_all, IsAscii, transliterate-encode_all, transliterate_bounds,
}
use letarette.Spellfix.Translit.Translen.{IsShortest, translen_to_charlen-IsShortest}

-- "Straße" as characters and as bytes.
abbrev street : List ℕ
street = b'S' ∷ b't' ∷ b'r' ∷ b'a' ∷ 0xDF ∷ b'e' ∷ []

abbrev street_bytes : List ℕ
street_bytes = b'S' ∷ b't' ∷ b'r' ∷ b'a' ∷ 0xC3 ∷ 0x9F ∷ b'e' ∷ []

street_encoded : encode_all street ≡ street_bytes
street_encoded = refl

street_ascii :
    transliterate true street_bytes ≡ ascii (b'S' ∷ b't' ∷ b'r' ∷ b'a' ∷ b's' ∷ b's' ∷ b'e' ∷ [])
unfolding transliterate walk utf8_read translit
street_ascii = refl

street_chars : translen_to_charlen street_bytes 6 ≡ some 5
unfolding translen_to_charlen walk utf8_read translit
street_chars = refl

street_length : utf8_charlen street_bytes ≡ some 6
unfolding utf8_charlen walk utf8_read
street_length = refl

-- A byte that is not in the table, and a character with too many continuation bytes.
strange_ascii : transliterate true (0xC2 ∷ 0x80 ∷ []) ≡ ascii (b'?' ∷ [])
unfolding transliterate walk utf8_read translit
strange_ascii = refl

overlong_undefined :
    transliterate true (0xC2 ∷ 0x80 ∷ 0x80 ∷ 0x80 ∷ 0x80 ∷ 0x80 ∷ 0x80 ∷ []) ≡ undefined
unfolding transliterate walk utf8_read
overlong_undefined = refl

abbrev as_value : List ℕ → Value
as_value bytes = record { bytes = bytes; number = pos 0 }

-- An apostrophe alone counts as Latin.
scripts :
    (script_code (as_value street_bytes) ≡ int (pos 215))
    × (script_code (as_value (0xCE ∷ 0xB1 ∷ b'a' ∷ [])) ≡ int (pos 998))
    × (script_code (as_value (39 ∷ [])) ≡ int (pos 215))
    × (script_code (as_value (b'-' ∷ [])) ≡ int (pos 999))
unfolding script_code walk utf8_read mid_class
scripts = (refl, refl, refl, refl)

translit_sql : transliterate_sql_func true (as_value (b'a' ∷ 0 ∷ b'b' ∷ [])) ≡ text (b'a' ∷ [])
unfolding transliterate_sql_func walk utf8_read text_until
translit_sql = refl

transliterate-encode_all_example : transliterate true (encode_all street) ≡ ascii (spell_all street)
transliterate-encode_all_example = transliterate-encode_all street (omega arith)

transliterate_bounds_example :
    All IsAscii (b'S' ∷ b't' ∷ b'r' ∷ b'a' ∷ b's' ∷ b's' ∷ b'e' ∷ []) × (7 ≤ 28)
transliterate_bounds_example =
    transliterate_bounds true street_bytes (b'S' ∷ b't' ∷ b'r' ∷ b'a' ∷ b's' ∷ b's' ∷ b'e' ∷ [])
      street_ascii

translen_to_charlen-IsShortest_example :
    (k : ℕ) × (translen_to_charlen (encode_all street) 6 ≡ some k) × IsShortest 6 street k
translen_to_charlen-IsShortest_example = translen_to_charlen-IsShortest street 6 (omega arith)
