-- ===== src/Spellfix/Translit/Row.antt =====
-- internal/spellfix/spellfix.c: a row of the table translit.
use letarette.Base.{ℕ}

-- `struct Transliteration`; an unused cTo is 0.
pub record Transliteration : Type 0 where
  pub c_from : ℕ
  pub c_to0 : ℕ
  pub c_to1 : ℕ
  pub c_to2 : ℕ
  pub c_to3 : ℕ

abbrev pub entry : ℕ → ℕ → ℕ → ℕ → ℕ → Transliteration
entry from to0 to1 to2 to3 = record {
  c_from = from;
  c_to0 = to0;
  c_to1 = to1;
  c_to2 = to2;
  c_to3 = to3;
}
