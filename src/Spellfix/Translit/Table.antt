-- ===== src/Spellfix/Translit/Table.antt =====
-- internal/spellfix/spellfix.c: translit, the table of the characters that have an ASCII spelling.
use letarette.Base.{List, ◌++◌}
use letarette.Spellfix.Translit.Row.{Transliteration}
use letarette.Spellfix.Translit.Latin.{latin_one, latin_extended}
use letarette.Spellfix.Translit.OtherScripts.{greek, cyrillic, additional}

unfoldable pub translit : List Transliteration
unfolding latin_one latin_extended greek cyrillic additional
translit = latin_one ++ latin_extended ++ greek ++ cyrillic ++ additional
