-- ===== src/Spellfix.antt =====
-- internal/spellfix/spellfix.c: the parts of the spelling correction that compare words by sound and by
-- their spelling, and by the script that they are written in.
pub mod Classes
pub mod Phonetic
pub mod Costs
pub mod Utf8
pub mod Translit
pub mod Edit
pub mod Config
pub mod Edit3
pub mod Cursor
mod Examples
