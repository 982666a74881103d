-- ===== src/Snowball.antt =====
-- internal/snowball/snowball.c: the FTS5 tokenizer "snowball", a filter over the tokenizer unicode61.
pub mod Session
pub mod Stopwords
pub mod Synonyms
pub mod Filter
pub mod Stems
pub mod Indexing
pub mod Searching
pub mod Failures
pub mod Setup
mod Examples
