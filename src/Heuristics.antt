-- ===== src/Heuristics.antt =====
-- crates/aegiuw-core/src/heuristics: local signals about a domain and about who asks for it.
pub mod Levenshtein
pub mod Context
