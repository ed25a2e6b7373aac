-- ===== src/Search.antt =====
-- internal/search: the types and the rules that every other package speaks in.
pub mod Errors
pub mod Time
pub mod Call
pub mod Identifier
pub mod Document
pub mod Query
pub mod Service
