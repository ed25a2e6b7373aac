-- ===== src/Typesense.antt =====
-- internal/typesense: the search engine behind the interfaces of package search.
pub mod Query
pub mod Schema
pub mod Documents
pub mod Engine
pub mod Searcher
pub mod Index
pub mod Client
