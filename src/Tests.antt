-- ===== src/Tests.antt =====
-- The theorems of the development at concrete inputs, where what they suppose holds.
mod Samples
mod Indexing
mod Delivered
mod Search
mod Typesense
mod Services
mod Store
mod Arglayout
mod Wiring
mod Commands
