-- ===== src/Search.antt =====
-- The search of the documentation site (docs/docs/search/search.js).
pub mod Spaces
pub mod Ident
pub mod Escape
pub mod Dom
pub mod Sections
pub mod Panel
pub mod Results
pub mod Data
pub mod Site
pub mod Field
pub mod Setup
pub mod EndToEnd
pub mod Examples
