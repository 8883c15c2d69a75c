-- ===== src/Framework.antt =====
-- The framework in Objective-C (framework/sources).
pub mod Word
pub mod Ranges
pub mod Multiples
pub mod RangeSets
pub mod Examples
