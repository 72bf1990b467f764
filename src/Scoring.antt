-- ===== src/Scoring.antt =====
-- The deterministic engines: deal scores, recommendations, decisions and portfolio valuations, of
-- backend/flipradar/domain/engines.
pub mod Amounts
pub mod Report
pub mod Deal
pub mod Score
pub mod Recommend
pub mod Decide
pub mod Valuation
pub mod Totals
pub mod Bounds
pub mod Advice
mod Tests
