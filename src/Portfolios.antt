-- ===== src/Portfolios.antt =====
-- Portfolios, the holdings in them and their hourly valuations:
-- backend/flipradar/services/portfolio_service.py and portfolio_dashboard_cache.py.
pub mod Rows
pub mod Outcomes
pub mod Stores
pub mod Holdings
pub mod Valued
pub mod Service
pub mod Imports
pub mod Importing
pub mod Merged
pub mod Summary
pub mod Grouped
pub mod Steps
pub mod Changes
pub mod Moves
pub mod Limits
pub mod Held
pub mod Fresh
pub mod SameItems
pub mod Owners
pub mod Deletion
pub mod Pieces
pub mod Hourly
pub mod Valuations
mod Tests
