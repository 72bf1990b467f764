-- ===== src/Notifications.antt =====
-- Notifications about the watchlist: backend/flipradar/services/notification_service.py.
pub mod Rows
pub mod Stores
pub mod Emit
pub mod Inbox
pub mod Digest
pub mod Steps
pub mod Keeps
pub mod Distinct
pub mod Mailed
pub mod Silenced
pub mod Reading
pub mod Delivered
mod Tests
