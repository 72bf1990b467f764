-- ===== src/RateLimit.antt =====
-- The rate limits of backend/flipradar/api/middleware.py.
pub mod Limiter
pub mod Client
pub mod Window
pub mod Chain
pub mod Admission
pub mod Answers
pub mod Policies
pub mod Dispatch
mod Tests
