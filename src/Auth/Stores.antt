-- ===== src/Auth/Stores.antt =====
-- The account part of backend/flipradar/database/repositories.py, table by table.
pub mod Users
pub mod AccountTokens
pub mod Sessions
pub mod Mfa
