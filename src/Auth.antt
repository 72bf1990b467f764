-- ===== src/Auth.antt =====
-- Accounts and sessions: backend/flipradar/services/auth_service.py, the tokens of
-- api/dependencies/auth.py and the rows that database/repositories.py keeps for them.
pub mod Rows
pub mod Platform
pub mod Session
pub mod Tokens
pub mod Stores
pub mod Mails
pub mod Sessions
pub mod Answers
pub mod Mfa
pub mod Accounts
pub mod Recovery
pub mod Requests
pub mod Keeps
pub mod Refused
pub mod Replay
pub mod Marked
pub mod Refusal
pub mod SingleUse
pub mod Steps
pub mod Logout
pub mod Revoked
pub mod Denial
pub mod Closed
pub mod Login
pub mod Challenge
pub mod Failure
pub mod Locked
pub mod Outstanding
pub mod Kinds
mod Sample
mod Tests
