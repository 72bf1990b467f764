-- ===== src/Auth/Keeps.antt =====
-- What the requests keep of the tables.
pub mod Rules
pub mod Lasting
pub mod Stores
pub mod Tokens
pub mod Sessions
pub mod Mfa
pub mod Accounts
pub mod Requests
pub mod Runs
pub mod Leads
pub mod Ends
