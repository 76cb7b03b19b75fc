-- ===== src/Auth/Server/Grants.antt =====
-- Which requests are given a session.
pub mod Password
pub mod Code
pub mod Google
pub mod Desktop
pub mod Logout
pub mod Token
pub mod Anonymous
pub mod Market
pub mod Updates
pub mod Continue
pub mod Avatar
