-- ===== src/Auth.antt =====
-- internal/auth: the login server.
pub mod Avatar
pub mod Downloads
pub mod Email
pub mod GoogleProvider
pub mod Jwt
pub mod RateLimiter
pub mod Store
pub mod Server
