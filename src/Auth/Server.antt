-- ===== src/Auth/Server.antt =====
-- internal/auth/server.go and internal/auth/request_security.go: the handlers. Defs has the state
-- and what is not the repository's, Requests the checks of a request, Cookies the session of a
-- request, Login the logins with a password or a code, Google and Desktop the single sign-on, Tokens and Market the identity tokens. Grants asks who gets a session.
pub mod Defs
pub mod Requests
pub mod Cookies
pub mod Login
pub mod Google
pub mod Desktop
pub mod Sso
pub mod Tokens
pub mod Market
pub mod Updates
pub mod Catalogs
pub mod Avatars
pub mod Grants
