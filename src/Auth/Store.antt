-- ===== src/Auth/Store.antt =====
-- internal/auth/store.go: the MySQL store. Defs has the tables, Monad what a driver call does, the
-- other children one group of methods each, with its properties below it.
pub mod Defs
pub mod Monad
pub mod Table
pub mod Keeps
pub mod Tickets
pub mod Codes
pub mod Oauth
pub mod Sessions
pub mod Users
pub mod TokenFrames
pub mod History
