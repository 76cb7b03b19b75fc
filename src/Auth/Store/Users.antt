-- ===== src/Auth/Store/Users.antt =====
-- internal/auth/store.go: accounts. Rows has the statements on one table, Identity the linking of
-- verified identities, Accounts the other methods.
pub mod Rows
pub mod Identity
pub mod Linking
pub mod Accounts
