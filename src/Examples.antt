-- ===== src/Examples.antt =====
-- The theorems at concrete inputs.
mod Accounts
mod Directory
mod Downloads
mod Email
mod Feeds
mod Handlers
mod Providers
mod RateLimiter
mod Releases
mod Sessions
mod Settings
mod Store
mod Tables
