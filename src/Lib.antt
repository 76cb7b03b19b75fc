-- ===== src/Lib.antt =====
-- The ZenMind official server is a Go program that signs users in (internal/auth), keeps their
-- sessions in MySQL, hands sessions on to a Desktop application, issues identity tokens and
-- forwards requests to a market server in their name, counts downloads in SQLite, and serves
-- avatars, installers and update feeds (internal/release). The settings come from the environment
-- (internal/config). The handlers (internal/auth/server.go) check a request and the rate limiter
-- (internal/auth/request_security.go), call the store (internal/auth/store.go), and answer with a
-- reply and at times a session cookie.
--
-- - Base, Text, Regex, Dict: native numbers and lists, Go strings as lists of bytes, regular
--   expressions with a matcher by derivatives, maps. Text has normalizeEmail and truncate of
--   internal/auth/store.go, Parts the lists of texts without repetitions, Path the paths of
--   filepath.Join, Decimal the digits of a number.
-- - Sqlite: the calls of database/sql that the download store, the installers and the import of
--   the older feed make; any call may fail.
-- - Settings: FromEnv of internal/config/config.go, and the settings of the avatar proxy that
--   cmd/server/main.go passes on.
-- - Auth/Email: validEmail, validEmailCode and randomDigits of internal/auth/server.go.
-- - Auth/RateLimiter: rateLimiter.allow. Window is about one window of time, Sweep about a
--   limiter that keeps its old entries.
-- - Auth/Store: the interface Store on the MySQL tables. Defs has the rows, Monad the methods'
--   effects (the tables, the clock, failures of the driver, transactions), Table the statements
--   of SQL on a list of rows, Keeps the rules for what a method keeps. Tickets, Oauth, Codes and
--   Sessions have the methods on these tables, Users those on the accounts: Identity is
--   upsertIdentityUser and its callers, Accounts the rest, Linking says to which account a
--   sign-in leads.
-- - Auth/Store/History: any sequence of calls of the methods by any number of requests, and what
--   such a sequence can and cannot bring about.
-- - Auth/Server: the handlers. Defs has the state and the services outside the repository,
--   Requests the checks of a request, Cookies the session of a request, Login the logins with a
--   password or a code, Google the sign-in with Google, Desktop the sessions of the Desktop and
--   the Authentik bridge, Sso the pages desktopSsoStart and desktopSsoContinue, Tokens
--   desktopSsoToken, Market marketProxy, Updates the handlers of internal/auth/desktop_updates.go
--   on any catalog, Catalogs the catalog of SQLite and the handler of the installers, Avatars the
--   handler of the avatars, Grants who gets a session, a ticket or a token, and who may write.
-- - Auth/Jwt: the signer of internal/auth/desktop_jwt.go. Auth/GoogleProvider:
--   internal/auth/google.go. Auth/Avatar: internal/auth/avatar_proxy.go; Download follows the
--   redirects, Cache has the files, Owners says whose files they are.
-- - Auth/Downloads: the store of internal/auth/download_store.go, Handlers the two handlers on
--   it, Totals runs of requests.
-- - Release: the manifests of the update feeds and their validation
--   (internal/release/desktop_updates.go), the feeds in SQLite (internal/release/update_feeds.go)
--   with their list and history (Listing) and the import of an older version (Migration);
--   Installers the table of the installers (internal/release/catalog.go), Placement the placing
--   of a file with its installer (internal/release/upsert.go); Directory the feeds as files
--   (internal/release/directory_updates.go), Directory/Import their import from SQLite.
-- - Examples: runs of the definitions on concrete tables and requests.
--
-- Strings are ASCII: the branches of strings.TrimSpace, strings.ToLower and strings.EqualFold for
-- other code points are left out. Times are natural numbers of nanoseconds, and the rounding of
-- DATETIME(3) is not modelled. A request reads one instant, though the code calls time.Now
-- several times. Every call of the driver, BeginTx, Commit and RowsAffected included, fails at
-- any point where the list of failures says so; a call that fails changes nothing, and a
-- transaction that fails leaves the tables as they were. A method is one step of a history: the
-- transactions lock what they read, the other methods are one statement each, but for the
-- unlocked read and write of UpsertAuthentikUser, and for TouchLastLogin, RecordLogin and the
-- rest that a handler calls one after the other, whose interleavings are orders of steps. The
-- collation of MySQL, sha256, bcrypt, crypto/rand, net/url, net/netip, oauth2 and oidc, the PEM
-- and X.509 parsers and the signature of tokens, the upstream servers of the avatars, the parsers
-- of durations and integers, and the mailer are parameters. The handlers take the Google provider
-- as a parameter too. LastInsertId of an INSERT that found a duplicate is a parameter. Integers
-- are natural numbers: negative sizes, revisions and schema versions, which the guards refuse,
-- are left out. Recursion is structural everywhere, so no fuel is needed; the loop of
-- randomDigits runs along the bytes that rand.Read returns, and the loop of download along its
-- four rounds. The files of UpsertFile and of the directory are a map from paths to contents,
-- where a write puts a temporary file first, whose random name is a parameter, and a file that is
-- copied is what the first read of it has found. A request for an avatar finds three lists of
-- cached files, since others change them between its steps; its lock is left out, which only
-- allows more orders of the steps.
--
-- Not modelled: DDL and connections (OpenMySQL, EnsureSchema, Close), the mailer, the
-- construction and the routes of the server (NewServer, Routes, securityHeaders), and the
-- programs under cmd, which wire the parts.
pub mod Auth
pub mod Base
pub mod Dict
pub mod Examples
pub mod Regex
pub mod Release
pub mod Settings
pub mod Sqlite
pub mod Text
