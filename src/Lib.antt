-- ===== src/Lib.antt =====
-- Vaultly's backend: a server that keeps the secrets of a team's projects, encrypted, with the
-- history of every value. Users belong to workspaces by a role; a workspace has projects, a project
-- has environments, and an environment has secrets, whose values are versions of sealed bytes.
--
-- The parts, and the files that model them:
-- - Prelude: lists and Boolean tests over native numbers, texts as lists of code points, the signed
--   numbers of clients.
-- - Domain (backend/internal/domain): roles and their order, errors, audit actions.
-- - Db (backend/internal/db/sqlcgen/models.go): the rows, and the tables as a record of lists.
-- - World (backend/internal/service/service.go, audit.go): a service call takes the world to an
--   outcome and a world. The world holds the tables, the audit queue, a clock and an environment
--   that says, for each tick, whether the statement fails, which identifier the database generates,
--   the time, and the random bytes. `run` is one statement, `in_tx` is `InTx`, `record_event` is
--   `AuditRecorder.Record`. World/Respects, Returns, Yields and Atomic are the rules by which calls
--   are proved: a relation between the tables before and after, what the parts of a returning call
--   returned, what a returning call leaves behind, and calls that change nothing if they fail.
-- - Queries (backend/internal/db/sqlcgen): a function for each statement, with the constraints of
--   backend/internal/db/migrations/000001_init.up.sql that it can violate.
-- - Crypto (backend/internal/crypto/envelope.go): `Keyring` and its operations over a parameter for
--   AES-GCM, whose laws are `IsAead`. Crypto/Toy is a cipher that satisfies them.
-- - Validate (backend/internal/service/helpers.go): slugs and field validators.
-- - Authz (backend/internal/service/authz.go): the five checks of the Authorizer.
-- - Secrets (backend/internal/service/secret.go), Promotion (backend/internal/service/promotion.go),
--   Workspaces (backend/internal/service/workspace.go): the services.
-- - Projects (backend/internal/service/project.go): projects and environments. The collation that
--   orders names is a parameter.
-- - Tokens (backend/internal/service/token.go, backend/internal/auth/tokens.go): the authentication of
--   a token, the pull of its environment, the listing and the revocation. SHA-256 and netip are
--   parameters.
-- - Audit (backend/internal/service/audit.go): the statements on the log, the recorder as a step
--   relation between its callers, its writer and other goroutines, and the pages of the feed. JSON
--   and base64 are parameters.
-- - Passwords (backend/internal/auth/password.go): the stored form of passwords. Argon2, base64 and
--   `fmt.Sscanf` are parameters, whose laws are `IsArgon`.
-- - Sessions (backend/internal/service/auth.go, backend/internal/auth/jwt.go): accounts, login,
--   refresh and logout. The JWT library is a parameter, whose laws are `IsJwt`.
-- - Rotate (backend/cmd/rotate-key/main.go): the command that rewraps the data keys.
-- - Calls: the calls on secrets as one data type, and sequences of them by several users.
-- - Tests: runs on small tables.
--
-- The services call the Authorizer first, validate, read rows, seal or open values by the keyring,
-- write inside a transaction and queue an audit event. The laws of a service rest on those of the
-- statements and of the keyring that it calls.
--
-- Bounds: versions are PostgreSQL integers, and a bump above 2147483647 is an error of the statement.
-- Decimal printing has ten digits, which an int32 never exceeds. The loop
-- of the rotation runs on fuel, of which the number of versions and one more is enough; the search
-- for a workspace's slug makes 98 attempts, as in the code.
--
-- Not modelled: calls that run concurrently (a call's steps follow each other without other calls
-- between them; transactions of PostgreSQL are atomic), cancellation, the network and the HTTP
-- layer, process start, wiping of buffers, the issue of access tokens to machines, rate
-- limits, the names in the message about the order of two environments, and the client. Unicode's
-- tables and identifiers' texts are parameters.
pub mod Prelude
pub mod Domain
pub mod Db
pub mod World
pub mod Queries
pub mod Crypto
pub mod Validate
pub mod Audit
pub mod Authz
pub mod Projects
pub mod Passwords
pub mod Rotate
pub mod Sessions
pub mod Secrets
pub mod Promotion
pub mod Calls
pub mod Workspaces
pub mod Tests
pub mod Tokens
