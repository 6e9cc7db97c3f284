-- ===== src/Lib.antt =====
-- The security core of the Capybara AI server.
--
-- The server is a multi-tenant AI workspace. It starts with a configuration that is checked as a whole
-- (src/config). A request is authorised by role (src/rbac), a login is protected by a lockout and a
-- second factor (src/auth), and users are changed and deactivated by owners and admins
-- (src/admin/users.ts). What happens is written to a hash-chained log (src/audit/securityLog.ts) that
-- signed checkpoints pin (src/audit/anchor.ts) and that is scanned for bursts
-- (src/security/anomaly.ts). Other systems call with API keys (src/integrations/apiKeys.ts) and are
-- told of events by webhooks (src/integrations/webhooks.ts). Chunks and messages are encrypted at rest
-- under keys that an admin rotates (src/lib/crypto.ts, src/admin/encryption.ts), and are searched with
-- the clearance of the caller (src/documents/search.ts). The tools that a model calls run through a
-- sandbox (src/ai/tools) whose risky calls a human must approve (src/compliance/oversight.ts).
--
-- The modules and the code:
--   Prelude    shared names, Boolean tests, texts, lists, tables of rows, asynchronous actions
--   Config     src/config: Schema (`env.schema.ts`, its fields in Schema/Values and Schema/Fields), Secrets
--              (`secrets.ts`), Keys (`keySource.ts`), Providers (the schemas of
--              src/ai/providers/registry.ts), Texts and Checks (the parts of `loadConfig`), Load
--              (`load_config` and the configuration)
--   Crypto     src/lib/crypto.ts: `encrypt_secret`, `decrypt_secret` and the derived keys
--   Rbac       src/rbac/roles.ts, permissions.ts, guard.ts: tables, `can`, `has_at_least_role`, guards
--   Hash       src/lib/hash.ts: JSON values and `canonical_json`
--   Audit      src/audit/securityLog.ts, verifyChain.ts: `append_security_event`, `verify_chain`
--   Anchor     src/audit/anchor.ts: `create_anchor`, `verify_anchors`
--   Auth       src/auth/abuseGuard.ts: `check_lockout`, `record_failure`, `record_success`,
--              `clear_lockout`; session.ts: `create_session`, `validate_session`, `revoke_session`;
--              mfa.ts: `verify_totp`, `verify_backup_code`, `verify_and_enable`; local.provider.ts:
--              `register`, `authenticate`; Directory holds the tables that Admin shares
--   Admin      src/admin/users.ts: `deactivate_user`, `change_role` and the others; encryption.ts:
--              `rotate_key`, with the loop over the batches in Encryption/Loop
--   Tenancy    src/tenancy/scope.ts: the context of a statement and the row-level test
--   Oversight  src/compliance/oversight.ts with the policy and the trigger of
--              src/db/sql/0005_compliance.sql: `check`, `record_outcome`, `decide`, `expire_stale`
--   Tools      src/ai/tools/registry.ts, approval.ts, sandbox.ts: `execute_tool` stage by stage;
--              Scopes: the file and shell capabilities of src/ai/tools/scopes
--   Documents  src/documents/chunk.ts: `chunk_text`; lifecycle.ts and accessLog.ts:
--              `soft_delete_document`, `set_legal_hold`, `log_access`; src/admin/storageQuota.ts:
--              `enforce_storage_quota`; search.ts: `search_documents`
--   Integrations src/integrations/webhooks.ts: `emit_event`, the deliveries and their retries;
--              apiKeys.ts with src/http/apiKeyAuth.ts: `create_api_key`, `revoke_api_key`, `guard_api`
--   Http       src/http/rateLimits.ts: `acquire` and `release` of the stream limiter
--   Net        src/net/ssrfGuard.ts: `is_blocked_address`, `assert_url_allowed`;
--              src/ai/tools/scopes/network.scope.ts: `net_fetch`
--   Security   src/security/anomaly.ts: `detect_anomalies`
--   Tests      runs at small inputs, and the theorems applied there
--
-- How the state is modelled. A table is the list of its rows, in the order of insertion; a query is a
-- test on rows. Row-level security is the test that its policy adds to every query. A database
-- transaction runs its work and takes the state back if the work throws. An asynchronous method is a
-- function from a state to a result, a value or a thrown error, and a state. UUIDs and times are native
-- numbers; a difference of times that could be negative is written with the comparison that the code
-- makes of it. The clock is an argument or a part of the state. Each call is one step: two calls that
-- race on a row are not modelled, and the security log takes an advisory lock that makes an append one
-- step in the code too.
--
-- Parameters. SHA-256, `JSON.stringify`, `toISOString`, the order of `Array.sort`, Ed25519, the URL
-- parser, DNS, AES-256-GCM and HKDF, HMAC, Argon2, the check of one-time codes, the parsing of
-- environment values by zod, the file system, commands, random bytes, the embedder and the order of
-- pgvector, the tokens of the text encoding, the answers of receivers, the schemas, the handlers and
-- the isolation runner of tools are arguments of the definitions. Where a theorem relies on one of them
-- its hypothesis is named: a total order on keys, a hash text of 64 characters, a signature that
-- verifies under its key, a cipher that opens what it sealed under the same key and gives a tag of 16
-- bytes, base64 that gives bytes back, Argon2 that verifies what it hashed, a ranking of chunks that
-- only reorders them, and of the database that the serial ids of events rise. No theorem assumes that
-- SHA-256 has no collisions: one that needs it returns two different texts with one hash that the logs
-- at hand were hashed of. Nor does one assume that a cipher refuses another key: it returns the row
-- that was opened otherwise. What the query builder makes of the message of the oversight trigger is a
-- parameter; the words that it puts around other errors of the database are left out.
--
-- Fuel. The loop of `chunk_text` has a turn for every token; the theorem on it shows that the chunks
-- reach the end of the text. The loop over the batches of a rotation has a round for each hundred rows
-- and one more, and the loop over the attempts of a delivery has `max_retries` and one more; the
-- theorems on them take that fuel, and show that every visible row is treated and that a delivery ends.
-- Every other loop that is modelled goes over a list.
--
-- Not modelled: the HTTP routes, the clients of AI providers, text extraction, SAML and OIDC, and the
-- rendering of reports, which are glue or input and output; SCIM, the ingestion of documents, and the
-- lists and statistics for administrators.
pub mod Prelude
pub mod Rbac
pub mod Hash
pub mod Crypto
pub mod Audit
pub mod Anchor
pub mod Auth
pub mod Tenancy
pub mod Oversight
pub mod Tools
pub mod Documents
pub mod Http
pub mod Net
pub mod Config
pub mod Integrations
pub mod Security
pub mod Tests
pub mod Admin
