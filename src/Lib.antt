-- ===== src/Lib.antt =====
-- Verification library of openrep.
--
-- openrep is a ledger of signed statements about agents. An agent is a key pair with a second key
-- pair of its owner; what it did is attested by signed records, which anyone can verify, and an
-- owner can revoke it. All of this is the SDK, packages/sdk/src; the command line and the web
-- application call it.
--
-- Parts and files (paths of the program are under packages/sdk/src):
--   Prelude       lists, texts and Boolean tests over the native numbers; Prelude/Keys has unique
--                 columns
--   Result        types/errors.ts: `Result`, error codes, and the control flow of the async
--                 functions: `await`, `try`, early returns; Result/Rules has one proof rule a step
--   Records       types/*.ts: the records that the parts exchange
--   Storage       types/storage.ts and types/security.ts: `StorageAdapter` and
--                 `SessionKeyBackend`, with the laws that their users need
--   Platform      SHA-256, Ed25519, UTF-8 and `Date.parse`, which the SDK calls: parameters, with
--                 their documented behaviour as `CryptoLaws`
--   Hex           hex.ts: `bytesToHex`, `hexToBytes`, `isLowercaseHexOfLength`
--   Canonical     canonical.ts: `canonicalize`; Canonical/Json is `JSON.stringify` of strings and
--                 Canonical/Tree the abstract value that a text stands for, and
--                 Canonical/Reify the one that a value denotes
--   Attestation   attestation.ts: Content is the validation, Signing `signAndPersistAttestation`,
--                 Native `attest`, Ingest `ingest`, Verify `verifyAttestation`
--   Revocation    revocation.ts: `revokeAgent`
--   Names         the loop over generated names that agent.ts and rotation.ts both have; Words
--                 is names.ts: `generateName` and `generateNameBatch`
--   Agent         agent.ts: Manifest is `verifyManifest`, `signManifestFields` and the field rules,
--                 Create `createAgent`, Visibility `setVisibility`, Wrap
--                 `wrapAgent`
--   Rotation      rotation.ts: `rotateAgent`
--   Score         score.ts: `getScore`
--   Resolve       resolve.ts: `resolve`
--   Sessions      session-store.ts: `InMemorySessionKeyStore`
--   DurableSessions  session-store-durable.ts: `get`, `set`, `delete`, `clearExpired`
--   RunLoop       run-loop.ts: `runAgentLoop`; Schema is `validateAgainstSchema` of
--                 providers/validate.ts, History `normalizeHistory`
--   Tools         tools/guards.ts: Address is `isSensitiveIp`, Fetch `assertPublicUrl` and
--                 `safeFetch`
--   Prompt        packages/cli/src/ui: Machine is input-machine.ts, Keys input-keys.ts, Session
--                 the state of prompt.tsx; Line is the line that a user sees
--   RateLimit     apps/web/src/server/rate-limit.ts: `FixedWindowRateLimiter`
--   Sqlite        storage/sqlite.ts: Tables has the state, Agents, Attestations and SessionKeys the
--                 methods, Adapter the whole, with its sequences of writes
--   Tests         runs on concrete inputs
--
-- A function that awaits the store is a function from the store's state to an outcome and a state.
-- An outcome is `ok`, a failure with its code, or a rejection that nothing caught. A call of the
-- store may reject at any time; theorems over every store cover that. Strings are lists of UTF-16
-- units. The clock, random ids and fresh objects are arguments.
--
-- Bounds: canonicalization recurses on the levels that are left of `MAX_CANONICAL_DEPTH`, and the
-- loop over names on the attempts that are left of `NAME_GENERATION_MAX_ATTEMPTS`, as the code does.
-- The loop over the pages of a history is on fuel, two more than the cap on the records: a page that
-- is not the last has a record. A weight is a double, and the score a sum of doubles in the order of
-- the code, over any `plus` and `times` of them; Score/Doubles has those of IEEE 754 for doubles that
-- are not negative.
--
-- The run loop recurses on the turns that are left of `maxTurns`, and `safeFetch` on the redirects
-- that are left of `maxRedirects`.
--
-- Each method of the store is one step of it, but `rotateAgent` of sqlite.ts: the connection yields
-- between `BEGIN` and `COMMIT`, so that it is two moves of a `Connection`, with any writes of other
-- callers in between. `sqlite`, which the other parts call, has the two with nothing in between.
--
-- Fields of manifests and requests are of their declared types: the `typeof` tests of them, which
-- callers without types need, hold by that, and are not clauses here.
--
-- Not modelled: the SQL text, column codecs and schema bootstrap; error messages; the chat, user and
-- account tables; storage/libsql.ts, which has the statements of sqlite.ts for another driver; the
-- commands and screens of the command line, the web application, and the model providers and stock
-- tools, which are mostly I/O.
pub mod Prelude
pub mod Result
pub mod Hex
pub mod Canonical
pub mod Records
pub mod Storage
pub mod Platform
pub mod Revocation
pub mod Sqlite
pub mod DurableSessions
pub mod Sessions
pub mod Attestation
pub mod Names
pub mod Agent
pub mod Rotation
pub mod Score
pub mod Resolve
pub mod Tools
pub mod Prompt
pub mod RunLoop
pub mod RateLimit
pub mod Tests
