-- ===== src/Lib.antt =====
-- nest-auth keeps the authentication state of a NestJS server in Redis: refresh sessions, their
-- families and per-user indexes, counters, and one-time passwords. This library models the part of
-- the server that decides over that state and over the access tokens that rest on it. Paths are
-- from the root of the repository.
--
-- The parts, each with its file and its source:
--   Redis            the commands of the Redis server as a record of operations and documented
--                    effects (Redis/Interface, and Redis/Hashes for hashes), a server in memory that
--                    has them (Redis/Memory, Redis/HashMemory), and the namespace that
--                    src/server/redis/auth-redis.service.ts puts before every key (Redis/Namespace)
--   Keys             src/server/constants/user-subject.ts, user-keys.ts, recent-auth.ts, and the
--                    prefix table of auth-redis.service.ts: the planes, the slots and the keys
--   Json             JSON values and the surroundings of the server: JSON.parse, JSON.stringify, the
--                    digests of node:crypto, and the store
--   AuthRedis        auth-redis.service.ts: the Lua scripts that create, recover and rotate a session
--                    (AuthRedis/Scripts), the loops that revoke and prune (AuthRedis/Sweeps), the
--                    operations rotateRefreshSession, writeNewSession, writeRecoveredSession,
--                    revokeFamily and invalidateUserSessions (AuthRedis/Sessions), the counters
--                    incrWithFixedTtl, getUserTokenEpoch and bumpUserTokenEpoch (AuthRedis/Counters),
--                    and mintWsTicket and redeemWsTicket (AuthRedis/Tickets)
--   BruteForce       src/server/services/brute-force.service.ts: the lockout counters
--   TokenManager     src/server/services/token-manager.service.ts: the session records and the checks
--                    on them, the tokens of a login (TokenManager/Issue), and reissueTokens and
--                    reissuePlatformTokens (TokenManager/Refresh, TokenManager/PlatformRefresh)
--   Otp              src/server/services/otp.service.ts: the generation, storing and verification of
--                    a one-time password
--   SessionService   src/server/services/session.service.ts: the detail records
--                    (SessionService/Records), creation, the limit, revocation, rotation and
--                    the listing (SessionService/Listing)
--   Totp             src/server/crypto/totp.ts: base32, one-time passwords of a counter, and the
--                    otpauth URI (Totp/Uri)
--   Access           src/server/services/auth-token-verifier.service.ts with auth-revocation.service.ts,
--                    the checks in src/server/guards/utils and src/server/utils that it calls, and
--                    account-status.service.ts (Access/Status); the roles of
--                    src/server/utils/roles.util.ts and guards/roles.guard.ts (Access/Roles), and the
--                    guards on the token, the account and the second factor (Access/Guards), and
--                    src/server/services/ws-ticket.service.ts (Access/WsTickets)
--   Crypto           src/server/crypto/aes-gcm.ts: the text form of an encrypted value (Crypto/AesGcm)
--   Users            src/server/interfaces/user-repository.interface.ts and
--                    platform-user-repository.interface.ts: the accounts of both planes behind the laws
--                    of the two repositories, and accounts in memory that have them (Users/Memory)
--   Mfa              src/server/services/mfa.service.ts: the flows, secrets and accounts (Mfa), codes
--                    (Mfa/Codes), transitionMfaRecord (Mfa/Transition), challenge and
--                    challengePlatformOnly (Mfa/Challenge), disable, resetMfa and
--                    assertReauthenticated (Mfa/Removal), regenerateRecoveryCodes
--                    (Mfa/RecoveryCodes), setup and verifyAndEnable (Mfa/SetupData, Mfa/Setup,
--                    Mfa/Enabling), over the temporary tokens of token-manager.service.ts
--                    (TokenManager/MfaTemp) and the SET NX of auth-redis.service.ts
--                    (AuthRedis/Claims)
--   Tests            the theorems at concrete runs
-- Access reads what AuthRedis writes; Mfa reads and writes the store and the accounts, and calls Totp,
-- BruteForce, TokenManager, SessionService and Crypto, as methods that may throw and leave what they
-- have written (Prelude/Action); TokenManager, SessionService and BruteForce call AuthRedis, which
-- calls Redis. State is passed explicitly, so a store is an argument and a result of every operation
-- that writes. A script is one atomic step, and the interleavings of the operations of several clients
-- are the sequences of steps in AuthRedis/Sessions/Steps, where the environment may also let a key
-- expire.
--
-- What is taken for granted. A Lua script runs atomically. Each key is used with the commands of one
-- type, which its prefix names, so a WRONGTYPE error does not occur. The expiry of a session index is
-- no step of its own: every write of a session renews its life with that of the session. JSON numbers
-- are whole. A text is a list of character codes, and its length is their number. An access token
-- carries the claim mfaVerified, and the context of a temporary token, which the server signs, is one
-- of the two planes. Digests are arguments: where two of them must differ,
-- that is a hypothesis of the theorem. A constant-time comparison is equality. Times are natural
-- numbers of milliseconds, and a time to live is in seconds and not 0, as Redis demands. A set holds a
-- member once. HMAC-SHA1, the changes of case of Unicode, the verification of a JWT and the
-- repositories of the application are arguments, too. Two definitions run on fuel: the printing of a
-- number, with one more than the number, and the inner loop of toBase32, with as many rounds as there
-- are bits, of which each round takes five.
--
-- What is not modelled: log lines, the waiting that levels response times, random generation (the
-- drawn bytes and tokens are arguments), the mails, hooks and last-login times of a challenge, the
-- signing of JWTs (an access token stands for its claims), `eval`, which hands a script to Redis
-- (each script is an operation of its own), and what no file above names: the controllers,
-- decorators, configuration and client code, which are declarations and glue for NestJS, Next.js and
-- React, the exchanges with an identity provider, and the flows of passwords, e-mail, invitations
-- and API keys, which work on the repositories and the mail provider of the application.
pub mod Prelude
pub mod Redis
pub mod Keys
pub mod Json
pub mod AuthRedis
pub mod BruteForce
pub mod TokenManager
pub mod Otp
pub mod SessionService
pub mod Totp
pub mod Crypto
pub mod Users
pub mod Mfa
pub mod Access
mod Tests
