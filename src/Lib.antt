-- ===== src/Lib.antt =====
-- OpenPrivy, a wallet backend: the parts of services/backend that hold keys, move wallets between
-- accounts and decide what is signed. Paths below are from services/backend/src.
--
-- The program. A user's wallet has a private key that the backend keeps, encrypted for the user
-- (common/encryption/encryption.service.ts) or on a hardware token. The wallet service
-- (modules/wallet) creates wallets and releases keys to their owner; the transaction service
-- (modules/transactions) asks it for a signer and the sanctions service (modules/compliance) for a
-- screening before it hands a transfer to the node. The rotation of the master key
-- (common/encryption/key-rotation.ts) and the social recovery (modules/social-recovery) rewrite
-- the stored keys: the first for a new master key, the second for a new owner.
--
-- The files, with the code that each models:
--   Base            shared names; texts as lists of code points (Base.Strings), exceptions as values
--                   (Base.Errors) and actions on a state that may throw (Base.Actions)
--   Encryption      EncryptionService: parseKey, keyIdOf, encrypt, decryptWithKeyId, decrypt,
--                   decryptWithCurrentKeyOnly, reencryptToCurrentKey; Encryption.Loader is
--                   master-key.loader.ts, Encryption.Hex the coding of Buffer, Encryption.Format and
--                   Encryption.RoundTrip the proofs
--   Wallet          the wallet entity, and assertKeyMatchesAddress of key-rotation.ts
--   Rotation        rotateWallets: the batches, one row's rotation, its optimistic write, the report
--   Store           the entities of users, guardians, requests, approvals and the audit log, as a
--                   database of lists of rows, with transactions that roll back on an exception
--   Recovery        RecoveryService by phase: Recovery.Guardians (listGuardians, addGuardian,
--                   removeGuardian, describeInvite, confirmInvite), Recovery.Requests (startRequest,
--                   close, cancelByToken, cancelForSignIn), Recovery.Votes (findOpenApproval,
--                   describeApproval, decide), Recovery.Keys and Recovery.Completion (complete,
--                   sweep), Recovery.Progress (currentRequest); Recovery.Lifecycle is the life of a
--                   request over these calls
--   Sanctions       SanctionsService: screenAddress, getStatus, parseCsv, syncFromCsv, fetchAndSync
--   Custody         WalletService: createWallet, getDecryptedPrivateKey, getEvmSigner and the rest
--   Transactions    TransactionService: createSigningRequest, confirmTransaction, sendTransaction,
--                   updateTransactionStatus
--   UserOp          modules/account-abstraction: userop-format.ts (UserOp for the two forms of an
--                   operation, UserOp.Calls for extractDestinations), UserOp.Sponsoring for
--                   paymaster.service.ts and UserOp.Service for userop.service.ts
--   Auth            AuthService of modules/auth/auth.service.ts and the session check of
--                   modules/auth/strategies/jwt.strategy.ts; Auth.OneTime is one-time-store.ts, and the
--                   interface through which Auth.Mobile, the WorkOS handlers of auth.controller.ts,
--                   uses it
--   Middleware      common/middleware: csrf.middleware.ts and rate-limit.middleware.ts
--   Signing         the hardware key of common/signing/hsm-signing-key.ts
--   Apps            helpers of apps/mobile/src/lib: pkce.ts, token.ts and validation.ts
--   Defi            modules/defi/services: staking.service.ts, and getChainId of swap.service.ts
-- Children named Samples and Tests hold concrete data and the theorems applied to it.
--
-- How the state corresponds. A table is the list of its rows in the order of their creation; a query
-- filters it by the `where` clause; saving a loaded row replaces the row with its id; an update
-- changes every row that its clause names. A method of a service is an action: it maps a state to the
-- state after the call and a result or the exception that it threw, and it keeps the writes that it made
-- before it threw, unless they stood in a transaction. Uuids are numbers, times are milliseconds, bytes
-- and characters are numbers. A call reads the clock once. The emails sent and the transfers handed
-- to a node are kept in the state, in their order. Every exception carries one fixed text; the parts of
-- a message that are computed are left out, as is logging.
--
-- Parameters. Node's crypto (Encryption.Crypto), with its laws (Encryption.RoundTrip.CryptoLaws: sizes, and
-- that a sealed text opens under its key and under no other key of the right size); the derivation of
-- addresses (Wallet.Chains); random draws, given by their count; whether the notifier delivers an email;
-- key generation, the hardware module and the nodes (Custody.Custodian, Transactions.Node); ethers
-- (UserOp.Ethers, with UserOp.RoundTrip.EthersLaws and UserOp.Sponsoring.Costs.WordLaws; UserOp.Calls.Interfaces),
-- the bundler and the paymaster (UserOp.Service.Remote); Supabase and the signing of tokens (Auth.AuthEnv), WorkOS,
-- JSON and random values (Auth.Mobile.ControllerEnv); the store of one-time values (Auth.OneTime.OneTimeStore,
-- which Redis and the map of the process both fill); the limiters (Middleware.Limiter, with
-- Middleware.Budget.Budget); the parser of CSV text, the
-- answer of a fetch and of the database to a write of the list (Sanctions.ListDatabase). Concurrent writers of the
-- wallet table during a rotation are the parameter `meanwhile`.
--
-- Fuel. Only the loop of rotateWallets is not structural: it takes one unit for each query, and one more
-- than there are rows is enough, since each batch starts after the last id of the one before.
--
-- Not modelled. Swaps, thin calls of RPC nodes, the other controllers and framework wiring,
-- migrations, scripts, the web app and the screens of the mobile app, the Solidity contracts and the
-- deployment files. Two recovery calls that run at the same time are not modelled: each method is one
-- step. Cookies are only the values that a handler reads or sets. Addresses of
-- user operations are bytes, so the checksum of their letters is not modelled, and neither is the unique
-- constraint on the address of a new wallet.
pub mod Base
pub mod Encryption
pub mod Wallet
pub mod Store
pub mod Recovery
pub mod Rotation
pub mod Sanctions
pub mod Custody
pub mod Transactions
pub mod UserOp
pub mod Auth
pub mod Middleware
pub mod Signing
pub mod Apps
pub mod Defi
