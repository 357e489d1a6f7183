-- ===== src/Lib.antt =====
-- The core of azeroth-core-web, a web portal for AzerothCore realms. Credits: orders are bought for them,
-- delivered into the game by a queue of recorded steps, and refunded; they come in by payments, gift
-- codes, votes, missions and events, and go out again when a payment is reversed. Accounts: verifiers
-- of passwords, the second factor, recovery codes, sessions and lost passwords. Staff: their
-- permissions, what they do with orders and events, and the console of the worldserver. Besides it, the
-- agent that edits a realm's configuration, the decoder for passkeys and their attestation, the pages of
-- a list and the rate limiter.
--
-- How the parts interact: the handlers share one MySQL database. `purchase` debits a wallet and queues
-- an order; `deliveryLoop` claims the order, asks the worldserver for one fulfilment step after the
-- other and records each; staff retry, refund or reconcile what waits for them; `redeemGiftCode`,
-- `billingWebhook`, `voteSiteCallback`, `claimPlayerMission` and `rewardEventAccount` move credits besides.
-- They meet in the tables only, and so do their models: one record of tables (Tables, from
-- internal/store/store.go) that every handler reads and changes. A mission counts the votes that the
-- callback records. The handlers of accounts share tables of their own (Accounts), and so does the
-- console: none of them touches a wallet.
--
-- Which file models what:
--   Base       numbers, lists, bytes, signed integers and machine words
--   Db         the SQL connection: a statement may fail, and a transaction ends in a commit or restores
--              the tables; Db/Rules, Db/Keeps and Db/Atomic are the rules to reason about a handler
--   Http       internal/web/server.go: an error response
--   Tables     internal/store/store.go: the rows of the tables
--   Wallet     the statements on portal_wallets and portal_credit_ledger, and the settled books
--   Delivery   internal/web/delivery.go: Parcel (splitItemStacks, chunkMailStacks, serviceCommand),
--              State (the statements on portal_order_steps), Steps (runOrderStep), Training
--              (prepareLevel80Character), Queue (deliveryLoop, claimOrder, fulfillOrder, reviewOrder),
--              Admin (adminRetryOrder, adminBulkRetryOrders, adminRefundOrder, adminResolveOrderStep)
--   Shop       Items (consolidateBundleItems, applyStarterMountFaction), Pricing (effectiveProductPrice,
--              eligibilityReasons, applyCoupon), Purchase (purchase, loadBundleItems)
--   Billing    Gifts (redeemGiftCode), Reversal (applyStripeReversal), Checkout (billingWebhook)
--   Cbor       internal/web/cbor.go: decodeCBOR
--   Passkeys   internal/web/passkeys.go: parseNoneAttestation, cleanTransports
--   Staff      internal/web/delivery.go: staffPermissionsFor
--   Pages      internal/web/pagination.go: requestPage, paginationMeta, slicePage
--   Limiter    internal/web/server.go: rate
--   Votes      internal/web/votes.go: consecutiveVoteDays, Callback (voteSiteCallback, visitVoteSite)
--   Missions   internal/web/reward_progress.go: claimPlayerMission, missionProgress, Loyalty
--              (loyaltyForPoints)
--   Events     internal/web/events.go: eventRegistrationAction, Staff (adminEventParticipantStatus,
--              adminEventRewards, rewardEventAccount)
--   Accounts   Srp (internal/srp/srp.go), Totp, Recovery, Security and Password (internal/web/security.go),
--              Reset (internal/web/recovery.go, email_verification.go), Sessions (auth and logout of
--              internal/web/server.go)
--   Console    internal/web/console.go
--   Agent      internal/realmagent/agent.go: replaceValues and how inspect reads a line, Apply
--              (the allowed settings, configValue, apply, authorize)
--   Tests      concrete inputs
--
-- How state and operations correspond: a handler is a function from a connection to its result and the
-- connection after it. A connection holds the tables, the number of statements sent so far and a
-- schedule that says which of them fail; the theorems hold for every schedule, so for every statement,
-- BEGIN and COMMIT that fails. A WHERE clause is a Boolean test on a row, an UPDATE changes the rows that
-- pass it and reports how many there are. The other databases, the worldserver, the mail server, the clock,
-- random bytes and the libraries for hashes, ciphers, encodings and modular powers are arguments. The
-- caller of a handler is the result of its permission check; those of Accounts find it by its session.
-- Texts are compared byte by byte. A log keeps the requests of fulfilment steps to the worldserver, with
-- whether its answer reported success; what the realm did with a request that was answered with an error is
-- not modelled.
--
-- Bounds and fuel: uint32 and uint64 arithmetic is written with its wrap-around; an unsigned column
-- refuses a value out of its range. The depth of a CBOR value counts down from 17. Loops are
-- structural recursion, but for three that count down rounds: splitting a stack takes as many rounds
-- as there are pieces and at least one piece per round, making mails takes as many rounds as there are
-- attachments and at least one per round, and printing a number takes no more rounds than its value.
--
-- Not modelled: the mock mode, HTTP and JSON, registration and login, the passkeys' requests, pages, news, tickets,
-- rankings, the characters' pages, transfers and character services, the import of a catalog, the files
-- of the realm agent, and the migrations of the schema; the editing of vote sites, missions and events by
-- staff; time stamps that only record when a row changed; notifications, metrics and logs. White space and
-- letter case are those of ASCII.
pub mod Accounts
pub mod Agent
pub mod Base
pub mod Db
pub mod Http
pub mod Tables
pub mod Wallet
pub mod Billing
pub mod Delivery
pub mod Shop
pub mod Tests
pub mod Cbor
pub mod Console
pub mod Staff
pub mod Pages
pub mod Passkeys
pub mod Limiter
pub mod Events
pub mod Missions
pub mod Votes
