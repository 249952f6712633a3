-- ===== src/Lib.antt =====
-- The verification library of the nayft backend, an Express server over MongoDB and Redis for crypto
-- news, markets and portfolios. It models the parts whose own logic decides what is stored or
-- answered; each is a module tree here, named for the part, in files by what they define or prove.
--
-- The parts and their files:
-- - Analytics (src/modules/portfolio-intelligence/engines/math/piMath.ts): `normalizeBpsHamilton`,
--   which turns shares into basis points by the largest remainders. The floating-point division is a
--   parameter, `FloatShare`, that is assumed accurate to less than one unit.
-- - Klines (src/services/streams/jobs/klineDownsampler.ts): the nightly steps that merge candles of
--   one minute into five minutes, an hour and a day. Candles and Buckets are the pure merge of a batch,
--   where the sum of two doubles is a parameter, so that nothing said here depends on its rounding;
--   Downsampler the steps over the collection of candles, which is an interface `KlineDb` with the
--   laws that MongoDB documents; a table of rows by time fills it in Klines/Tests.
-- - Risk (src/modules/risk): Regime is `detectMarketRegime` with its candidate in Redis
--   (regime/regimeDetector.ts), Build is the lock, the early returns and the error path of
--   `runRiskBuild` (build/riskBuildCoordinator.ts), whose services are parameters that may throw.
-- - Features (src/core/feature-system): the registry of features, their roll-out to users and the
--   guarded updates. feature.service.ts reads through a cache, whose deletion may fail unnoticed;
--   featureRegistry.ts registers.
-- - Reactions (src/modules/reaction): `toggleReaction` and `removeReaction` over the reactions and the
--   counters of an article. What other requests do between the read and the writes is an argument.
-- - Events (src/core/event-system): the worker that takes the events of clients off a Redis list,
--   validates them and stores them, with three attempts, or puts them on the list of failed entries.
--   Any call may throw, also the one that takes a message, and a write that throws may have been
--   carried out. Persisting is what a message can add, Settling a turn, Reliable what
--   can cost a message, Conserving many turns.
-- - Auth (src/modules/auth/verification): the codes that verify a mail address: their generation, the
--   check of a code, the lockout after wrong ones and the limits on sending them again.
-- - Passwords (packages/nayft-password-policy): the hard rules on a password and the decision from
--   them and the score of zxcvbn, which is a parameter, like the list of common passwords.
-- - Sockets (src/websocket/server.ts): the open sockets, their subscriptions to symbols, addresses and
--   news, and the prices and wallet events they are sent. Hub is the state, Prices and Portfolio are
--   the operations, Messages has one step for every event; a run is a list of events in any order. A
--   symbol is a number that stands for its text, and the state says what pieces the NULs in it make,
--   since the flush of the prices joins and splits the symbols of a socket by NUL.
-- - Wallets (src/services/walletEventAggregator.ts, src/utils/eventSummaryBuilder.ts): the raw events of
--   wallets, which wait in buffers until a timer flushes them into one stored event. Summaries is what
--   is said of a batch, Aggregator the buffers, timers and flushes, with one step for an event that
--   comes, a timer that fires and a flush that ends, in any order. Delivery goes on to the sockets.
-- - Budget (src/services/alchemyRpcBudget.ts): the claims of calls to Alchemy on a counter for each day,
--   over an interface of Redis whose calls may fail.
-- - Notifications (src/modules/notifications/service.ts, src/services/notificationEngine): Listing is
--   the list with its pages and cursors; Unread are the writes of notifications and of their number in
--   Redis. Both are over interfaces of the collection and of Redis.
-- - Common: shared names, Boolean tests, lists, insertion sort and signed integers over the native
--   numbers.
--
-- State is passed explicitly: an operation takes the state and returns it with its answer.
-- MongoDB, Redis, the clock, hashes and the schemas of zod are records of operations; a record
-- `Is...` beside each says what their documentation promises, and the Tests file of the part fills
-- both with concrete functions. Keys of Redis are constructors, so that two templates never give
-- one text. Numbers are natural numbers; a double in a candle is the number of its bits, a time is
-- in milliseconds, and the one 32-bit computation, `simpleHash`, has its wrap-around written out.
--
-- Bounds: no definition takes fuel for a loop of the code but two, and one for a loop of its
-- clients. `run_event_worker` runs a given number of turns of a loop that is endless in the code,
-- and the statements hold for every number. `generate_verification_code` takes the list of the
-- numbers that the random generator draws, and has no code only if every one of them is a repeated
-- digit. `list_pages` is a client that follows the cursors through a given number of pages, where
-- one page more than documents is enough. The attempts to store an event are the three of the
-- code; all other loops go along a list.
--
-- Not modelled: HTTP routes and controllers, the schemas of requests, logging and metrics that nothing
-- reads, waiting times between attempts, errors that Redis or MongoDB throw where the code does not
-- catch them, and the remaining modules of the server: market data and news ingestion, portfolios and
-- their other engines, comments, follows, search, users and rewards. Of the websockets the fan-out of
-- the risk, news and notification channels is left out, and Redis takes every increment; the check of
-- a verified address counts at the moment when it is answered, and the timer of an idle socket may
-- fire at any time, also where the code has cleared it. Of the wallets the cooldown, which is only
-- logged, the explorer links and the queues that a stored event feeds are left out, and of the
-- notifications the preferences, the rules that make drafts, the published messages and the deadlines
-- of the keys in Redis.
pub mod Common
pub mod Analytics
pub mod Klines
pub mod Risk
pub mod Features
pub mod Reactions
pub mod Events
pub mod Auth
pub mod Passwords
pub mod Sockets
pub mod Wallets
pub mod Budget
pub mod Notifications
