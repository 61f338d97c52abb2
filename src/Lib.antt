-- ===== src/Lib.antt =====
-- Verification of the core of spacecraft-corporation, a Discord bot for corporations of a space
-- game: contracts with reservations and deliveries, the payout of a completed contract, supply
-- requests of members, registered bases, the transactional outbox that carries out what contracts
-- and requests enqueue, the access gate and the settings with their caches, the selection of
-- features, and the numbers as they are printed.
--
-- How the parts interact. A repository method of internal/features/contracts runs in one database
-- transaction: it locks the contract, tests, writes rows and enqueues requests in the outbox. The
-- worker of internal/outbox later runs the newest request of each (kind, contract) group. When the
-- last unit is delivered, `finishIfComplete` closes the contract and requests its payout, which
-- `computePayout` splits over the deliverers; the payouts are saved, posted and marked as paid. A
-- supply request of internal/features/supply has the same life without deadline and payout; its
-- reservations are a table with the columns of the contracts' one, so the two share the books of
-- Reservations. The gate of internal/features/permissions and the store of internal/settings read
-- one table each through an LRU cache, whose library is the parameter `Lru` of Cache.
--
-- The files.
--   Prelude             names, Boolean tests, tables as lists of rows (Prelude/Rows, the SQL
--                       statements; Prelude/Order, ORDER BY and LIMIT; Prelude/Counts, count(*);
--                       Prelude/Every, what holds of each row), transactions with rollback (Prelude/Tx)
--   Reservations        a row of contract_reservations or supply_reservations; its children are the
--                       books of items and reservations, and the writes that keep them
--   Contracts/Model     tables and sentinel errors: internal/features/contracts/contracts.go, and
--                       the constraints of internal/migrator/migrations
--   Contracts/Guards    lockOpenContract, lockOpenContractByID, lockOpenContractByItem, lockItem,
--                       touch, enqueueRefresh, enqueueClose, enqueuePayout, enqueueNotify
--   Contracts/Create    Create
--   Contracts/Items     AddItemByID, LinkItemGDID, RemoveItemByID, UpdateItem
--   Contracts/Members   Participate, Deliver, Release, DeliverByItem, SetReservationByItem,
--                       RemoveReservation, finishIfComplete
--   Contracts/Edits     UpdateDetails, SetDeadline, UpdateRewards, SetDeliveryLocation
--   Contracts/Lifecycle CancelByID, MarkExpired, MarkNotified, SetThreadID, RecreatePost, Republish
--                       (all of these in internal/features/contracts/postgres.go)
--   Contracts/PayoutTable  SavePayouts, MarkPayoutPosted, RequestPayoutRepost, MarkPayoutsPaid of
--                       internal/features/contracts/postgres_payouts.go
--   Contracts/History   a request for every method that changes state, and histories of them
--   Contracts/Sound     the books of items and reservations, and each method on them
--   Contracts/Consistent  contracts and their outbox requests, and each method on them
--   Contracts/Terminal  contracts that have ended, and each method on them
--   Contracts/Accounts  what one call changes in the sums of an item
--   Contracts/Once      guarded updates that run twice
--   Contracts/Sweep     DueContracts, NotifyDue, and `sweep` of internal/features/contracts/sweeper.go
--   Durations           parseDHMMinutes, atoiField, dhmStrings, splitDHM of
--                       internal/features/contracts/contracts.go; strconv and strings are parameters
--   Payout              computePayout of internal/features/contracts/payout.go; the decimal library
--                       is the parameter of Payout/Arithmetic, with the laws that it relies on
--   Roman               Numeral of internal/roman/roman.go
--   Numfmt              internal/numfmt/numfmt.go, strings as lists of bytes; Truncate and
--                       StringFixed of the decimal library are parameters
--   Outbox              internal/outbox: postgres.go and worker.go, a step for each tick; Outbox/Left,
--                       Due, Executed and Tries count the executions of a task
--   Supply/Model        tables and sentinel errors: internal/features/supply/supply.go
--   Supply/Guards       checkOpen, the locking reads, touch, enqueueRefresh, enqueueClose
--   Supply/Edits        Create, mutateOpen and its users, Cancel, SetThreadID, RecreatePost,
--                       Republish
--   Supply/Items        AddItem, UpdateItemQty, RemoveItem
--   Supply/Members      Reserve, Deliver, Release, finishIfComplete
--   Supply/Reads        loadItems, the Progress loads, MemberOutstanding, ListByOwner (all of these
--                       in internal/features/supply/postgres.go)
--   Supply/History      a call for every method that changes state, and histories of them
--   Supply/Invariant    what a property of the requests and the outbox needs to hold after every
--                       history; Supply/Limit, Ended and Announced are three such properties
--   Supply/Balanced     the books of a request; Supply/Complete, Forged, Totals and Paging are about
--                       Deliver, the ownership, loadItems and ListByOwner
--   Feature             internal/feature/feature.go
--   Cache               the get, add and remove of the LRU library as the two stores use them
--   Permissions         cache.go, permissions.go and postgres.go of internal/features/permissions
--   Settings            cache.go, settings.go and postgres.go of internal/settings; the translator's
--                       defaults and tests are parameters
--   Bases               postgres.go and bases.go of internal/features/bases; Bases/Listing has List
--                       and the owner's lists, Bases/Shown, Filtered and Exact are about List, with
--                       ILIKE and the order of names as parameters; Bases/Race takes
--                       Register apart into the check and the commit
--
-- The model. An identifier is a number, a timestamp a number of seconds, and a NUMERIC(_, 2) column
-- the number of its hundredths; quantities are natural numbers, which the handlers' parsers ensure.
-- Ids of uuidv7 and readings of the clock are arguments. `lower` is PostgreSQL's lower and `fold`
-- is strings.ToLower after strings.TrimSpace: both are parameters of the methods that use them. A
-- violated primary key, unique index, check or column range is the error `constraint`. A method that
-- returns an error changes nothing, since its transaction is rolled back. The row locks make a
-- method one step, so concurrent calls are one of their orders. Every loop is structural: on the items of a request,
-- the entries of a list, or the rounds that are left of `backoff`; only the inner loop of `Numeral`
-- has fuel, the number itself, since each round takes at least one off, and `visit` of resolve, whose
-- fuel of one more than the catalog's length bounds its depth: each call below marks a feature of
-- the catalog that was not marked. The worker's handlers are a parameter that returns an outcome, and
-- a panic is one of the outcomes. Create of a supply request is one step by its advisory lock. Calls
-- of the cached stores come one after another; whether the database answers is an argument of each.
--
-- Not modelled: failing statements and connections (but for the cached stores), the reading methods
-- of the contracts, the tickers of the sweeper and the worker, the tables of servers and contract
-- templates, the interleaving of a cache load with a write, Discord and its rendering.
pub mod Prelude
pub mod Reservations
pub mod Contracts
pub mod Supply
pub mod Payout
pub mod Outbox
pub mod Durations
pub mod Numfmt
pub mod Roman
pub mod Feature
pub mod Cache
pub mod Permissions
pub mod Settings
pub mod Bases
