-- ===== src/Lib.antt =====
-- xpredict: a play-money prediction market. Players place bets on the outcomes of markets at locked
-- odds; every movement of money is one double-entry transfer between accounts. This library models
-- the back end's money path (backend/app) and proves what it guarantees.
--
-- The parts and how they interact, with the files that model them:
--   Money: backend/app/settlement/payout.py, the payout, P&L and cash-out arithmetic.
--   Database: the rows of the tables, the idempotency keys, and queries by primary key
--     (backend/app/wallet/models.py, bets/models.py, markets/models.py, settlement/constants.py).
--   Session: an AsyncSession as state and exceptions: `begin` is `async with session.begin()` and
--     rolls back when its body raises, `on_unique_violation` is the handler of SQLSTATE 23505.
--     Session/Rules gives one rule for each way to build an action, for any preorder on states.
--   Wallet: WalletService (backend/app/wallet/service.py). `_post_transfer` is the sole writer of
--     entries and balances; every other service moves money through it.
--   Reconcile: the nightly task backend/app/wallet/reconcile.py.
--   Ledger: what the services that move money share: transfer specs, locks in canonical order.
--   Settlement: the pure plan (backend/app/settlement/plan.py), the port that marks the market's row
--     (market_port.py, adapters.py), and SettlementService (service.py): resolve and reverse.
--   Bets: BetService (backend/app/bets/service.py): placement and cash-out (Placement, Rejection,
--     Sale); MarketPort is the read port and its adapter, Portfolio is backend/app/bets/portfolio.py.
--   Events: resolving, voiding and reversing an event of several markets, one settlement for each
--     child (backend/app/settlement/event_service.py); House makes an event, House/Edit edits it.
--   LiveBets: the mirror of an external service's bets (backend/app/integrations/livebets).
--   Markets: MarketService (backend/app/markets/service.py): Creation, the edits and the closing of
--     a market; Criteria and Closing put them together with betting; Router is
--     markets/router.py, History the chart of a market.
--   Polymarket: the mirror of an external exchange (backend/app/integrations/polymarket). Gamma is
--     what its service says of a market, Winner the outcome that won, Upsert and Sync the writes of
--     the mirror, Poll the tasks that keep it up to date, Detect the task that settles it, Locks the
--     Redis locks of the tasks.
--   Operations: the operations that move money as one transition system, with what holds after any
--     sequence of calls.
--   Examples: runs on a small database, and the theorems applied to them.
--
-- Conventions and bounds. Money is a whole number of ticks of 0.0001 (NUMERIC(18, 4)), a price a
-- whole number of millionths (NUMERIC(8, 6)). Quotients are exact rationals that are rounded once;
-- Decimal's context of 28 digits is not modelled. A balance past NUMERIC(18, 4) raises, as in
-- PostgreSQL. A UUID is the number that its digits spell, so that sorting by text is sorting by
-- number, and `uuid4` draws fresh numbers in sequence. There is one currency. No loop needs fuel: all
-- recurse on lists of rows. A session's unit of work runs without interference, since it
-- holds the row locks that it takes; `locks` records them in order. `datetime.now` is an argument of
-- each operation, one value for the whole call. A market read by a port is a function of the
-- committed rows. What the live-bets service and Gamma answer is an argument, and so are Redis, with
-- what its documentation says, python-slugify, and Python's Decimal on a text. Times are seconds.
--
-- Not modelled: most routers, schemas and JSON, authentication, e-mail, admin reads and exports, the
-- catalogue and the lists of markets, websockets, Celery scheduling, migrations, seeds and scripts.
pub mod Prelude
pub mod Money
pub mod Database
pub mod Session
pub mod Wallet
pub mod Ledger
pub mod Reconcile
pub mod Settlement
pub mod Bets
pub mod Events
pub mod LiveBets
pub mod Markets
pub mod Polymarket
pub mod Operations
pub mod Examples
