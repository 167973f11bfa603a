-- ===== src/Examples.antt =====
-- Runs on a small database, and the theorems applied to them: the seeded accounts of
-- backend/alembic and backend/app/wallet, one house market with two outcomes, and one player.
pub mod Data
pub mod Runs
mod Money
mod Ledger
mod Wallet
mod Bets
mod Settlement
mod Markets
mod History
mod Polymarket
mod Poll
mod LiveBets
mod Events
mod House
