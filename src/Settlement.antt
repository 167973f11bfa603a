-- ===== src/Settlement.antt =====
-- backend/app/settlement: the pure plan, the settlement and reversal of a market, and the port to
-- the market's own row.
pub mod Plan
pub mod Port
pub mod Service
