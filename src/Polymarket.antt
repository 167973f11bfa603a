-- ===== src/Polymarket.antt =====
-- backend/app/integrations/polymarket: the mirror of the external exchange Polymarket. Gamma is its
-- HTTP service, whose answers are arguments of the operations.
pub mod Gamma
pub mod Winner
pub mod Detect
pub mod Upsert
pub mod Sync
pub mod Locks
pub mod Poll
