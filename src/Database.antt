-- ===== src/Database.antt =====
-- The database of backend/app: its rows, the idempotency keys of its transfers, and its queries.
pub mod Keys
pub mod Rows
pub mod Tables
