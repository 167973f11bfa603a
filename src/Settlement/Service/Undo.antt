-- ===== src/Settlement/Service/Undo.antt =====
-- A settlement and its reversal together (backend/app/settlement/service.py).
pub mod Owners
pub mod Amounts
pub mod Reopened
pub mod RoundTrip
pub mod Keys
pub mod Again
pub mod Taken
pub mod Repeat
