-- ===== src/Events/Reversal.antt =====
-- What `reverse_event` (backend/app/settlement/event_service.py) leaves of an event whose children
-- have no settled bets, and that a mirrored event is read-only.
use xpredict.Prelude.{ℕ, ◌≡◌, refl, String, Option, List, [], ◌∷◌, ◌++◌, where_rows}
use xpredict.Money.Errors.{ok}
use xpredict.Database.Rows.{Db, AuditRow, settlement_reversed}
use xpredict.Session.{pure, gets, begin, ◌>>=◌}
use xpredict.Ledger.{record_audit}
use xpredict.Settlement.Port.{MarketResolvePort}
use xpredict.Settlement.Service.{settled_in, reverse_settlement}

-- Without settled bets a reversal writes nothing but the audit row: not even the market's row.
pub reverse_settlement_betless :
    (port : MarketResolvePort) (m : ℕ) (text : String) (actor : Option ℕ) (s : Db)
    → where_rows (settled_in m) s.bets ≡ []
    → (log : List AuditRow) × (reverse_settlement port m text actor s
        ≡ (ok 0, record s { audit_log = log; locks = [] }))
unfolding reverse_settlement begin gets pure record_audit ◌>>=◌
reverse_settlement_betless port m text actor s h =
    (s.audit_log ++ record { actor = actor; event = settlement_reversed m text 0 } ∷ [], rw h refl)
