-- ===== src/Ledger/Queries.antt =====
-- What `_resolve_market_liability_id` of backend/app/settlement/service.py and
-- backend/app/bets/service.py finds.
use xpredict.Prelude.{ℕ, ◌≡◌, refl, [], ◌∷◌, where_rows}
use xpredict.Money.Errors.{ok}
use xpredict.Database.Rows.{Db, Account}
use xpredict.Session.{Action, gets, ◌>>=◌}
use xpredict.Wallet.Queries.{only_row}
use xpredict.Ledger.{is_liability_of, resolve_market_liability_id}

-- The liability account of market `m`: the only one of its kind for it.
abbrev pub HasLiability : ℕ → Db → ℕ → Type 0
HasLiability m s l =
    (a : Account) × (where_rows (is_liability_of m) s.accounts ≡ a ∷ []) × (a.id ≡ l)

pub resolve_market_liability_id-then :
    {B : Type 0} {s : Db} {b : B} {u : Db} (m : ℕ) (k : ℕ → Action B)
    → (resolve_market_liability_id m >>= k) s ≡ (ok b, u)
    → (l : ℕ) × HasLiability m s l × (k l s ≡ (ok b, u))
unfolding resolve_market_liability_id gets ◌>>=◌
resolve_market_liability_id-then {s = s} m k h =
    let (a, found, h') = only_row (λ a. a.id) (where_rows (is_liability_of m) s.accounts) k h in
    (a.id, (a, found, refl), h')
