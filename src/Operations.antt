-- ===== src/Operations.antt =====
-- The whole back end as a transition system: any sequence of the calls that its routers and tasks
-- make, each with any arguments and whatever it returns or raises, from the seeded database
-- (backend/alembic's house accounts).
pub mod Invariants
use xpredict.Prelude.{ℕ, ⊤, ◌≡◌, ◌≢◌, String, Option, List, []}
use xpredict.Prelude.Int.{ℤ}
use xpredict.Money.Errors.{Result}
use xpredict.Database.Rows.{Db, TransferKind, house_promo_id}
use xpredict.Database.Keys.{Key}
use xpredict.Database.Tables.{Keyed}
use xpredict.Session.{begin}
use xpredict.Wallet.{PaymentProvider, create_wallet, recharge, grant_signup_bonus, transfer}
use xpredict.Wallet.Posting.{balance}
use xpredict.Settlement.Port.{MarketResolvePort}
use xpredict.Settlement.Service.{resolve_market, reverse_settlement}
use xpredict.Bets.{StakeSettings, place_bet, sell_position}
use xpredict.Bets.MarketPort.{MarketReadPort}
use xpredict.Events.{resolve_event, void_event, reverse_event}
use xpredict.Polymarket.Winner.{Answer}
use xpredict.Polymarket.Detect.{run_detect_resolutions}
use xpredict.LiveBets.{VerifiedBet, record_placed, record_settled}

pub data Step (s : Db) : Db → Type 1 where
  registers : (user : ℕ) → Step s (begin (create_wallet user) s).1
  recharges :
      (user : ℕ) (amount : ℤ) (text : String) (key : Key) (provider : PaymentProvider)
      → Step s (recharge user amount text key provider s).1
  is_granted_bonus : (user : ℕ) (amount : ℤ) → Step s (grant_signup_bonus user amount s).1
  transfers :
      (kind : TransferKind) (d c : ℕ) (amount : ℤ) (actor : Option ℕ) (key : Option Key)
      (text : Option String)
      → Step s (transfer kind d c amount actor key text s).1
  places_bet :
      (port : MarketReadPort) (settings : StakeSettings) (now user m o : ℕ) (stake : ℤ)
      → Step s (place_bet port settings now user m o stake s).1
  sells : (port : MarketReadPort) (now bet user : ℕ) → Step s (sell_position port now bet user s).1
  resolves :
      (port : MarketResolvePort) (m o : ℕ) (text : String) (actor : Option ℕ)
      → Step s (resolve_market port m o text actor s).1
  reverses :
      (port : MarketResolvePort) (m : ℕ) (text : String) (actor : Option ℕ)
      → Step s (reverse_settlement port m text actor s).1
  resolves_event :
      (now g w : ℕ) (text : String) (actor : Option ℕ)
      → Step s (resolve_event now g w text actor s).1
  voids_event :
      (now g : ℕ) (text : String) (actor : Option ℕ) → Step s (void_event now g text actor s).1
  reverses_event :
      (now g : ℕ) (text : String) (actor : Option ℕ) → Step s (reverse_event now g text actor s).1
  mirrors_placement :
      (settings : StakeSettings) (answer : Result VerifiedBet) (user bet : ℕ) (table : Option ℕ)
      → Step s (record_placed settings answer user bet table s).1
  mirrors_settlement :
      (answer : Result VerifiedBet) (user bet : ℕ) → Step s (record_settled answer user bet s).1
  detects :
      (now grace : ℕ) (fetch : String → Answer) → Step s (run_detect_resolutions now grace fetch s)

pub data Reach (s : Db) : Db → Type 1 where
  here : Reach s s
  next : {t u : Db} → Reach s t → Step t u → Reach s u

-- The seed: accounts with keys of their own, of which only `house_promo` holds money, and no
-- entries.
pub record IsGenesis (s : Db) : Type 0 where
  pub keyed : Keyed s.next_id s.accounts
  pub empty : (x : ℕ) → x ≢ house_promo_id → balance x s ≡ 0
  pub no_entries : s.entries ≡ []
