-- ===== src/Bets/MarketPort.antt =====
-- backend/app/bets/market_port.py and adapters.py: the snapshot of a market that betting reads.
use xpredict.Prelude.{
  ◌≡◌, sym, ap, ◌∙◌, ℕ, String, Bool, true, false, ◌&&◌, Option, none, some, List, [], ◌∷◌, map,
  ltb, ◌==◌, if◌then◌else◌,
}
use xpredict.Database.Rows.{Db, Market, MarketStatus, open_status, Outcome}
use xpredict.Settlement.Port.{market?}

pub record OutcomeView : Type 0 where
  pub id : ℕ
  pub label : String
  pub price : ℕ

pub record MarketView : Type 0 where
  pub id : ℕ
  pub status : MarketStatus
  pub deadline : ℕ
  pub outcomes : List OutcomeView
  pub min_stake : Option ℕ
  pub max_stake : Option ℕ
  pub question : Option String
  pub slug : Option String

abbrev pub is_open_status : MarketStatus → Bool
is_open_status open_status = true
is_open_status _ = false

-- `MarketView.is_open`
abbrev pub is_open : MarketView → ℕ → Bool
is_open view now = is_open_status view.status && ltb now view.deadline

-- `MarketView.outcome`
unfoldable pub outcome? : ℕ → List OutcomeView → Option OutcomeView
outcome? x [] = none
outcome? x (o ∷ outcomes) = if o.id == x then some o else outcome? x outcomes

-- `MarketReadPort.get_market`, on a session of its own: a read of the committed rows.
abbrev pub MarketReadPort : Type 0
MarketReadPort = Db → ℕ → Option MarketView

outcome_view : Outcome → OutcomeView
outcome_view o = record { id = o.id; label = o.label; price = o.current_odds }

market_view : Market → MarketView
unfolding outcome_view
market_view m = record {
  id = m.id;
  status = m.status;
  deadline = m.deadline;
  outcomes = map outcome_view m.outcomes;
  min_stake = m.min_stake;
  max_stake = m.max_stake;
  question = some m.question;
  slug = some m.slug;
}

view_or_none : Option Market → Option MarketView
unfolding market_view
view_or_none none = none
view_or_none (some m) = some (market_view m)

-- `HouseMarketReadAdapter.get_market`
unfoldable pub house_read_adapter : MarketReadPort
unfolding view_or_none market?
house_read_adapter s market_id = view_or_none (market? market_id s.markets)

house_read_adapter-view :
    (s : Db) (x : ℕ) (m : Market) (view : MarketView)
    → market? x s.markets ≡ some m
    → house_read_adapter s x ≡ some view
    → market_view m ≡ view
unfolding house_read_adapter market_view
house_read_adapter-view s x m view found h =
    let same : view_or_none (some m) ≡ some view = ap view_or_none (sym found) ∙ h in cc same

-- Whether the market that the adapter shows is open for bets.
pub house_read_adapter-is_open :
    (s : Db) (x now : ℕ) (m : Market) (view : MarketView)
    → market? x s.markets ≡ some m
    → house_read_adapter s x ≡ some view
    → is_open view now ≡ (is_open_status m.status && ltb now m.deadline)
unfolding market_view
house_read_adapter-is_open s x now m view found h =
    ap (λ v. is_open v now) (sym (house_read_adapter-view s x m view found h))

pub house_read_adapter-found :
    (s : Db) (x : ℕ) (m : Market)
    → market? x s.markets ≡ some m
    → (view : MarketView) × (house_read_adapter s x ≡ some view)
unfolding house_read_adapter
house_read_adapter-found s x m found = (market_view m, ap view_or_none found)
