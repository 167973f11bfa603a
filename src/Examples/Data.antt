-- ===== src/Examples/Data.antt =====
-- A database as it is seeded, one market of backend/app/markets, and what a few calls make of it.
use xpredict.Prelude.{ℕ, [], ◌∷◌, none, some}
use xpredict.Prelude.Int.{pos}
use xpredict.Database.Rows
use xpredict.Database.Rows.{
  Db, Account, OwnerType, AccountKind, Market, Outcome, open_status, house_promo_id,
  house_revenue_id, livebets_escrow_id, LiveStatus,
}
use xpredict.Database.Keys.{other}
use xpredict.Session.{begin}
use xpredict.Wallet.{PaymentProvider, create_wallet, recharge}
use xpredict.Bets.{StakeSettings, place_bet}
use xpredict.Bets.MarketPort.{house_read_adapter}
use xpredict.Settlement.Port.{house_adapter}
use xpredict.Settlement.Service.{resolve_market}
use xpredict.Operations.{Reach, here, next, registers, recharges, places_bet, resolves}

abbrev pub system_account : ℕ → AccountKind → ℕ → Account
system_account id kind balance = record {
  id = id;
  owner_type = OwnerType.system;
  owner_id = none;
  kind = kind;
  balance = balance;
  version = 0;
}

abbrev pub outcome : ℕ → ℕ → Outcome
outcome id odds = record { id = id; label = "YES"; initial_odds = odds; current_odds = odds }

-- Market 500 with the outcomes 501 at 0.25 and 502 at 0.
abbrev pub rain_market : Market
rain_market = record {
  id = 500;
  question = "Rain?";
  slug = "rain";
  resolution_criteria = "the gauge";
  category = none;
  source = Rows.house;
  source_market_id = none;
  condition_id = none;
  polymarket_slug = none;
  volume = 0;
  volume_24hr = 0;
  status = open_status;
  deadline = 90;
  bet_count = 0;
  closed_at = none;
  uma_resolved_at = none;
  group_id = none;
  group_item_title = none;
  outcomes =
      record { id = 501; label = "YES"; initial_odds = 250000; current_odds = 250000 }
      ∷ record { id = 502; label = "NO"; initial_odds = 0; current_odds = 0 }
      ∷ [];
  min_stake = none;
  max_stake = none;
  winning_outcome_id = none;
  resolution_source = none;
  resolution_justification = none;
  resolved_at = none;
}

unfoldable pub seeded : Db
seeded = record {
  accounts =
      system_account house_promo_id AccountKind.house_promo 10000000000
      ∷ system_account house_revenue_id AccountKind.house_revenue 0
      ∷ system_account livebets_escrow_id AccountKind.livebets_escrow 0
      ∷ [];
  transfers = [];
  entries = [];
  bets = [];
  groups = [];
  markets = rain_market ∷ [];
  odds_snapshots = [];
  livebets_bets = [];
  audit_log = [];
  next_id = 1000;
  locks = [];
}

abbrev pub limits : StakeSettings
limits = record { bet_min_stake = 10000; bet_max_stake = 1000000000 }

-- Player 7 registers, recharges 100.0000 and bets 20.0000 on outcome 501 at 0.25.
abbrev pub registered : Db
registered = (begin (create_wallet 7) seeded).1

abbrev pub recharged : Db
recharged = (recharge 7 (pos 1000000) "top-up" (other 1) PaymentProvider.house registered).1

abbrev pub has_bet : Db
has_bet = (place_bet house_read_adapter limits 10 7 500 501 (pos 200000) recharged).1

abbrev pub settled : Db
settled = (resolve_market (house_adapter 20) 500 501 "it rained" (some 9) has_bet).1

abbrev pub to_recharged : Reach seeded recharged
to_recharged =
    next (next here (registers 7))
      (recharges 7 (pos 1000000) "top-up" (other 1) PaymentProvider.house)

abbrev pub to_settled : Reach seeded settled
to_settled =
    next (next to_recharged (places_bet house_read_adapter limits 10 7 500 501 (pos 200000)))
      (resolves (house_adapter 20) 500 501 "it rained" (some 9))
