-- ===== src/Markets/Criteria.antt =====
-- The guard of `MarketService.update_market` (backend/app/markets/service.py) on the resolution
-- criteria, after a bet that `BetService.place_bet` (backend/app/bets/service.py) took.
use xpredict.Prelude.{ℕ, ◌≡◌, refl, ap, ◌∙◌, String, none, some, []}
use xpredict.Prelude.Int.{ℤ}
use xpredict.Money.Errors.{ok}
use xpredict.Database.Rows.{Db, Market, open_status, Bet}
use xpredict.Session.{pure, raise_if, ◌>>=◌}
use xpredict.Session.Inversion.{always-rel}
use xpredict.Ledger.{record_audit}
use xpredict.Settlement.Port.{market?, write_market}
use xpredict.Bets.{StakeSettings, place_bet}
use xpredict.Bets.MarketPort.{MarketReadPort}
use xpredict.Bets.MarketsKept.{markets_kept, place_bet-markets}
use xpredict.Markets.{MarketUpdate, audit_changes, add_snapshots, update_market}

-- A request for new criteria and nothing else.
abbrev pub only_criteria : String → MarketUpdate
only_criteria text = record {
  resolution_criteria = some text;
  deadline = none;
  category = none;
  min_stake = none;
  max_stake = none;
  odds_yes = none;
}

criteria_edited :
    (now admin : ℕ) (text : String) (m : Market) (s : Db)
    → m.status ≡ open_status
    → m.bet_count ≡ 0
    → (update_market now admin m (only_criteria text) s).0
      ≡ ok (record m { resolution_criteria = text }, [])
unfolding update_market raise_if write_market add_snapshots audit_changes record_audit pure ◌>>=◌
criteria_edited now admin text m s opened no_bets = rw (opened, no_bets) refl

-- Placing a bet writes no market, so an open market whose bet counter was 0 has the counter 0 after
-- the bet, and an admin may still change its resolution criteria.
pub bets_do_not_lock_criteria :
    (port : MarketReadPort) (settings : StakeSettings) (now user o : ℕ) (amount : ℤ) (m : Market)
    (s : Db) (bet : Bet) (u : Db) (later admin : ℕ) (text : String)
    → market? m.id s.markets ≡ some m
    → m.status ≡ open_status
    → m.bet_count ≡ 0
    → place_bet port settings now user m.id o amount s ≡ (ok bet, u)
    → (market? m.id u.markets ≡ some m)
      × ((update_market later admin m (only_criteria text) u).0
          ≡ ok (record m { resolution_criteria = text }, []))
bets_do_not_lock_criteria port settings now user o amount m s bet u later admin text found opened
      no_bets placed =
    let kept =
      always-rel {r = markets_kept} (place_bet-markets port settings now user m.id o amount)
        placed in
    (ap (market? m.id) kept ∙ found, criteria_edited later admin text m u opened no_bets)
