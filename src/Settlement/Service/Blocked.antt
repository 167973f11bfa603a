-- ===== src/Settlement/Service/Blocked.antt =====
-- When `SettlementService.resolve_market` (backend/app/settlement/service.py) cannot settle a market.
use xpredict.Prelude.{
  ℕ, ◌≡◌, refl, ◌∙◌, String, false, Option, List, [], ◌∷◌, ◌++◌, map, where_rows, if◌then◌else◌,
}
use mathlib.Core.Path.{subst}
use xpredict.Money.Errors.{ok, err, value_error}
use xpredict.Database.Rows.{Db, Bet, RowLock, bet_row}
use xpredict.Session.{pure, gets, lift, lock_row, ◌>>=◌}
use xpredict.Session.Inversion.{>>=-runs, >>=-raises}
use xpredict.Wallet.Replay.{begin-raises}
use xpredict.Ledger.{lock_bets}
use xpredict.Settlement.Plan.{SettlementPlan, build_settlement_plan}
use xpredict.Settlement.Plan.Correct.{all_payable, build_settlement_plan_total}
use xpredict.Settlement.Port.{MarketResolvePort}
use xpredict.Settlement.Service.{to_settle, pending_in, settle_pending, resolution, resolve_market}

pub lock_bets-runs :
    (bets : List Bet) (s : Db)
    → (l : List RowLock) × (lock_bets bets s ≡ (ok tt, record s { locks = l }))
unfolding lock_bets lock_row pure ◌>>=◌
lock_bets-runs [] s = (s.locks, refl)
lock_bets-runs (b ∷ bets) s =
    lock_bets-runs bets (record s { locks = s.locks ++ bet_row b.id ∷ [] })

module _ (port : MarketResolvePort) (m w : ℕ) (text : String) (actor : Option ℕ) where
  settle_pending-blocked :
      (bets : List Bet) (s : Db)
      → build_settlement_plan (map to_settle bets) w ≡ err value_error
      → (l : List RowLock) × (settle_pending port m w text actor bets s
          ≡ (err value_error, record s { locks = l }))
  unfolding settle_pending lift
  settle_pending-blocked bets s unpayable =
      let (l, locked) = lock_bets-runs bets s in
      (
        l,
        >>=-runs (lock_bets bets) _ s locked
            ∙ >>=-raises (lift (build_settlement_plan (map to_settle bets) w)) _
                (record s { locks = l }) (λ i. (unpayable i, record s { locks = l })),
      )

  -- One pending bet on the winning outcome whose locked price is 0, or whose stake is, blocks the
  -- settlement of the whole market on that outcome: the call raises ValueError and writes nothing,
  -- so no other bet of the market is paid either.
  pub resolve_market_blocked :
      (s : Db)
      → all_payable w (map to_settle (where_rows (pending_in m) s.bets)) ≡ false
      → resolve_market port m w text actor s ≡ (err value_error, s)
  unfolding resolve_market resolution gets ◌>>=◌
  resolve_market_blocked s blocked =
      let bets = where_rows (pending_in m) s.bets in
      let unpayable : build_settlement_plan (map to_settle bets) w ≡ err value_error =
        subst
          (λ b.
            if b
            then ((plan : SettlementPlan) × (build_settlement_plan (map to_settle bets) w
                  ≡ ok plan))
            else (build_settlement_plan (map to_settle bets) w ≡ err value_error))
          blocked (build_settlement_plan_total (map to_settle bets) w) in
      begin-raises (resolution port m w text actor) s
        (settle_pending-blocked bets (record s { locks = [] }) unpayable).1
