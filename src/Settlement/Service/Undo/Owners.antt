-- ===== src/Settlement/Service/Undo/Owners.antt =====
-- A settlement and a reversal (backend/app/settlement/service.py) change nobody's account.
use xpredict.Prelude.{ℕ, String, Option, List}
use xpredict.Database.Rows.{Bet, ResolutionSource}
use xpredict.Session.Rules.{Does, AlwaysDoes, does_rules, always_rules}
use xpredict.Ledger.Soundness.{Does-lock_touched, Does-resolve_market_liability_id, Does-lock_bets}
use xpredict.Ledger.Owners.{
  same_owners, Does-post_specs_owners, Does-write_bet_owners, Does-record_audit_owners, Does-owners,
}
use xpredict.Settlement.Plan.{SettlementPlan}
use xpredict.Settlement.Port.{MarketResolvePort}
use xpredict.Settlement.Service.{
  settle_bets, settle_if_any, record_resolution, settle_pending, resolution, resolve_market,
  reverse_bets, reverse_settlement, reversal, reverse_settled, reverse_if_any,
}
use xpredict.Settlement.Service.Soundness.{
  Does-settle_specs, Does-flip_bets, Does-reverse_specs, Does-reopen_bets,
}

ruleset owner_rules = (
  Does-lock_touched, Does-resolve_market_liability_id, Does-lock_bets, Does-post_specs_owners,
  Does-write_bet_owners, Does-record_audit_owners, does_rules,
)

Does-settle_bets :
    (m : ℕ) (actor : Option ℕ) (plan : SettlementPlan) (bets : List Bet)
    → Does same_owners (settle_bets m actor plan bets)
unfolding settle_bets
Does-settle_bets m actor plan bets =
    search (owner_rules, Does-settle_specs, Does-flip_bets Does-write_bet_owners) depth 9

module _ (port : MarketResolvePort) where
  Does-mark_resolved :
      (m o : ℕ) (source : ResolutionSource) (text : String)
      → Does same_owners (port.mark_resolved m o source text)
  Does-mark_resolved m o source text = Does-owners _ (port.mark_resolved-Untouched m o source text)

  Does-mark_unresolved : (m : ℕ) → Does same_owners (port.mark_unresolved m)
  Does-mark_unresolved m = Does-owners _ (port.mark_unresolved-Untouched m)

  Does-reverse_bets :
      (m : ℕ) (actor : Option ℕ) (bets : List Bet)
      → Does same_owners (reverse_bets port m actor bets)
  unfolding reverse_bets
  Does-reverse_bets m actor bets =
      search
        (
          owner_rules,
          Does-reverse_specs,
          Does-reopen_bets Does-write_bet_owners,
          Does-mark_unresolved,
        )
        depth 9

  pub resolve_market-owners :
      (m o : ℕ) (text : String) (actor : Option ℕ)
      → AlwaysDoes same_owners (resolve_market port m o text actor)
  unfolding resolve_market resolution settle_pending settle_if_any record_resolution
  resolve_market-owners m o text actor =
      search (always_rules, owner_rules, Does-settle_bets, Does-mark_resolved) depth 10

  pub reverse_settlement-owners :
      (m : ℕ) (text : String) (actor : Option ℕ)
      → AlwaysDoes same_owners (reverse_settlement port m text actor)
  unfolding reverse_settlement reversal reverse_settled reverse_if_any
  reverse_settlement-owners m text actor =
      search (always_rules, owner_rules, Does-reverse_bets) depth 10
