-- ===== src/Settlement/Service/Soundness.antt =====
-- A settlement and its reversal (backend/app/settlement/service.py) keep to the double entry.
use xpredict.Prelude.{ℕ, String, Option, List, [], ◌∷◌, ◌++◌}
use xpredict.Database.Rows.{Bet, BetStatus, settled_won, pending, ResolutionSource}
use xpredict.Session.{Action, pure, ◌>>=◌}
use xpredict.Ledger.{TransferSpec, write_bet, with_status}
use xpredict.Session.Rules.{
  Preorder, Does, AlwaysDoes, does_rules, always_rules, Does-pure, Does-bind,
}
use xpredict.Wallet.Flow.{sound, Sound-same}
use xpredict.Wallet.Soundness.{Does-resolve_user_wallet_id}
use xpredict.Ledger.Soundness.{service_rules, Does-write_bet}
use xpredict.Settlement.Plan.{SettledBet, SettlementPlan}
use xpredict.Session.Untouched.{untouched, Does-of_untouched}
use xpredict.Settlement.Port.{MarketResolvePort}
use xpredict.Settlement.Service.{
  winner_legs, bet_specs, settle_specs, flip_bets, settle_bets, settle_if_any, record_resolution,
  settle_pending, resolution, resolve_market, bet_reversal, reverse_specs, reopen_bets,
  reverse_bets, reverse_settlement, reversal, reverse_settled, reverse_if_any,
}

-- What leaves the ledger alone keeps to the double entry.
pub Does-sound_of_untouched : {A : Type 0} (m : Action A) → Does untouched m → Does sound m
Does-sound_of_untouched m =
    Does-of_untouched m λ s u h. Sound-same s u h.accounts h.entries h.transfers h.ids_grow

module _ (port : MarketResolvePort) where
  pub Does-mark_resolved :
      (m o : ℕ) (source : ResolutionSource) (text : String)
      → Does sound (port.mark_resolved m o source text)
  Does-mark_resolved m o source text =
      Does-sound_of_untouched _ (port.mark_resolved-Untouched m o source text)

  pub Does-mark_unresolved : (m : ℕ) → Does sound (port.mark_unresolved m)
  Does-mark_unresolved m = Does-sound_of_untouched _ (port.mark_unresolved-Untouched m)

module _ {r : Preorder} where
  -- The legs of one bet, and then those of the rest.
  Does-collect :
      (m n : Action (List TransferSpec))
      → Does r m
      → Does r n
      → Does r (do legs ← m; rest ← n; pure (legs ++ rest))
  Does-collect m n dm dn =
      Does-bind m (λ legs. n >>= λ rest. pure (legs ++ rest)) dm
        (λ legs. Does-bind n (λ rest. pure (legs ++ rest)) dn (λ rest. Does-pure (legs ++ rest)))

  pub Does-bet_specs : (l : ℕ) (sb : SettledBet) (b : Bet) → Does r (bet_specs l sb b)
  unfolding bet_specs winner_legs
  Does-bet_specs l sb b = search (does_rules, Does-resolve_user_wallet_id)

  pub Does-settle_specs :
      (l : ℕ) (sbs : List SettledBet) (bets : List Bet) → Does r (settle_specs l sbs bets)
  unfolding settle_specs
  Does-settle_specs l [] bets = Does-pure []
  Does-settle_specs l (sb ∷ sbs) [] = Does-pure []
  Does-settle_specs l (sb ∷ sbs) (b ∷ bets) =
      Does-collect (bet_specs l sb b) (settle_specs l sbs bets) (Does-bet_specs l sb b)
        (Does-settle_specs l sbs bets)

  pub Does-bet_reversal : (st : BetStatus) (l : ℕ) (b : Bet) → Does r (bet_reversal st l b)
  unfolding bet_reversal
  Does-bet_reversal settled_won l b = search (does_rules, Does-resolve_user_wallet_id)
  Does-bet_reversal _ l b = Does-pure _

  pub Does-reverse_specs : (l : ℕ) (bets : List Bet) → Does r (reverse_specs l bets)
  unfolding reverse_specs
  Does-reverse_specs l [] = Does-pure []
  Does-reverse_specs l (b ∷ bets) =
      Does-collect (bet_reversal b.status l b) (reverse_specs l bets)
        (Does-bet_reversal b.status l b) (Does-reverse_specs l bets)

  -- The writes of the bets, for a preorder to which a write of one bet keeps.
  module _ (write : (x : ℕ) (f : Bet → Bet) → Does r (write_bet x f)) where
    pub Does-flip_bets : (sbs : List SettledBet) (bets : List Bet) → Does r (flip_bets sbs bets)
    unfolding flip_bets
    Does-flip_bets [] bets = Does-pure tt
    Does-flip_bets (sb ∷ sbs) [] = Does-pure tt
    Does-flip_bets (sb ∷ sbs) (b ∷ bets) =
        Does-bind (write_bet b.id (with_status sb.status)) (λ _. flip_bets sbs bets)
          (write b.id (with_status sb.status)) (λ _. Does-flip_bets sbs bets)

    pub Does-reopen_bets : (bets : List Bet) → Does r (reopen_bets bets)
    unfolding reopen_bets
    Does-reopen_bets [] = Does-pure tt
    Does-reopen_bets (b ∷ bets) =
        Does-bind (write_bet b.id (with_status pending)) (λ _. reopen_bets bets)
          (write b.id (with_status pending)) (λ _. Does-reopen_bets bets)

Does-settle_bets :
    (m : ℕ) (actor : Option ℕ) (plan : SettlementPlan) (bets : List Bet)
    → Does sound (settle_bets m actor plan bets)
unfolding settle_bets
Does-settle_bets m actor plan bets =
    search (service_rules, Does-settle_specs, Does-flip_bets Does-write_bet) depth 9

Does-reverse_bets :
    (port : MarketResolvePort) (m : ℕ) (actor : Option ℕ) (bets : List Bet)
    → Does sound (reverse_bets port m actor bets)
unfolding reverse_bets
Does-reverse_bets port m actor bets =
    search
      (service_rules, Does-reverse_specs, Does-reopen_bets Does-write_bet, Does-mark_unresolved)
      depth 9

pub Does-record_resolution :
    (port : MarketResolvePort) (m o : ℕ) (text : String) (actor : Option ℕ) (plan : SettlementPlan)
    → Does sound (record_resolution port m o text actor plan)
unfolding record_resolution
Does-record_resolution port m o text actor plan = search (service_rules, Does-mark_resolved) depth 9

-- Whatever a settlement returns or raises, the ledger keeps to the double entry.
pub resolve_market-Sound :
    (port : MarketResolvePort) (m o : ℕ) (text : String) (actor : Option ℕ)
    → AlwaysDoes sound (resolve_market port m o text actor)
unfolding resolve_market resolution settle_pending settle_if_any record_resolution
resolve_market-Sound port m o text actor =
    search (always_rules, service_rules, Does-settle_bets, Does-mark_resolved) depth 10

-- Whatever a reversal returns or raises, the ledger keeps to the double entry.
pub reverse_settlement-Sound :
    (port : MarketResolvePort) (m : ℕ) (text : String) (actor : Option ℕ)
    → AlwaysDoes sound (reverse_settlement port m text actor)
unfolding reverse_settlement reversal reverse_settled reverse_if_any
reverse_settlement-Sound port m text actor =
    search (always_rules, service_rules, Does-reverse_bets) depth 10
