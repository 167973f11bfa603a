-- ===== src/Ledger/Soundness.antt =====
-- The shared steps keep to the double entry, and those that are not about the ledger leave it.
use xpredict.Prelude.{ℕ, arith, refl, Option, List, [], ◌∷◌, some}
use xpredict.Database.Rows.{Bet, AuditEvent, bet_leg, bet_row}
use xpredict.Database.Keys.{Key, Leg}
use xpredict.Session.{lock_row}
use xpredict.Session.Rules.{Preorder, Does, Does-pure, Does-bind, Does-lock_row, does_rules}
use xpredict.Wallet.Flow.{sound, Sound-same, Does-post_transfer}
use xpredict.Wallet.Soundness.{ledger_rules}
use xpredict.Ledger.{
  TransferSpec, lock_touched, post_specs, resolve_market_liability_id, write_bet, lock_bets,
  record_audit,
}

module _ {r : Preorder} where
  pub Does-lock_touched : (specs : List TransferSpec) → Does r (lock_touched specs)
  unfolding lock_touched
  Does-lock_touched specs = search does_rules

  pub Does-resolve_market_liability_id : (m : ℕ) → Does r (resolve_market_liability_id m)
  unfolding resolve_market_liability_id
  Does-resolve_market_liability_id m = search does_rules

  pub Does-lock_bets : (bets : List Bet) → Does r (lock_bets bets)
  unfolding lock_bets
  Does-lock_bets [] = Does-pure tt
  Does-lock_bets (b ∷ bets) =
      Does-bind (lock_row (bet_row b.id)) (λ _. lock_bets bets) (Does-lock_row (bet_row b.id))
        (λ _. Does-lock_bets bets)

pub Does-post_specs :
    (key : ℕ → Leg → Key) (actor : Option ℕ) (m : ℕ) (specs : List TransferSpec)
    → Does sound (post_specs key actor m specs)
unfolding post_specs
Does-post_specs key actor m [] = Does-pure tt
Does-post_specs key actor m (p ∷ specs) =
    Does-bind _ (λ _. post_specs key actor m specs)
      (Does-post_transfer p.kind (some (key p.bet_id p.leg)) actor p.debit_id p.credit_id p.amount
        (bet_leg p.bet_id m))
      (λ _. Does-post_specs key actor m specs)

pub Does-write_bet : (x : ℕ) (f : Bet → Bet) → Does sound (write_bet x f)
unfolding write_bet
Does-write_bet x f = record { at = λ s. Sound-same s _ refl refl refl (omega arith) }

pub Does-record_audit :
    (actor : Option ℕ) (event : AuditEvent) → Does sound (record_audit actor event)
unfolding record_audit
Does-record_audit actor event = record { at = λ s. Sound-same s _ refl refl refl (omega arith) }

pub ruleset service_rules = (
  ledger_rules, Does-lock_touched, Does-resolve_market_liability_id, Does-lock_bets,
  Does-post_specs, Does-write_bet, Does-record_audit,
)
