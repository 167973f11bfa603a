-- ===== src/LiveBets/Soundness.antt =====
-- Mirroring a live bet (backend/app/integrations/livebets/service.py) keeps to the double entry.
use xpredict.Prelude.{ℕ, arith, refl, Bool, true, false, Option, none, some, List, [], ◌∷◌, ◌++◌}
use xpredict.Prelude.Int.{ℤ}
use xpredict.Money.Errors.{Result, ok}
use xpredict.Database.Rows.{Db, LiveBetsBet, LiveStatus, livebets}
use xpredict.Database.Keys
use xpredict.Session.Rules.{Preorder, Does, AlwaysDoes, OnOk, Does-pure, Does-bind, always_rules}
use xpredict.Wallet.Flow.{sound, Sound, Sound-same, Sound-reflexive, Does-post_transfer}
use xpredict.Ledger.Soundness.{service_rules}
use xpredict.Bets.{StakeSettings}
use xpredict.LiveBets.{
  VerifiedBet, mirror?, insert_mirror, debit_stake, record_placed, LiveSpec, live_specs,
  post_live_specs, write_mirror_status, settle_mirror, settle_once, settle_placed, settle_verified,
  record_settled,
}

Does-insert_mirror : (row : LiveBetsBet) → Does sound (insert_mirror row)
unfolding insert_mirror
Does-insert_mirror row = record { at = λ s. go s (mirror? row.bet_id s.livebets_bets) }
  where
    go :
        (s : Db) (o : Option LiveBetsBet)
        → OnOk Sound s (elim o as (λ _. Result Bool × Db) [
          | some old ↦ (ok false, s)
          | none ↦ (ok true, record s { livebets_bets = s.livebets_bets ++ row ∷ [] })
        ])
    go s none = Sound-same s _ refl refl refl (omega arith)
    go s (some old) = Sound-reflexive s

Does-debit_stake :
    (user bet : ℕ) (table : Option ℕ) (ticks : ℕ) → Does sound (debit_stake user bet table ticks)
unfolding debit_stake
Does-debit_stake user bet table ticks = search service_rules depth 9

-- Whatever mirroring a placement returns or raises, the ledger keeps to the double entry.
pub record_placed-Sound :
    (settings : StakeSettings) (answer : Result VerifiedBet) (user bet : ℕ) (table : Option ℕ)
    → AlwaysDoes sound (record_placed settings answer user bet table)
unfolding record_placed
record_placed-Sound settings answer user bet table =
    search (always_rules, service_rules, Does-insert_mirror, Does-debit_stake) depth 12

module _ {r : Preorder} where
  Does-live_specs :
      (st : LiveStatus) (user stake : ℕ) (answer : Option ℤ)
      → Does r (live_specs st user stake answer)
  unfolding live_specs
  Does-live_specs LiveStatus.won user stake answer = search service_rules depth 9
  Does-live_specs LiveStatus.refunded user stake answer = search service_rules depth 9
  Does-live_specs LiveStatus.voided user stake answer = search service_rules depth 9
  Does-live_specs _ user stake answer = Does-pure _

Does-post_live_specs :
    (user bet : ℕ) (specs : List LiveSpec) → Does sound (post_live_specs user bet specs)
unfolding post_live_specs
Does-post_live_specs user bet [] = Does-pure tt
Does-post_live_specs user bet (p ∷ specs) =
    Does-bind _ (λ _. post_live_specs user bet specs)
      (Does-post_transfer p.kind (some (Keys.livebets bet p.stage)) (some user) p.debit_id
        p.credit_id p.amount (livebets bet))
      (λ _. Does-post_live_specs user bet specs)

Does-write_mirror_status : (x : ℕ) (st : LiveStatus) → Does sound (write_mirror_status x st)
unfolding write_mirror_status
Does-write_mirror_status x st = record { at = λ s. Sound-same s _ refl refl refl (omega arith) }

Does-settle_mirror :
    (user : ℕ) (b : LiveBetsBet) (v : VerifiedBet) → Does sound (settle_mirror user b v)
unfolding settle_mirror
Does-settle_mirror user b v =
    search (service_rules, Does-live_specs, Does-post_live_specs, Does-write_mirror_status) depth 12

Does-settle_once :
    (user : ℕ) (b : LiveBetsBet) (v : VerifiedBet) → Does sound (settle_once user b v)
unfolding settle_once
Does-settle_once user b v = search (service_rules, Does-settle_mirror)

-- Whatever mirroring a settlement returns or raises, the ledger keeps to the double entry.
pub record_settled-Sound :
    (answer : Result VerifiedBet) (user bet : ℕ) → AlwaysDoes sound (record_settled answer user bet)
unfolding record_settled settle_verified settle_placed
record_settled-Sound answer user bet =
    search (always_rules, service_rules, Does-settle_once) depth 12
