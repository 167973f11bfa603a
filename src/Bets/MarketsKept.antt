-- ===== src/Bets/MarketsKept.antt =====
-- `BetService.place_bet` (backend/app/bets/service.py) writes no market.
use xpredict.Prelude.{ℕ, ◌+◌, ◌≡◌, refl, ap, ◌∙◌, Option, List, [], ◌∷◌, where_rows}
use xpredict.Prelude.Int.{ℤ}
use xpredict.Money.Errors.{Result, ok, err}
use xpredict.Database.Rows.{Db, Account, Bet, Transfer, TransferKind, Metadata}
use xpredict.Database.Keys.{Key}
use xpredict.Session.{gets, uuid4, ◌>>=◌}
use xpredict.Session.Rules.{
  Preorder, Does, AlwaysDoes, does_rules, always_rules, Always-begin, OnOk,
}
use xpredict.Wallet.{post_transfer}
use xpredict.Wallet.Posting.{post_transfer-Posted}
use xpredict.Wallet.Soundness.{Does-resolve_user_wallet_id, Does-read_balance}
use xpredict.Ledger.{is_liability_of}
use xpredict.Bets.{
  StakeSettings, upsert_liability, find_or_add_liability, ensure_market_liability_account,
  insert_bet, stake_bet, staked_bet, place_bet,
}
use xpredict.Bets.MarketPort.{MarketReadPort}
use xpredict.Bets.Soundness.{Always-check_market}

abbrev pub markets_kept : Preorder
markets_kept = record {
  rel = λ s u. u.markets ≡ s.markets;
  reflexive = λ s. refl;
  transitive = λ s t u p q. q ∙ p;
  quiet = λ s n l h. refl;
}

Does-upsert_liability :
    (m : ℕ) (query : Db → List Account)
    → Does markets_kept (uuid4 >>= λ id. gets query >>= λ rows. upsert_liability m id rows)
unfolding ◌>>=◌ uuid4 gets upsert_liability
Does-upsert_liability m query = record {
  at = λ s. go s (query (record s { next_id = s.next_id + 1 }));
}
  where
    go :
        (s : Db) (rows : List Account)
        → OnOk markets_kept.rel s
            (upsert_liability m s.next_id rows (record s { next_id = s.next_id + 1 }))
    go s [] = refl
    go s (a ∷ rows) = refl

Always-ensure : (m : ℕ) → AlwaysDoes markets_kept (ensure_market_liability_account m)
unfolding ensure_market_liability_account find_or_add_liability
Always-ensure m =
    Always-begin _ (Does-upsert_liability m (λ s. where_rows (is_liability_of m) s.accounts))

Does-insert_bet : (b : Bet) → Does markets_kept (insert_bet b)
unfolding insert_bet
Does-insert_bet b = record { at = λ s. refl }

Does-post_transfer :
    (kind : TransferKind) (key : Option Key) (actor : Option ℕ) (d c amount : ℕ) (m : Metadata)
    → Does markets_kept (post_transfer kind key actor d c amount m)
Does-post_transfer kind key actor d c amount m = record {
  at = λ s. go s (post_transfer kind key actor d c amount m s) refl;
}
  where
    go :
        (s : Db) (r : Result Transfer × Db)
        → post_transfer kind key actor d c amount m s ≡ r
        → OnOk markets_kept.rel s r
    go s (ok t, u) h =
        ap (λ (v : Db). v.markets) (post_transfer-Posted kind key actor d c amount m s t u h).after
    go s (err e, u) h = tt

Always-stake_bet :
    (user m o ticks price l : ℕ) → AlwaysDoes markets_kept (stake_bet user m o ticks price l)
unfolding stake_bet staked_bet
Always-stake_bet user m o ticks price l =
    search
      (
        always_rules, does_rules, Does-resolve_user_wallet_id, Does-read_balance, Does-insert_bet,
        Does-post_transfer,
      )
      depth 12

pub place_bet-markets :
    (port : MarketReadPort) (settings : StakeSettings) (now user m o : ℕ) (amount : ℤ)
    → AlwaysDoes markets_kept (place_bet port settings now user m o amount)
unfolding place_bet
place_bet-markets port settings now user m o amount =
    search (always_rules, Always-check_market, Always-ensure, Always-stake_bet) depth 9
