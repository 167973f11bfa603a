-- ===== src/Operations/Invariants.antt =====
-- What holds after any sequence of calls of the services of backend/app.
use xpredict.Prelude.{ℕ, ◌+◌, ◌≡◌, ◌≢◌, ap, arith, Extends}
use xpredict.Database.Rows.{Db, house_promo_id}
use xpredict.Database.Tables.{
  balance_or_zero, total, debits, credits, transfer_debits, transfer_credits, Keyed-All,
}
use xpredict.Session.Rules.{Always-begin}
use xpredict.Wallet.Posting.{balance}
use xpredict.Wallet.Flow.{Sound, Sound-reflexive, Sound-transitive}
use xpredict.Wallet.Soundness.{
  create_wallet-Sound, recharge-Sound, grant_signup_bonus-Sound, transfer-Sound,
}
use xpredict.Settlement.Service.Soundness.{resolve_market-Sound, reverse_settlement-Sound}
use xpredict.Bets.Soundness.{place_bet-Sound, sell_position-Sound}
use xpredict.Events.Soundness.{resolve_event-Sound, void_event-Sound, reverse_event-Sound}
use xpredict.Polymarket.Detect.Soundness.{run_detect_resolutions-Sound}
use xpredict.LiveBets.Soundness.{record_placed-Sound, record_settled-Sound}
use xpredict.Reconcile.{reconcile_with_session}
use xpredict.Reconcile.Clean.{IsBacked, IsClean, reconcile_exact}
use xpredict.Operations.{
  Step, registers, recharges, is_granted_bonus, transfers, places_bet, sells, resolves, reverses,
  resolves_event, voids_event, reverses_event, mirrors_placement, mirrors_settlement, detects,
  Reach, here, next, IsGenesis,
}

Step-Sound : {s u : Db} → Step s u → Sound s u
Step-Sound {s} (registers user) = (Always-begin _ (create_wallet-Sound user)).at s
Step-Sound {s} (recharges user amount text key provider) =
    (recharge-Sound user amount text key provider).at s
Step-Sound {s} (is_granted_bonus user amount) = (grant_signup_bonus-Sound user amount).at s
Step-Sound {s} (transfers kind d c amount actor key text) =
    (transfer-Sound kind d c amount actor key text).at s
Step-Sound {s} (places_bet port settings now user m o stake) =
    (place_bet-Sound port settings now user m o stake).at s
Step-Sound {s} (sells port now bet user) = (sell_position-Sound port now bet user).at s
Step-Sound {s} (resolves port m o text actor) = (resolve_market-Sound port m o text actor).at s
Step-Sound {s} (reverses port m text actor) = (reverse_settlement-Sound port m text actor).at s
Step-Sound {s} (resolves_event now g w text actor) = (resolve_event-Sound now g w text actor).at s
Step-Sound {s} (voids_event now g text actor) = (void_event-Sound now g text actor).at s
Step-Sound {s} (reverses_event now g text actor) = (reverse_event-Sound now g text actor).at s
Step-Sound {s} (mirrors_placement settings answer user bet table) =
    (record_placed-Sound settings answer user bet table).at s
Step-Sound {s} (mirrors_settlement answer user bet) = (record_settled-Sound answer user bet).at s
Step-Sound {s} (detects now grace fetch) = run_detect_resolutions-Sound now grace fetch s

Reach-Sound : {s u : Db} → Reach s u → Sound s u
Reach-Sound {s} here = Sound-reflexive s
Reach-Sound {s} (next {t} {u} r st) = Sound-transitive s t u (Reach-Sound r) (Step-Sound st)

-- No sequence of calls makes or loses money: the balances of all accounts always add up to the
-- same total, and every account's balance moves only as its entries say.
pub money_is_conserved :
    {s u : Db} (r : Reach s u)
    → (total u.accounts ≡ total s.accounts)
      × ((x : ℕ)
          → balance x u + debits x u.entries + credits x s.entries
            ≡ balance x s + debits x s.entries + credits x u.entries)
money_is_conserved r = let h = Reach-Sound r in (h.conserved, h.drift)

-- The entries and the transfers that are there stay, unchanged and in their order; in every
-- transfer the debits equal the credits if they did so at first.
pub ledger_is_append_only :
    {s u : Db} (r : Reach s u)
    → Extends s.entries u.entries
      × Extends s.transfers u.transfers
      × ((t : ℕ)
          → transfer_debits t u.entries + transfer_credits t s.entries
            ≡ transfer_debits t s.entries + transfer_credits t u.entries)
ledger_is_append_only r =
    let h = Reach-Sound r in (h.entries_kept, h.transfers_kept, h.double_entry)

-- From the seeded database, in every transfer the debits equal the credits.
Reach-backed :
    {s u : Db}
    → IsGenesis s
    → Reach s u
    → (x : ℕ) → x ≢ house_promo_id
    → balance x u + debits x u.entries ≡ credits x u.entries
unfolding debits credits
Reach-backed {s} g r x ne =
    let h = (Reach-Sound r).drift x in
    omega (arith, g.empty x ne, ap (debits x) g.no_entries, ap (credits x) g.no_entries, h)

Reach-IsClean : {s u : Db} → IsGenesis s → Reach s u → IsClean u.entries u.accounts
Reach-IsClean {u = u} g r =
    Keyed-All (λ x b. x ≢ house_promo_id → IsBacked u.entries x b) u.next_id u.accounts
      ((Reach-Sound r).keys g.keyed)
      (λ x a found ne. omega (arith, Reach-backed g r x ne, ap balance_or_zero found))

-- Whatever sequence of calls is made from the seeded database, the nightly reconciliation finds no
-- drift.
pub reconcile_finds_no_drift :
    {s u : Db} → IsGenesis s → Reach s u → (reconcile_with_session u).drift_count ≡ 0
reconcile_finds_no_drift {u = u} g r = (reconcile_exact u).1 (Reach-IsClean g r)
