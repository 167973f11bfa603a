-- ===== src/Settlement/Service/Reversal.antt =====
-- What `SettlementService.reverse_settlement` (backend/app/settlement/service.py) has given back
-- when it returns.
use xpredict.Prelude.{
  ℕ, ◌+◌, ◌≡◌, ◌≢◌, refl, ap, ◌∙◌, ⊤, String, Option, List, [], ◌∷◌, ◌==◌, if◌then◌else◌,
  where_rows, arith, length,
}
use xpredict.Money.Errors.{ok}
use xpredict.Database.Rows.{Db, Bet, settlement_reversed, house_promo_id, house_revenue_id}
use xpredict.Database.Keys.{reverse}
use xpredict.Database.Tables.{account?, balance_or_zero}
use xpredict.Session.{pure, gets, ◌>>=◌}
use xpredict.Session.Inversion.{begin-eq-ok, Does-then, ok-rel, returned, >>=-eq-ok}
use xpredict.Wallet.Posting.{balance}
use xpredict.Ledger.{lock_touched, post_specs, record_audit}
use xpredict.Ledger.Soundness.{Does-lock_touched}
use xpredict.Ledger.Flow.{post_specs-flow}
use xpredict.Ledger.Queries.{HasLiability, resolve_market_liability_id-then}
use xpredict.Settlement.Port.{MarketResolvePort}
use xpredict.Settlement.Service.{
  settled_in, reverse_if_any, reverse_settled, reversal, reverse_specs, reopen_bets, reverse_bets,
  reverse_settlement,
}
use xpredict.Settlement.Service.Soundness.{Does-reopen_bets}
use xpredict.Settlement.Service.Effect.{
  Does-write_bet_kept, accounts_kept, Does-kept, Does-record_audit,
}
use xpredict.Settlement.Service.Payments.{stakes}
use xpredict.Settlement.Service.Refunds.{given_back, gains, lost_stakes, reverse_specs-Refunds}

-- Every balance of the accounts of `before` moves back: each winner's wallet gives up its payout
-- and `house_revenue` the losers' stakes; the liability account `l` gets every stake, and
-- `house_promo` the winners' gains.
pub record Reversed (l : ℕ) (bets : List Bet) (before after : Db) : Type 0 where
  pub balances :
      (x : ℕ)
      → balance x after
          + given_back x before.accounts bets
          + (if house_revenue_id == x then lost_stakes bets else 0)
        ≡ balance x before
          + (if l == x then stakes bets else 0)
          + (if house_promo_id == x then gains bets else 0)

module _ (port : MarketResolvePort) (m : ℕ) (actor : Option ℕ) where
  reverse_bets-Reversed :
      (bets : List Bet) (s : Db) {a : ⊤} {u : Db}
      → reverse_bets port m actor bets s ≡ (ok a, u)
      → (l : ℕ) × HasLiability m s l × Reversed l bets s u
  unfolding reverse_bets
  reverse_bets-Reversed bets s {a} {u} h =
      let (l, has, h1) = resolve_market_liability_id-then {s = s} m _ h in
      let (specs, t1, h2, h3) = >>=-eq-ok (reverse_specs l bets) _ s h1 in
      let (e1, legs) = reverse_specs-Refunds l bets s h2 in
      let (_, t2, k2, _, h4) =
        Does-then {r = accounts_kept} (reopen_bets bets) _
          (Does-reopen_bets Does-write_bet_kept bets) h3 in
      let (_, t3, k3, _, h5) =
        Does-then {r = accounts_kept} (lock_touched specs) _ (Does-lock_touched specs) h4 in
      let (b, t4, h6, h7) = >>=-eq-ok (post_specs reverse actor m specs) _ t3 h5 in
      let flow = post_specs-flow reverse actor m specs t3 b t4 h6 in
      let kept : t3.accounts ≡ s.accounts = k3 ∙ k2 ∙ ap (λ (v : Db). v.accounts) e1 in
      let k4 : u.accounts ≡ t4.accounts =
        ok-rel {r = accounts_kept} {s = t4} (Does-kept _ (port.mark_unresolved-Untouched m)) h7 in
      (
        l,
        has,
        record {
          balances = λ x. omega (
            arith,
            flow x,
            legs.out x,
            legs.into x,
            ap (λ rows. balance_or_zero (account? x rows)) kept,
            ap (λ rows. balance_or_zero (account? x rows)) k4,
          );
        },
      )

  reverse_if_any-Reversed :
      (bets : List Bet) (s : Db) {a : ⊤} {u : Db}
      → reverse_if_any port m actor bets s ≡ (ok a, u)
      → (l : ℕ) × (bets ≢ [] → HasLiability m s l) × Reversed l bets s u
  unfolding reverse_if_any pure stakes given_back gains lost_stakes
  reverse_if_any-Reversed [] s {a} {u} h =
      let same : u ≡ s = (returned h).1 in
      (0, λ ne. absurd (ne refl), record { balances = λ x. rw same (ground arith) })
  reverse_if_any-Reversed (b ∷ bets) s h =
      let (l, has, p) = reverse_bets-Reversed (b ∷ bets) s h in (l, λ _. has, p)

  reverse_settled-Reversed :
      (text : String) (bets : List Bet) (n : ℕ) (s u : Db)
      → reverse_settled port m text actor bets s ≡ (ok n, u)
      → (n ≡ length bets) × ((l : ℕ) × (bets ≢ [] → HasLiability m s l) × Reversed l bets s u)
  unfolding reverse_settled
  reverse_settled-Reversed text bets n s u h =
      let (a, t1, h1, h2) = >>=-eq-ok (reverse_if_any port m actor bets) _ s h in
      let (l, has, p) = reverse_if_any-Reversed bets s h1 in
      let (_, t2, k2, _, h3) =
        Does-then {s = t1} {r = accounts_kept}
          (record_audit actor (settlement_reversed m text (length bets))) (λ _. pure (length bets))
          (Does-record_audit actor (settlement_reversed m text (length bets))) h2 in
      let (e, e') = returned {s = t2} h3 in
      (
        e,
        (
          l,
          has,
          record {
            balances = λ x. omega (
              arith,
              p.balances x,
              ap (λ rows. balance_or_zero (account? x rows)) k2,
              ap (λ (z : Db). balance_or_zero (account? x z.accounts)) e',
            );
          },
        ),
      )

-- A reversal that returns gives the number of the market's settled bets, and every balance moved
-- back: each winner's wallet gave up exactly what compute_payout gives its bets, `house_revenue`
-- gave up the losing stakes, the market's liability account got exactly the stakes, and
-- `house_promo` the gains.
pub reverse_settlement_effect :
    (port : MarketResolvePort) (m : ℕ) (text : String) (actor : Option ℕ) (s : Db) (n : ℕ) (u : Db)
    → reverse_settlement port m text actor s ≡ (ok n, u)
    → (n ≡ length (where_rows (settled_in m) s.bets))
      × ((l : ℕ) × (where_rows (settled_in m) s.bets ≢ [] → HasLiability m s l)
          × Reversed l (where_rows (settled_in m) s.bets) s u)
unfolding reverse_settlement reversal gets ◌>>=◌
reverse_settlement_effect port m text actor s n u h =
    let h1 = begin-eq-ok (reversal port m text actor) s h in
    let (e, (l, has, p)) =
      reverse_settled-Reversed port m actor text (where_rows (settled_in m) s.bets) n
        (record s { locks = [] }) u h1 in
    (e, (l, has, record { balances = p.balances }))
