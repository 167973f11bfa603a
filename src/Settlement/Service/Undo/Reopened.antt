-- ===== src/Settlement/Service/Undo/Reopened.antt =====
-- The statuses that `SettlementService.reverse_settlement` (backend/app/settlement/service.py)
-- writes.
use xpredict.Prelude.{ℕ, ◌≡◌, ap, sym, ◌∙◌, ⊤, String, Option, List, [], ◌∷◌, where_rows, length}
use xpredict.Money.Errors.{ok}
use xpredict.Database.Rows.{Db, Bet, settlement_reversed}
use xpredict.Database.Keys.{reverse}
use xpredict.Session.{pure, gets, ◌>>=◌}
use xpredict.Session.Inversion.{begin-eq-ok, Does-then, ok-rel, returned, >>=-eq-ok}
use xpredict.Ledger.{lock_touched, post_specs, record_audit}
use xpredict.Ledger.Soundness.{Does-lock_touched}
use xpredict.Ledger.Flow.{post_specs-bets}
use xpredict.Ledger.Queries.{resolve_market_liability_id-then}
use xpredict.Settlement.Port.{MarketResolvePort}
use xpredict.Settlement.Service.{
  settled_in, reverse_specs, reopen_bets, reverse_bets, reverse_if_any, reverse_settled, reversal,
  reverse_settlement,
}
use xpredict.Settlement.Service.Soundness.{Does-reverse_specs}
use xpredict.Settlement.Service.Pending.{bets_kept, Does-bets_kept, Does-record_audit_row}
use xpredict.Settlement.Service.Statuses.{
  UniqueIds, write_all, write_all-pass, pass, all_pending, reopen_bets-eq,
}

module _ (port : MarketResolvePort) (m : ℕ) (actor : Option ℕ) where
  reverse_bets-rows :
      (bets : List Bet) (s : Db) {a : ⊤} {u : Db}
      → reverse_bets port m actor bets s ≡ (ok a, u)
      → u.bets ≡ write_all (all_pending bets) bets s.bets
  unfolding reverse_bets
  reverse_bets-rows bets s {a} {u} h =
      let (l, _, h1) = resolve_market_liability_id-then {s = s} m _ h in
      let (specs, t1, k1, _, h2) =
        Does-then {s = s} {r = bets_kept} (reverse_specs l bets) _ (Does-reverse_specs l bets) h1 in
      let (_, t2, f, h3) = >>=-eq-ok (reopen_bets bets) _ t1 h2 in
      let (_, t3, k3, _, h4) =
        Does-then {r = bets_kept} (lock_touched specs) _ (Does-lock_touched specs) h3 in
      let (b, t4, h5, h6) = >>=-eq-ok (post_specs reverse actor m specs) _ t3 h4 in
      let k6 : u.bets ≡ t4.bets =
        ok-rel {r = bets_kept} {s = t4} (Does-bets_kept _ (port.mark_unresolved-Untouched m)) h6 in
      let (_, e) =
        returned {s = record t1 { bets = write_all (all_pending bets) bets t1.bets }}
          (sym (reopen_bets-eq bets t1) ∙ f) in
      k6
      ∙ post_specs-bets reverse actor m specs t3 b t4 h5
      ∙ k3
      ∙ ap (λ (v : Db). v.bets) e
      ∙ ap (write_all (all_pending bets) bets) k1

  reverse_if_any-rows :
      (bets : List Bet) (s : Db) {a : ⊤} {u : Db}
      → reverse_if_any port m actor bets s ≡ (ok a, u)
      → u.bets ≡ write_all (all_pending bets) bets s.bets
  unfolding reverse_if_any pure write_all
  reverse_if_any-rows [] s h = ap (λ (v : Db). v.bets) (returned h).1
  reverse_if_any-rows (b ∷ bets) s h = reverse_bets-rows (b ∷ bets) s h

  reverse_settled-rows :
      (text : String) (bets : List Bet) (n : ℕ) (s u : Db)
      → reverse_settled port m text actor bets s ≡ (ok n, u)
      → u.bets ≡ write_all (all_pending bets) bets s.bets
  unfolding reverse_settled
  reverse_settled-rows text bets n s u h =
      let (a, t1, h1, h2) = >>=-eq-ok (reverse_if_any port m actor bets) _ s h in
      let (_, t2, k2, _, h3) =
        Does-then {s = t1} {r = bets_kept}
          (record_audit actor (settlement_reversed m text (length bets))) (λ _. pure (length bets))
          (Does-record_audit_row actor (settlement_reversed m text (length bets))) h2 in
      let (_, e) = returned {s = t2} h3 in
      ap (λ (v : Db). v.bets) e ∙ k2 ∙ reverse_if_any-rows bets s h1

  -- The rows of the bets after a reversal: every settled bet is pending again.
  pub reverse_settlement-rows :
      (text : String) (s : Db) (n : ℕ) (u : Db)
      → UniqueIds s.bets
      → reverse_settlement port m text actor s ≡ (ok n, u)
      → u.bets ≡ pass (settled_in m) (all_pending (where_rows (settled_in m) s.bets)) s.bets
  unfolding reverse_settlement reversal gets ◌>>=◌
  reverse_settlement-rows text s n u q h =
      reverse_settled-rows text (where_rows (settled_in m) s.bets) n (record s { locks = [] }) u
        (begin-eq-ok (reversal port m text actor) s h)
      ∙ write_all-pass (settled_in m) (all_pending (where_rows (settled_in m) s.bets)) s.bets q
