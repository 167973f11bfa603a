-- ===== src/Settlement/Service/Undo/Again.antt =====
-- `SettlementService.resolve_market` after a settlement and its reversal
-- (backend/app/settlement/service.py): the legs of the bets are derived again, under the keys that
-- the first settlement used.
use xpredict.Prelude.{ℕ, ◌≡◌, refl, ap, sym, ◌∙◌, Bool, true, false, List, [], ◌∷◌, if◌then◌else◌}
use xpredict.Money.Errors.{ok}
use xpredict.Database.Rows.{Db, Account, Bet}
use xpredict.Session.{pure}
use xpredict.Session.Inversion.{ok-rel, returned, >>=-eq-ok, >>=-runs}
use xpredict.Wallet.{resolve_user_wallet_id}
use xpredict.Wallet.Queries.{HasWallet, resolve_user_wallet_id-then}
use xpredict.Wallet.Replay.{resolve-runs}
use xpredict.Ledger.{TransferSpec}
use xpredict.Ledger.Owners.{owners, same_owners, where_wallet-owners, where_liability-owners}
use xpredict.Ledger.Queries.{HasLiability}
use xpredict.Settlement.Plan.{SettledBet}
use xpredict.Settlement.Service.{loser_spec, winner_legs, bet_specs, settle_specs}
use xpredict.Settlement.Service.Soundness.{Does-bet_specs}

-- The only row of a query, in two states with the same owners.
only_owner :
    (rows rows' : List Account) (a : Account)
    → owners rows' ≡ owners rows
    → rows ≡ a ∷ []
    → (a' : Account) × (rows' ≡ a' ∷ []) × (a'.id ≡ a.id)
only_owner rows [] a h e = absurd (cc (h ∙ ap owners e))
only_owner rows (x ∷ []) a h e =
    let same : owners (x ∷ []) ≡ owners (a ∷ []) = h ∙ ap owners e in (x, refl, cc same)
only_owner rows (x ∷ y ∷ rows') a h e =
    let same : owners (x ∷ y ∷ rows') ≡ owners (a ∷ []) = h ∙ ap owners e in absurd (cc same)

module _ (s t : Db) (same : owners t.accounts ≡ owners s.accounts) where
  HasWallet-owners : (user v : ℕ) → HasWallet user s v → HasWallet user t v
  HasWallet-owners user v (a, found, e) =
      let (a', found', e') =
        only_owner _ _ a (where_wallet-owners user s.accounts t.accounts same) found in
      (a', found', e' ∙ e)

  pub HasLiability-owners : (m l : ℕ) → HasLiability m s l → HasLiability m t l
  HasLiability-owners m l (a, found, e) =
      let (a', found', e') =
        only_owner _ _ a (where_liability-owners m s.accounts t.accounts same) found in
      (a', found', e' ∙ e)

  -- The legs of a bet depend on the owners of the accounts only.
  bet_specs-runs :
      (l : ℕ) (sb : SettledBet) (b : Bet) {legs : List TransferSpec} {s1 : Db}
      → bet_specs l sb b s ≡ (ok legs, s1)
      → bet_specs l sb b t ≡ (ok legs, t)
  unfolding bet_specs winner_legs pure
  bet_specs-runs l sb b {legs} {s1} h = go sb.won h
    where
      go :
          (c : Bool)
          → (if c then winner_legs l sb b else pure (loser_spec l b ∷ [])) s ≡ (ok legs, s1)
          → (if c then winner_legs l sb b else pure (loser_spec l b ∷ [])) t ≡ (ok legs, t)
      go true k =
          let (v, has, k1) = resolve_user_wallet_id-then {s = s} b.user_id _ k in
          let (e, _) = returned k1 in
          >>=-runs (resolve_user_wallet_id b.user_id) _ t
            (resolve-runs b.user_id t v (HasWallet-owners b.user_id v has))
          ∙ (λ i. (ok (sym e i), t))
      go false k = let (e, _) = returned k in λ i. (ok (sym e i), t)

pub settle_specs-runs :
    (l : ℕ) (sbs : List SettledBet) (bets : List Bet) (s t : Db)
    → owners t.accounts ≡ owners s.accounts
    → {specs : List TransferSpec} {s1 : Db} → settle_specs l sbs bets s ≡ (ok specs, s1)
    → settle_specs l sbs bets t ≡ (ok specs, t)
unfolding settle_specs pure
settle_specs-runs l [] bets s t same h = let (e, _) = returned h in λ i. (ok (sym e i), t)
settle_specs-runs l (sb ∷ sbs) [] s t same h = let (e, _) = returned h in λ i. (ok (sym e i), t)
settle_specs-runs l (sb ∷ sbs) (b ∷ bets) s t same h =
    let (legs, s1, h1, h2) = >>=-eq-ok (bet_specs l sb b) _ s h in
    let k1 : owners s1.accounts ≡ owners s.accounts =
      ok-rel {r = same_owners} (Does-bet_specs l sb b) h1 in
    let (rest, s2, h3, h4) = >>=-eq-ok (settle_specs l sbs bets) _ s1 h2 in
    let (e, _) = returned h4 in
    >>=-runs (bet_specs l sb b) _ t (bet_specs-runs s t same l sb b h1)
    ∙ >>=-runs (settle_specs l sbs bets) _ t (settle_specs-runs l sbs bets s1 t (same ∙ sym k1) h3)
    ∙ (λ i. (ok (sym e i), t))
