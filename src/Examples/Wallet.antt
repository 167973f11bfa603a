-- ===== src/Examples/Wallet.antt =====
-- The theorems on backend/app/wallet/service.py, at the runs.
use xpredict.Prelude.{ℕ, ◌≡◌, refl, ◌⊎◌, none, some, ◌==◌, [], ◌∷◌, where_rows, arith}
use xpredict.Prelude.Int.{ℤ, pos}
use xpredict.Money.Errors.{ok}
use xpredict.Database.Rows
use xpredict.Database.Rows.{
  Db, Account, OwnerType, AccountKind, money_limit, house_promo_id, house_revenue_id,
}
use xpredict.Database.Keys.{other, key_eq}
use xpredict.Database.Tables.{account?, set_balance}
use xpredict.Wallet.{PaymentProvider, house, has_key, key_taken, create_wallet, recharge}
use xpredict.Wallet.Queries.{HasWallet}
use xpredict.Wallet.Effects.{Moved, transfer_moves, recharge_once}
use xpredict.Wallet.Replay.{recharge_replayed}
use xpredict.Examples.Data.{seeded, registered, recharged}
use xpredict.Examples.Runs.{top_up, recharge_runs, payment, paid, transfer_runs}

transfer_moves_example :
    (n : ℕ) × (◌≡◌ {A = ℤ} (pos 500) (pos n)) × Moved 1000 house_revenue_id n recharged payment paid
transfer_moves_example =
    transfer_moves Rows.opening 1000 house_revenue_id (pos 500) none none none recharged payment
      paid transfer_runs

recharge_once_example :
    (n : ℕ) × (◌≡◌ {A = ℤ} (pos 1000000) (pos n))
    × (PaymentProvider.house ≡ house)
    × (where_rows (has_key (other 1)) recharged.transfers ≡ top_up ∷ [])
    × ((recharged ≡ registered)
        ⊎ ((w : ℕ) × HasWallet 7 registered w
            × Moved house_promo_id w n registered top_up recharged))
recharge_once_example =
    recharge_once 7 (pos 1000000) "top-up" (other 1) PaymentProvider.house registered top_up
      recharged recharge_runs

abbrev wallet_7 : Account
wallet_7 = record {
  id = 1000;
  owner_type = OwnerType.user;
  owner_id = some 7;
  kind = AccountKind.user_wallet;
  balance = 1000000;
  version = 0;
}

HasWallet-7 : HasWallet 7 recharged 1000
unfolding seeded create_wallet recharge key_taken account? set_balance money_limit
HasWallet-7 = (wallet_7, refl, refl)

one_top_up : where_rows (has_key (other 1)) recharged.transfers ≡ top_up ∷ []
unfolding seeded create_wallet recharge key_taken key_eq account? set_balance money_limit
one_top_up = refl

row_1000 : where_rows (λ (r : Account). r.id == 1000) recharged.accounts ≡ wallet_7 ∷ []
unfolding seeded create_wallet recharge key_taken account? set_balance money_limit
row_1000 = refl

recharge_replayed_example :
    recharge 7 (pos 1000000) "again" (other 1) house recharged ≡ (ok top_up, recharged)
recharge_replayed_example =
    recharge_replayed 7 1000000 "again" (other 1) recharged top_up 1000 (omega arith) HasWallet-7
      one_top_up
