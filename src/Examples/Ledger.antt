-- ===== src/Examples/Ledger.antt =====
-- The ledger's guarantees on the runs of `Data`: backend/app/wallet and the services over it.
use xpredict.Prelude.{ℕ, ◌+◌, ◌≡◌, ◌↔◌, refl, Extends, arith}
use xpredict.Database.Tables.{account?, total, debits, credits, transfer_debits, transfer_credits}
use xpredict.Wallet.Posting.{balance}
use xpredict.Reconcile.{reconcile_with_session}
use xpredict.Reconcile.Clean.{IsClean, reconcile_exact}
use xpredict.Operations.{IsGenesis}
use xpredict.Operations.Invariants.{
  money_is_conserved, ledger_is_append_only, reconcile_finds_no_drift,
}
use xpredict.Examples.Data.{seeded, settled, to_settled}

seeded-IsGenesis : IsGenesis seeded
unfolding seeded account?
seeded-IsGenesis = record {
  keyed = (omega arith, refl, (omega arith, refl, (omega arith, refl, tt)));
  empty = λ x ne. ground arith;
  no_entries = refl;
}

money_is_conserved_example :
    (total settled.accounts ≡ total seeded.accounts)
    × ((x : ℕ)
        → balance x settled + debits x settled.entries + credits x seeded.entries
          ≡ balance x seeded + debits x seeded.entries + credits x settled.entries)
money_is_conserved_example = money_is_conserved to_settled

ledger_is_append_only_example :
    Extends seeded.entries settled.entries
    × Extends seeded.transfers settled.transfers
    × ((t : ℕ)
        → transfer_debits t settled.entries + transfer_credits t seeded.entries
          ≡ transfer_debits t seeded.entries + transfer_credits t settled.entries)
ledger_is_append_only_example = ledger_is_append_only to_settled

reconcile_finds_no_drift_example : (reconcile_with_session settled).drift_count ≡ 0
reconcile_finds_no_drift_example = reconcile_finds_no_drift seeded-IsGenesis to_settled

reconcile_exact_example :
    ((reconcile_with_session settled).drift_count ≡ 0) ↔ IsClean settled.entries settled.accounts
reconcile_exact_example = reconcile_exact settled
