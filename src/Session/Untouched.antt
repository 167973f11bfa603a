-- ===== src/Session/Untouched.antt =====
-- A step that leaves the ledger and the bets alone: a query, a lock, a write to another table.
use xpredict.Prelude.{ℕ, ◌≤◌, arith, ◌≡◌, refl, ◌∙◌, List, []}
use xpredict.Database.Rows.{Db, RowLock}
use xpredict.Money.Errors.{Result, ok, err}
use xpredict.Session.{Action}
use xpredict.Session.Rules.{Preorder, Does, OnOk}

-- The ledger and the bets are as they were.
pub record Untouched (s u : Db) : Type 0 where
  pub accounts : u.accounts ≡ s.accounts
  pub transfers : u.transfers ≡ s.transfers
  pub entries : u.entries ≡ s.entries
  pub bets : u.bets ≡ s.bets
  pub ids_grow : s.next_id ≤ u.next_id

pub Untouched-transitive : (s t u : Db) → Untouched s t → Untouched t u → Untouched s u
Untouched-transitive s t u p q = record {
  accounts = q.accounts ∙ p.accounts;
  transfers = q.transfers ∙ p.transfers;
  entries = q.entries ∙ p.entries;
  bets = q.bets ∙ p.bets;
  ids_grow = omega (arith, p.ids_grow, q.ids_grow);
}

pub Untouched-refl : (s : Db) → Untouched s s
Untouched-refl s = record {
  accounts = refl;
  transfers = refl;
  entries = refl;
  bets = refl;
  ids_grow = omega arith;
}

pub Untouched-quiet :
    (s : Db) (n : ℕ) (l : List RowLock)
    → s.next_id ≤ n
    → Untouched s (record s { next_id = n; locks = l })
Untouched-quiet s n l h = record {
  accounts = refl;
  transfers = refl;
  entries = refl;
  bets = refl;
  ids_grow = h;
}

abbrev pub untouched : Preorder
untouched = record {
  rel = Untouched;
  reflexive = Untouched-refl;
  transitive = Untouched-transitive;
  quiet = Untouched-quiet;
}

-- What leaves the ledger and the bets alone keeps to every preorder that asks no more.
pub Does-of_untouched :
    {r : Preorder} {A : Type 0} (m : Action A)
    → ((s u : Db) → Untouched s u → r.rel s u)
    → Does untouched m
    → Does r m
Does-of_untouched {r} {A} m weaken d = record { at = λ s. go s (m s) (d.at s) }
  where
    go : (s : Db) (x : Result A × Db) → OnOk Untouched s x → OnOk r.rel s x
    go s (ok a, u) h = weaken s u h
    go s (err e, u) h = tt

-- The ledger's three tables are as they were.
pub record LedgerSame (s u : Db) : Type 0 where
  pub accounts : u.accounts ≡ s.accounts
  pub transfers : u.transfers ≡ s.transfers
  pub entries : u.entries ≡ s.entries

-- A unit of work on `s` that has not touched the ledger yet.
pub Untouched-LedgerSame : {s u : Db} → Untouched (record s { locks = [] }) u → LedgerSame s u
Untouched-LedgerSame q = record {
  accounts = q.accounts;
  transfers = q.transfers;
  entries = q.entries;
}
