-- ===== src/Polymarket/Poll.antt =====
-- `_run_poll_sync`, `_run_poll_events` and `_run_snapshot_odds` of
-- backend/app/integrations/polymarket/tasks.py, while the lock of the task is held: the mirror is
-- synchronised, category by category, and the odds of the open markets are recorded. What Gamma
-- answers is an argument; an element that does not validate is `none`.
pub mod Curation
pub mod Batches
use xpredict.Prelude.{
  ℕ, zero, suc, Bool, true, false, String, Option, none, some, List, [], ◌∷◌, ◌++◌, map, leb, any,
  if◌then◌else◌, where_rows,
}
use xpredict.Money.Errors.{Error, Result, ok, err}
use xpredict.Database.Rows.{Db, Market, Outcome, OddsSnapshot}
use xpredict.Session.{Action, commit_or_rollback}
use xpredict.Markets.{snapshot, is_open_market}
use xpredict.Polymarket.Gamma.{GammaMarket, GammaEvent, CategoryEntry, is_in}
use xpredict.Polymarket.Upsert.{Price, Synced}
use xpredict.Polymarket.Sync.{sync_events, sync_top25}

-- `adapter.changed_markets`, which is published after the commit
abbrev pub to_publish : List Synced → List Synced
to_publish written = where_rows (λ (r : Synced). any r.deltas) written

abbrev published : Result (List Synced) × Db → List Synced × Db
published (ok written, s) = (to_publish written, s)
published (err e, s) = ([], s)

-- The elements that validate.
abbrev pub validated : {A : Type 0} → List (Option A) → List A
validated [] = []
validated (none ∷ raw) = validated raw
validated (some a ∷ raw) = a ∷ validated raw

-- The events that no category before has taken, and the ids that are taken then.
abbrev pub new_events : List String → List GammaEvent → List GammaEvent × List String
new_events seen [] = ([], seen)
new_events seen (e ∷ events) =
    if is_in e.id seen
    then new_events seen events
    else (let (kept, taken) = new_events (e.id ∷ seen) events in (e ∷ kept, taken))

abbrev pub take {ℓ} : {A : Type ℓ} → ℕ → List A → List A
take zero xs = []
take (suc n) [] = []
take (suc n) (x ∷ xs) = x ∷ take n xs

-- The settings of the poll: `POLYMARKET_VOLUME_FLOOR` and `POLYMARKET_EVENTS_TOP_N`.
pub record PollSettings : Type 0 where
  pub volume_floor : ℕ
  pub events_top_n : ℕ

-- The floor and the bound, after the ids.
abbrev pub curated : PollSettings → List GammaEvent → List GammaEvent
curated settings events =
    take settings.events_top_n
      (where_rows (λ (e : GammaEvent). leb settings.volume_floor e.volume_24hr) events)

-- The events that a category synchronises when the ids `seen` are taken, and the ids that are taken
-- then.
abbrev pub category_events :
    PollSettings → List String → Result (List (Option GammaEvent)) → List GammaEvent × List String
category_events settings seen (err e) = ([], seen)
category_events settings seen (ok raw) =
    let (events, taken) = new_events seen (validated raw) in (curated settings events, taken)

-- What the loop over the categories carries.
pub record Cycle : Type 0 where
  pub seen : List String
  pub changed : List Synced
  pub db : Db

module _ (slugify : String → String) (decimal : String → Price) (now : ℕ) where
  -- `_run_poll_sync`: what is published, and the database.
  unfoldable pub run_poll_sync : Result (List (Option GammaMarket)) → Db → List Synced × Db
  unfolding sync_top25
  run_poll_sync (err e) s = ([], s)
  run_poll_sync (ok raw) s = published (commit_or_rollback s (sync_top25 slugify decimal now raw s))

  module _ (settings : PollSettings) (fetch : String → Result (List (Option GammaEvent))) where
    pub sync_curated : String → List GammaEvent → Db → List Synced × Db
    unfolding sync_events
    sync_curated category [] s = ([], s)
    sync_curated category (e ∷ events) s =
        published (commit_or_rollback s (sync_events slugify decimal now category (e ∷ events) s))

    abbrev after_sync : Cycle → List String → List Synced × Db → Cycle
    after_sync c taken (changed, s) = record {
      seen = taken;
      changed = c.changed ++ changed;
      db = s;
    }

    -- An exception loses the category's work; the ids that it took stay taken.
    unfoldable pub poll_answer : CategoryEntry → Cycle → List GammaEvent × List String → Cycle
    unfolding sync_curated
    poll_answer entry c (events, taken) = after_sync c taken (sync_curated entry.name events c.db)

    unfoldable pub poll_category : CategoryEntry → Cycle → Cycle
    unfolding poll_answer
    poll_category entry c =
        poll_answer entry c (category_events settings c.seen (fetch entry.tag_id))

    unfoldable pub poll_each : List CategoryEntry → Cycle → Cycle
    unfolding poll_category
    poll_each [] c = c
    poll_each (entry ∷ entries) c = poll_each entries (poll_category entry c)

    -- `_run_poll_events`
    unfoldable pub run_poll_events : List CategoryEntry → Db → List Synced × Db
    unfolding poll_each
    run_poll_events categories s =
        let c = poll_each categories (record { seen = []; changed = []; db = s }) in
        (c.changed, c.db)

abbrev snapshots_of : ℕ → List Market → List OddsSnapshot
snapshots_of now [] = []
snapshots_of now (m ∷ ms) =
    let rest = snapshots_of now ms in
    if is_open_market m.status then map (snapshot now m.id) m.outcomes ++ rest else rest

-- `_run_snapshot_odds`
unfoldable pub run_snapshot_odds : ℕ → Db → Db
run_snapshot_odds now s = record s {
  odds_snapshots = s.odds_snapshots ++ snapshots_of now s.markets;
}
