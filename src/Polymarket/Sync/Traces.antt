-- ===== src/Polymarket/Sync/Traces.antt =====
-- What `sync_events` (backend/app/integrations/polymarket/adapter.py) leaves of an event that failed.
use xpredict.Prelude.{
  ℕ, ◌≡◌, ap, ◌∙◌, Bool, true, false, String, Option, none, some, List, [], ◌∷◌, if◌then◌else◌,
}
use xpredict.Money.Errors.{Result, ok, err}
use xpredict.Database.Rows.{Db}
use xpredict.Session.{pure}
use xpredict.Session.Inversion.{returned, >>=-eq-ok, ok-injective}
use xpredict.Polymarket.Gamma.{GammaMarket, GammaEvent}
use xpredict.Polymarket.Upsert.{
  Price, Synced, is_integrity_error, release_savepoint, upsert_one_market,
}
use xpredict.Polymarket.Sync.{
  children_of_event, count_in, upsert_each, keep_if_any, sync_group, sync_children, sync_event,
}

-- A market that was not written leaves the database as it was.
release_savepoint-none :
    (s : Db) (p : Result Synced × Db) (u : Db) → release_savepoint s p ≡ (ok none, u) → u ≡ s
release_savepoint-none s (ok r, t) u h =
    absurd (cc (ok-injective _ _ (ap (λ (q : Result (Option Synced) × Db). q.0) h)))
release_savepoint-none s (err e, t) u h = go (is_integrity_error e) h
  where
    go :
        (b : Bool)
        → ◌≡◌ {A = Result (Option Synced) × Db}
            (if b then (ok none, s) else (err e, t))
            (ok none, u)
        → u ≡ s
    go true k = (returned k).1
    go false k = absurd (cc (ap (λ (q : Result (Option Synced) × Db). q.0) k))

module _ (slugify : String → String) (decimal : String → Price) (now : ℕ) where
  standalone-none :
      (m : GammaMarket) (category : Option String) (s u : Db)
      → upsert_each slugify decimal now (m ∷ []) none category s ≡ (ok [], u)
      → u ≡ s
  unfolding upsert_each upsert_one_market pure
  standalone-none m category s u h =
      let (written, t, h1, h2) =
        >>=-eq-ok (upsert_one_market slugify decimal now m none category) _ s h in
      go written t h1 h2
    where
      go :
          (written : Option Synced) (t : Db)
          → upsert_one_market slugify decimal now m none category s ≡ (ok written, t)
          → ◌≡◌ {A = Result (List Synced) × Db} (ok (count_in written []), t) (ok [], u)
          → u ≡ s
      go none t k1 k2 = (returned k2).1 ∙ release_savepoint-none s _ t k1
      go (some r) t k1 k2 =
          absurd (cc (ok-injective _ _ (ap (λ (q : Result (List Synced) × Db). q.0) k2)))

  keep_if_any-none :
      (s : Db) (p : Result (List Synced) × Db) (u : Db)
      → keep_if_any slugify decimal now s p ≡ (ok [], u)
      → u ≡ s
  keep_if_any-none s (ok [], t) u h = (returned h).1
  keep_if_any-none s (ok (r ∷ rs), t) u h =
      absurd (cc (ok-injective _ _ (ap (λ (q : Result (List Synced) × Db). q.0) h)))
  keep_if_any-none s (err e, t) u h = absurd (cc (ap (λ (q : Result (List Synced) × Db). q.0) h))

  sync_children-none :
      (ev : GammaEvent) (category : String) (children : List GammaMarket) (s u : Db)
      → sync_children slugify decimal now ev category children s ≡ (ok [], u)
      → u ≡ s
  unfolding sync_children sync_group pure
  sync_children-none ev category [] s u h = (returned h).1
  sync_children-none ev category (m ∷ []) s u h = standalone-none m (some category) s u h
  sync_children-none ev category (m ∷ n ∷ ms) s u h = keep_if_any-none s _ u h

-- An event none of whose markets was written leaves nothing behind, in particular no group without
-- children: the database is as it was before the event.
pub sync_event_leaves_no_trace :
    (slugify : String → String) (decimal : String → Price) (now : ℕ) (category : String)
    (ev : GammaEvent) (s u : Db)
    → sync_event slugify decimal now category ev s ≡ (ok [], u)
    → u ≡ s
unfolding sync_event
sync_event_leaves_no_trace slugify decimal now category ev s u h =
    sync_children-none slugify decimal now ev category (children_of_event ev) s u h
