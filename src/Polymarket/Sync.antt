-- ===== src/Polymarket/Sync.antt =====
-- `_upsert_market_group`, `sync_events` and `sync_top25` of
-- backend/app/integrations/polymarket/adapter.py: the mirror is brought up to date.
pub mod Traces
pub mod Children
use Prim.Native.String.{◌++◌ as ◌++ₛ◌}
use xpredict.Prelude.{
  ℕ, ⊤, Bool, true, false, ◌&&◌, ◌||◌, not, String, Option, none, some, List, [], ◌∷◌, ◌++◌,
  if◌then◌else◌, text_eq, is_text, first_chars, hex6,
}
use xpredict.Money.Errors.{Error, Result, ok, err, unique_violation, no_result_found}
use xpredict.Database.Rows.{Db, MarketGroup, polymarket}
use xpredict.Session.{
  Action, pure, raise, gets, or_raise, uuid4, commit_or_rollback, on_unique_violation, ◌>>=◌, ◌>>◌,
}
use xpredict.Events.{is_polymarket, group_slug_taken}
use xpredict.Markets.Creation.{generate_slug}
use xpredict.Polymarket.Gamma.{GammaMarket, GammaEvent, is_in}
use xpredict.Polymarket.Upsert.{Price, Synced, same_text, is_integrity_error, upsert_one_market}

abbrev is_group_of : String → MarketGroup → Bool
is_group_of x g = is_polymarket g.source && same_text g.source_event_id x

abbrev mirrored_group? : String → List MarketGroup → Option MarketGroup
mirrored_group? x [] = none
mirrored_group? x (g ∷ gs) = if is_group_of x g then some g else mirrored_group? x gs

abbrev regroup : GammaEvent → String → List MarketGroup → List MarketGroup
regroup ev category [] = []
regroup ev category (g ∷ gs) =
    let rest = regroup ev category gs in
    if is_group_of ev.id g
    then record g { title = ev.title; category = some category } ∷ gs
    else g ∷ rest

insert_group : ℕ → GammaEvent → String → String → Option MarketGroup → Action ⊤
insert_group id ev category slug (some g) s =
    (ok tt, record s { groups = regroup ev category s.groups })
insert_group id ev category slug none s =
    if group_slug_taken slug s.groups then (err unique_violation, s) else (
      ok tt,
      record s {
        groups =
            s.groups
            ++ record {
              id = id;
              title = ev.title;
              source = polymarket;
              source_event_id = some ev.id;
              category = some category;
              slug = slug;
            }
              ∷ [];
      },
    )

-- `_do_upsert`: INSERT … ON CONFLICT (source, source_event_id) DO UPDATE
do_upsert : GammaEvent → String → String → Action ⊤
unfolding ◌>>=◌ uuid4 insert_group
do_upsert ev category slug = do
  id ← uuid4
  found ← gets (λ s. mirrored_group? ev.id s.groups)
  insert_group id ev category slug found

abbrev base_slug : (String → String) → GammaEvent → String
base_slug slugify ev = "pm-evt-" ++ₛ slugify ev.title

abbrev group_slug : (String → String) → GammaEvent → ℕ → String
group_slug slugify ev id =
    if text_eq (base_slug slugify ev) "pm-evt-"
    then generate_slug slugify ev.title id
    else first_chars 100 (base_slug slugify ev)

-- `async with session.begin_nested()`: an exception rolls back to the SAVEPOINT.
abbrev pub in_savepoint : {A : Type 0} → Action A → Action A
in_savepoint m s = commit_or_rollback s (m s)

-- `_upsert_market_group`
pub upsert_market_group : (String → String) → GammaEvent → String → Action ℕ
unfolding ◌>>=◌ uuid4 do_upsert on_unique_violation
upsert_market_group slugify ev category = do
  id ← uuid4
  on_unique_violation (in_savepoint (do_upsert ev category (group_slug slugify ev id))) do
    suffix ← uuid4
    in_savepoint
        (do_upsert ev category (first_chars 93 (base_slug slugify ev) ++ₛ "-" ++ₛ hex6 suffix))
  found ← gets (λ s. mirrored_group? ev.id s.groups)
  group ← or_raise found no_result_found
  pure group.id

-- The children of an event, without empty and repeated ids; `seen` holds the ids before.
abbrev pub children_from : List String → List GammaMarket → List GammaMarket
children_from seen [] = []
children_from seen (m ∷ ms) =
    if not (is_text m.id) || is_in m.id seen
    then children_from seen ms
    else m ∷ children_from (m.id ∷ seen) ms

abbrev pub children_of_event : GammaEvent → List GammaMarket
children_of_event ev = children_from [] ev.markets

abbrev count_in : Option Synced → List Synced → List Synced
count_in none rest = rest
count_in (some r) rest = r ∷ rest

module _ (slugify : String → String) (decimal : String → Price) (now : ℕ) where
  -- The loop over markets; the list of what was written stands for the count and `changed_markets`.
  unfoldable pub upsert_each : List GammaMarket → Option ℕ → Option String → Action (List Synced)
  unfolding ◌>>=◌ pure upsert_one_market
  upsert_each [] group_id category = pure []
  upsert_each (m ∷ ms) group_id category = do
    written ← upsert_one_market slugify decimal now m group_id category
    rest ← upsert_each ms group_id category
    pure (count_in written rest)

  -- A group of which no child was written is taken back.
  abbrev pub keep_if_any : Db → Result (List Synced) × Db → Result (List Synced) × Db
  keep_if_any before (ok [], s) = (ok [], before)
  keep_if_any before (ok (r ∷ rs), s) = (ok (r ∷ rs), s)
  keep_if_any before (err e, s) = (err e, before)

  grouped : GammaEvent → String → List GammaMarket → Action (List Synced)
  unfolding ◌>>=◌ upsert_market_group upsert_each
  grouped ev category children = do
    group_id ← upsert_market_group slugify ev category
    upsert_each children (some group_id) (some category)

  sync_group : GammaEvent → String → List GammaMarket → Action (List Synced)
  unfolding grouped
  sync_group ev category children s = keep_if_any s (grouped ev category children s)

  sync_children : GammaEvent → String → List GammaMarket → Action (List Synced)
  unfolding pure upsert_each sync_group
  sync_children ev category [] = pure []
  sync_children ev category (m ∷ []) = upsert_each (m ∷ []) none (some category)
  sync_children ev category (m ∷ n ∷ ms) = sync_group ev category (m ∷ n ∷ ms)

  -- The body of the loop over events.
  unfoldable pub sync_event : String → GammaEvent → Action (List Synced)
  unfolding sync_children
  sync_event category ev = sync_children ev category (children_of_event ev)

  -- `sync_events`
  unfoldable pub sync_events : String → List GammaEvent → Action (List Synced)
  unfolding ◌>>=◌ pure sync_event
  sync_events category [] = pure []
  sync_events category (ev ∷ events) = do
    first ← sync_event category ev
    rest ← sync_events category events
    pure (first ++ rest)

  -- `sync_top25`; `none` is an element that does not validate.
  unfoldable pub sync_top25 : List (Option GammaMarket) → Action (List Synced)
  unfolding ◌>>=◌ pure upsert_one_market
  sync_top25 [] = pure []
  sync_top25 (none ∷ raw) = sync_top25 raw
  sync_top25 (some m ∷ raw) = do
    written ← upsert_one_market slugify decimal now m none none
    rest ← sync_top25 raw
    pure (count_in written rest)
