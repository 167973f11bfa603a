-- ===== src/Polymarket/Poll/Batches.antt =====
-- The batches of a cycle of `_run_poll_events` (backend/app/integrations/polymarket/tasks.py).
use xpredict.Prelude.{
  ℕ, ◌≡◌, refl, false, String, Option, [], ◌∷◌, ◌++◌, List, All, All-append, arith,
}
use xpredict.Money.Errors.{Result}
use xpredict.Database.Rows.{Db}
use xpredict.Polymarket.Gamma.{GammaEvent, CategoryEntry, is_in}
use xpredict.Polymarket.Upsert.{Price, Synced}
use xpredict.Polymarket.Poll.{
  PollSettings, Cycle, category_events, sync_curated, poll_each, poll_category, poll_answer,
  run_poll_events,
}
use xpredict.Polymarket.Poll.Curation.{
  IsFresh, IsBig, NotIn, event_ids, DistinctEvents, NotIn-ids, NotIn-weaken,
  category_events-Curates,
}

-- The events of two categories.
DistinctEvents-append :
    (events rest : List GammaEvent)
    → DistinctEvents events
    → DistinctEvents rest
    → NotIn (event_ids events) rest
    → DistinctEvents (events ++ rest)
DistinctEvents-append [] rest d k n = k
DistinctEvents-append (e ∷ events) rest (once, d) k n = (
  is_in-append e.id events rest once (NotIn-ids e.id (event_ids events) rest n),
  DistinctEvents-append events rest d k
      (NotIn-weaken (event_ids events) (e.id ∷ event_ids events) rest (λ x h. ground (arith, h)) n),
)
  where
    is_in-append :
        (x : String) (events rest : List GammaEvent)
        → is_in x (event_ids events) ≡ false
        → is_in x (event_ids rest) ≡ false
        → is_in x (event_ids (events ++ rest)) ≡ false
    is_in-append x [] rest h k = k
    is_in-append x (f ∷ fs) rest h k = ground (arith, h, k, is_in-append x fs rest)

-- The categories of a cycle in turn, each with the events that are left of it after those before
-- it have taken theirs.
abbrev pub batches :
    PollSettings
    → (String → Result (List (Option GammaEvent)))
    → List String
    → List CategoryEntry
    → List (CategoryEntry × List GammaEvent)
batches settings fetch seen [] = []
batches settings fetch seen (entry ∷ entries) =
    let (events, taken) = category_events settings seen (fetch entry.tag_id) in
    (entry, events) ∷ batches settings fetch taken entries

abbrev pub events_of : List (CategoryEntry × List GammaEvent) → List GammaEvent
events_of [] = []
events_of ((entry, events) ∷ rest) = events ++ events_of rest

abbrev cycle_events :
    PollSettings
    → (String → Result (List (Option GammaEvent)))
    → List String
    → List CategoryEntry
    → List GammaEvent
cycle_events settings fetch seen entries = events_of (batches settings fetch seen entries)

cycle_events-Curates :
    (settings : PollSettings) (fetch : String → Result (List (Option GammaEvent)))
    (seen : List String) (entries : List CategoryEntry)
    → NotIn seen (cycle_events settings fetch seen entries)
      × DistinctEvents (cycle_events settings fetch seen entries)
      × All (IsBig settings) (cycle_events settings fetch seen entries)
cycle_events-Curates settings fetch seen [] = (tt, tt, tt)
cycle_events-Curates settings fetch seen (entry ∷ entries) =
    let answer = fetch entry.tag_id in
    let events = (category_events settings seen answer).0 in
    let taken = (category_events settings seen answer).1 in
    let rest = cycle_events settings fetch taken entries in
    let c = category_events-Curates settings seen answer in
    let (fresh, distinct, big) = cycle_events-Curates settings fetch taken entries in
    (
      All-append (IsFresh seen) events rest c.fresh (NotIn-weaken seen taken rest c.grows fresh),
      DistinctEvents-append events rest c.distinct distinct
          (NotIn-weaken (event_ids events) taken rest c.inside fresh),
      All-append (IsBig settings) events rest c.big big,
    )

module _ (slugify : String → String) (decimal : String → Price) (now : ℕ) (settings : PollSettings)
    (fetch : String → Result (List (Option GammaEvent))) where
  -- Every batch is a transaction of its own.
  abbrev pub sync_batches :
      List (CategoryEntry × List GammaEvent) → List Synced × Db → List Synced × Db
  sync_batches [] r = r
  sync_batches ((entry, events) ∷ rest) (changed, s) =
      let (new, s') = sync_curated slugify decimal now settings fetch entry.name events s in
      sync_batches rest (changed ++ new, s')

  poll_each-batches :
      (entries : List CategoryEntry) (c : Cycle)
      → (
        (poll_each slugify decimal now settings fetch entries c).changed,
        (poll_each slugify decimal now settings fetch entries c).db,
      )
        ≡ sync_batches (batches settings fetch c.seen entries) (c.changed, c.db)
  unfolding poll_each poll_category poll_answer
  poll_each-batches [] c = refl
  poll_each-batches (entry ∷ entries) c =
      poll_each-batches entries (poll_category slugify decimal now settings fetch entry c)

  -- A cycle synchronises batches of events, one for each category in turn, as transactions of
  -- their own. No event is in the batches twice, not even under two categories, and none whose
  -- volume of the last day is below the floor.
  pub run_poll_events_curated :
      (categories : List CategoryEntry) (s : Db)
      → (run_poll_events slugify decimal now settings fetch categories s
          ≡ sync_batches (batches settings fetch [] categories) ([], s))
        × DistinctEvents (events_of (batches settings fetch [] categories))
        × All (IsBig settings) (events_of (batches settings fetch [] categories))
  unfolding run_poll_events
  run_poll_events_curated categories s =
      let (_, distinct, big) = cycle_events-Curates settings fetch [] categories in
      (poll_each-batches categories (record { seen = []; changed = []; db = s }), distinct, big)
