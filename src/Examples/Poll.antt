-- ===== src/Examples/Poll.antt =====
-- The theorem on the poll of backend/app/integrations/polymarket/tasks.py, on two categories.
use xpredict.Prelude.{
  ℕ, ◌≡◌, refl, String, text_eq, if◌then◌else◌, none, some, [], ◌∷◌, Option, List, All,
}
use xpredict.Prelude.Int.{pos}
use xpredict.Money.Errors.{Result, ok, err, value_error}
use xpredict.Polymarket.Gamma.{GammaEvent, CategoryEntry}
use xpredict.Polymarket.Upsert.{Price, number}
use xpredict.Polymarket.Poll.{PollSettings, run_poll_events}
use xpredict.Polymarket.Poll.Curation.{IsBig, DistinctEvents}
use xpredict.Polymarket.Poll.Batches.{batches, events_of, sync_batches, run_poll_events_curated}
use xpredict.Examples.Data.{seeded}

abbrev event : String → ℕ → GammaEvent
event name volume = record {
  id = name;
  title = name;
  volume_24hr = volume;
  markets = [];
  tag_ids = [];
}

abbrev politics : List (Option GammaEvent)
politics = some (event "a" 70) ∷ none ∷ some (event "b" 3) ∷ some (event "c" 9) ∷ []

abbrev sports : List (Option GammaEvent)
sports = some (event "c" 9) ∷ some (event "b" 80) ∷ some (event "d" 5) ∷ []

-- The third category cannot be fetched.
abbrev fetch : String → Result (List (Option GammaEvent))
fetch tag =
    if text_eq tag "1" then ok politics else if text_eq tag "2" then ok sports else err value_error

abbrev category : String → String → CategoryEntry
category tag title = record { tag_id = tag; name = title }

abbrev categories : List CategoryEntry
categories = category "1" "Politics" ∷ category "3" "Crypto" ∷ category "2" "Sports" ∷ []

abbrev settings : PollSettings
settings = record { volume_floor = 5; events_top_n = 10 }

abbrev same_text : String → String
same_text text = text

abbrev one : String → Price
one text = number (pos 1)

batches_run :
    batches settings fetch [] categories
    ≡ (category "1" "Politics", event "a" 70 ∷ event "c" 9 ∷ [])
      ∷ (category "3" "Crypto", [])
      ∷ (category "2" "Sports", event "d" 5 ∷ [])
      ∷ []
batches_run = refl

run_poll_events_curated_example :
    (run_poll_events same_text one 30 settings fetch categories seeded
      ≡ sync_batches same_text one 30 settings fetch
          (batches settings fetch [] categories)
          ([], seeded))
    × DistinctEvents (events_of (batches settings fetch [] categories))
    × All (IsBig settings) (events_of (batches settings fetch [] categories))
run_poll_events_curated_example =
    run_poll_events_curated same_text one 30 settings fetch categories seeded
