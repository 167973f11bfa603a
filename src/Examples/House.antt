-- ===== src/Examples/House.antt =====
-- The theorems on making and editing an event (backend/app/settlement/event_service.py), on small
-- events.
use xpredict.Prelude.{ℕ, ◌+◌, ◌≡◌, refl, String, none, some, List, [], ◌∷◌, hex6}
use xpredict.Prelude.Int.{pos}
use xpredict.Money.Errors.{Result, ok, err, http_exception}
use xpredict.Database.Keys.{key_eq}
use xpredict.Database.Rows
use xpredict.Database.Rows.{Db, Market, MarketGroup, Bet, polymarket, money_limit}
use xpredict.Database.Tables.{account?, set_balance}
use xpredict.Wallet.{create_wallet, recharge, key_taken}
use xpredict.Settlement.Port.{market?}
use xpredict.Bets.{place_bet}
use xpredict.Bets.MarketPort.{house_read_adapter, outcome?}
use xpredict.Markets.Creation.{insert_market, generate_slug}
use xpredict.Events.{group?}
use xpredict.Events.House.{
  OutcomeInput, CreateEventRequest, ChildTerms, event_child, created_terms, insert_house_group,
  create_house_event,
}
use xpredict.Events.House.Created.{CreatedEvent, create_house_event_effect}
use xpredict.Events.House.Edit.{UpdateEventRequest, replaced_terms, patch_event}
use xpredict.Events.House.Edit.Locked.{bet_locks_event}
use xpredict.Events.House.Edit.Replaced.{Replaced, patch_event_replaces}
use xpredict.Examples.Data.{limits, seeded, recharged, rain_market}
use xpredict.Examples.Runs.{rain_bet}

abbrev same_text : String → String
same_text text = text

abbrev two_outcomes : List OutcomeInput
two_outcomes =
    record { label = "Sun"; initial_odds = 700000 }
    ∷ record { label = "Snow"; initial_odds = 300000 }
    ∷ []

abbrev weather_request : CreateEventRequest
weather_request = record {
  title = "Weather";
  category = none;
  deadline = 90;
  resolution_criteria = some "the gauge";
  slug = none;
  outcomes = two_outcomes;
}

abbrev made : Result (MarketGroup × List Market) × Db
made = create_house_event same_text 9 weather_request seeded

abbrev weather : MarketGroup
weather = record {
  id = 1001;
  title = "Weather";
  source = Rows.house;
  source_event_id = none;
  category = none;
  slug = "Weather-000000";
}

-- The first child draws the numbers from `n`.
abbrev two_children : ℕ → ChildTerms → List Market
two_children n terms =
    event_child terms (record { label = "Sun"; initial_odds = 700000 })
      (generate_slug same_text "Weather Sun" n) (n + 1) (n + 2) (n + 3)
    ∷ event_child terms (record { label = "Snow"; initial_odds = 300000 })
        (generate_slug same_text "Weather Snow" (n + 4)) (n + 5) (n + 6) (n + 7)
    ∷ []

abbrev weather_children : List Market
weather_children = two_children 1002 (created_terms weather_request weather)

create_event_runs : made ≡ (ok (weather, weather_children), made.1)
unfolding seeded create_house_event insert_market insert_house_group hex6
create_event_runs = refl

create_house_event_effect_example :
    CreatedEvent weather_request seeded weather weather_children made.1
create_house_event_effect_example =
    create_house_event_effect same_text 9 weather_request seeded weather weather_children made.1
      create_event_runs

-- Event 600, which is mirrored, with one child.
abbrev exchange_event : MarketGroup
exchange_event = record {
  id = 600;
  title = "Weather";
  source = polymarket;
  source_event_id = some "e1";
  category = some "Climate";
  slug = "pm-evt-weather";
}

abbrev rain_child : Market
rain_child = record rain_market { source = polymarket; group_id = some 600 }

abbrev new_outcomes : UpdateEventRequest
new_outcomes = record {
  title = none;
  category = none;
  deadline = some 95;
  outcomes = some two_outcomes;
}

abbrev mirrored : Db
mirrored = record recharged { groups = exchange_event ∷ []; markets = rain_child ∷ [] }

abbrev patched : Result (MarketGroup × List Market) × Db
patched = patch_event same_text 600 new_outcomes mirrored

abbrev new_children : List Market
new_children = two_children mirrored.next_id (replaced_terms exchange_event 95)

patch_event_runs : patched ≡ (ok (exchange_event, new_children), patched.1)
unfolding seeded create_wallet recharge key_taken key_eq account? set_balance money_limit
    patch_event group? insert_market hex6
patch_event_runs = refl

patch_event_replaces_example :
    Replaced 600 new_outcomes two_outcomes mirrored exchange_event new_children patched.1
patch_event_replaces_example =
    patch_event_replaces same_text 600 new_outcomes two_outcomes mirrored exchange_event
      new_children patched.1 refl patch_event_runs

abbrev child_bet : Db
child_bet = (place_bet house_read_adapter limits 10 7 500 501 (pos 200000) mirrored).1

child_row : market? 500 mirrored.markets ≡ some rain_child
unfolding seeded create_wallet recharge key_taken key_eq account? set_balance money_limit market?
child_row = refl

child_bet_runs :
    place_bet house_read_adapter limits 10 7 500 501 (pos 200000) mirrored
    ≡ (ok rain_bet, child_bet)
unfolding seeded create_wallet recharge place_bet house_read_adapter key_taken key_eq account?
    set_balance money_limit outcome? market?
child_bet_runs = refl

event_row : group? 600 child_bet.groups ≡ some exchange_event
unfolding seeded create_wallet recharge place_bet house_read_adapter key_taken key_eq account?
    set_balance money_limit outcome? market? group?
event_row = refl

bet_locks_event_example :
    patch_event same_text 600 new_outcomes child_bet ≡ (err (http_exception 423), child_bet)
bet_locks_event_example =
    bet_locks_event house_read_adapter limits 10 7 501 (pos 200000) rain_child 600 exchange_event
      mirrored rain_bet child_bet same_text new_outcomes child_row refl event_row child_bet_runs
