-- ===== src/Examples/Events.antt =====
-- The theorems on backend/app/settlement/event_service.py, on small events.
use xpredict.Prelude.{◌≡◌, none, some, true, false, List, [], ◌∷◌, if◌then◌else◌}
use xpredict.Database.Rows
use xpredict.Database.Rows.{MarketGroup, Db, Market, MarketGroup, MarketStatus, Outcome}
use xpredict.Events.{
  ChildStatus, EventSettleResult, resolved_event, void, open_event, partially_resolved,
  derive_event_status, reverse_event,
}
use xpredict.Events.Status.{
  some_child, each_child, has_resolved, has_yes_winner, derive_event_status_correct,
}
use xpredict.Examples.Data.{seeded, rain_market}

abbrev half_done : List ChildStatus
half_done =
    record { status = MarketStatus.resolved; is_yes_winner = true }
    ∷ record { status = MarketStatus.open_status; is_yes_winner = false }
    ∷ []

derive_event_status_correct_example : derive_event_status half_done ≡ (
    if some_child has_resolved half_done
    then (if each_child has_resolved half_done
        then (if some_child has_yes_winner half_done then resolved_event else void)
        else partially_resolved)
    else open_event)
derive_event_status_correct_example = derive_event_status_correct half_done

-- A child of event 600 that was resolved on YES without bets.
abbrev done_child : Market
done_child = record rain_market {
  id = 601;
  question = "A?";
  slug = "a";
  status = MarketStatus.resolved;
  group_id = some 600;
  outcomes =
      record { id = 611; label = "YES"; initial_odds = 400000; current_odds = 400000 }
      ∷ record { id = 612; label = "NO"; initial_odds = 600000; current_odds = 600000 }
      ∷ [];
  winning_outcome_id = some 611;
  resolution_source = some Rows.house_admin;
  resolution_justification = some "A won";
  resolved_at = some 20;
}

abbrev event_group : Rows.MarketSource → MarketGroup
event_group source = record {
  id = 600;
  title = "A?";
  source = source;
  source_event_id = none;
  category = none;
  slug = "a-event";
}

abbrev with_event : Rows.MarketSource → Db
with_event source = record seeded { groups = event_group source ∷ []; markets = done_child ∷ [] }

abbrev reversal : EventSettleResult
reversal = record {
  group_id = 600;
  child_count = 1;
  children_settled = 1;
  children_failed = [];
  status = resolved_event;
}

abbrev after_reversal : Db
after_reversal = (reverse_event 30 600 "mistake" (some 9) (with_event Rows.house)).1
