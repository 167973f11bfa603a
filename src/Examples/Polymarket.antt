-- ===== src/Examples/Polymarket.antt =====
-- The theorems on backend/app/integrations/polymarket, on one mirrored market.
use xpredict.Prelude.{
  ℕ, ◌+◌, ◌≡◌, refl, String, none, some, true, false, Bool, [], ◌∷◌, Option, ◌↔◌, ◌⊎◌, arith,
  first_chars, text_eq, if◌then◌else◌, hex6, ltb, ◌≤◌, ◌<◌, ap, All,
}
use xpredict.Prelude.Int.{pos, negsuc}
use xpredict.Money.Errors.{ok}
use xpredict.Database.Rows
use xpredict.Database.Rows.{Db, Market, MarketStatus, resolved}
use xpredict.Settlement.Port.{house_adapter}
use xpredict.Settlement.Service.{resolve_market}
use xpredict.Polymarket.Upsert.{Price, number, Synced, mirrored?, upsert_one_market}
use xpredict.Polymarket.Upsert.Status.{synced_resolved_never_detected}
use xpredict.Polymarket.Sync.{sync_event}
use xpredict.Polymarket.Sync.Traces.{sync_event_leaves_no_trace}
use xpredict.Polymarket.Locks.{Redis, Run, Workers, start, Reach, here, next, starts, passes}
use xpredict.Polymarket.Locks.Exclusion.{poll_lock_excludes}
use xpredict.Polymarket.Gamma.{
  GammaEvent, GammaMarket, derive_status, internal_status, has_winner, derive_status_correct,
}
use xpredict.Polymarket.Winner.{Answer, market, map_winning_outcome_id}
use xpredict.Polymarket.Detect.{
  is_candidate, detect_candidate, run_detect_resolutions, stamp, auto_text,
}
use xpredict.Polymarket.Detect.Cases.{Starts, Settles, detect_candidate_cases}
use xpredict.Polymarket.Detect.Ticks.{two_ticks_settle}
use xpredict.Examples.Data.{rain_market, seeded}

derive_status_correct_example :
    (derive_status true (some "proposed") ("1" ∷ "0" ∷ []) ≡ resolved) ↔ (
      (◌≡◌ {A = Option String} (some "proposed") (some "resolved"))
      × ((true ≡ false) ⊎ (has_winner ("1" ∷ "0" ∷ []) ≡ true)))
derive_status_correct_example = derive_status_correct true (some "proposed") ("1" ∷ "0" ∷ [])

abbrev mirrored_market : Market
mirrored_market = record rain_market {
  source = Rows.polymarket;
  source_market_id = some "77";
  deadline = 10;
}

abbrev mirrored : Db
mirrored = record seeded { markets = mirrored_market ∷ [] }

abbrev final_answer : GammaMarket
final_answer = record {
  id = "77";
  question = "Rain?";
  slug = "rain";
  condition_id = "";
  outcomes_raw = "YES" ∷ "NO" ∷ [];
  outcome_prices_raw = "0" ∷ "1" ∷ [];
  volume = 0;
  volume_24hr = 0;
  closed = true;
  uma_resolution_status = some "resolved";
  end_date = none;
  description = "";
  group_item_title = none;
}

abbrev gamma : String → Answer
gamma source_id = market final_answer

detect_candidate_cases_example :
    ((detect_candidate 20 1800 gamma mirrored_market mirrored).1 ≡ mirrored)
    ⊎ (Starts 20 mirrored_market mirrored
          (detect_candidate 20 1800 gamma mirrored_market mirrored).1
        ⊎ Settles 20 1800 gamma mirrored_market mirrored
            (detect_candidate 20 1800 gamma mirrored_market mirrored).1)
detect_candidate_cases_example = detect_candidate_cases 20 1800 gamma mirrored_market mirrored

final_status : internal_status final_answer ≡ resolved
unfolding derive_status
final_status = refl

winner_known :
    map_winning_outcome_id ("0" ∷ "1" ∷ []) ("YES" ∷ "NO" ∷ []) mirrored_market.outcomes ≡ ok 502
unfolding map_winning_outcome_id first_chars
winner_known = refl

two_ticks_settle_example :
    run_detect_resolutions 2000 1800 gamma (run_detect_resolutions 20 1800 gamma mirrored)
    ≡ (resolve_market
        (house_adapter 2000)
        500
        502
        auto_text
        none
        (record mirrored { markets = stamp 20 500 mirrored.markets })).1
two_ticks_settle_example =
    two_ticks_settle 20 2000 1800 gamma gamma mirrored_market mirrored "77" final_answer
      final_answer 502 refl refl refl refl refl final_status refl final_status winner_known
      (omega arith)

-- Prices of Gamma are texts: this reads "1" and "-1", and takes any other text for 0.
abbrev decimal : String → Price
decimal price =
    if text_eq price "1"
    then number (pos 1000000)
    else if text_eq price "-1"
    then number (negsuc 999999)
    else number (pos 0)

abbrev same_slug : String → String
same_slug title = title

abbrev rain_synced : Synced
rain_synced = record {
  market_id = 500;
  deltas = record { outcome_id = 501; odds = 0 } ∷ record { outcome_id = 502; odds = 1000000 } ∷ [];
}

abbrev synced : Db
synced = (upsert_one_market same_slug decimal 30 final_answer none none mirrored).1

upsert_runs :
    upsert_one_market same_slug decimal 30 final_answer none none mirrored
    ≡ (ok (some rain_synced), synced)
unfolding seeded upsert_one_market derive_status first_chars
upsert_runs = refl

synced_resolved_never_detected_example :
    (row : Market) × (mirrored? "77" synced.markets ≡ some row)
    × (row.id ≡ 500)
    × ((later : ℕ) → is_candidate later row ≡ false)
synced_resolved_never_detected_example =
    synced_resolved_never_detected same_slug decimal 30 final_answer none none mirrored rain_synced
      synced final_status upsert_runs

-- Two new markets with a negative price each.
abbrev bad_child : String → GammaMarket
bad_child id = record final_answer { id = id; slug = id; outcome_prices_raw = "-1" ∷ "1" ∷ [] }

abbrev bad_event : GammaEvent
bad_event = record {
  id = "e1";
  title = "snow";
  volume_24hr = 0;
  markets = bad_child "78" ∷ bad_child "79" ∷ [];
  tag_ids = [];
}

abbrev after_bad_event : Db
after_bad_event = (sync_event same_slug decimal 30 "Weather" bad_event mirrored).1

sync_event_runs :
    sync_event same_slug decimal 30 "Weather" bad_event mirrored ≡ (ok [], after_bad_event)
unfolding seeded sync_event derive_status first_chars hex6
sync_event_runs = refl

sync_event_leaves_no_trace_example : after_bad_event ≡ mirrored
sync_event_leaves_no_trace_example =
    sync_event_leaves_no_trace same_slug decimal 30 "Weather" bad_event mirrored after_bad_event
      sync_event_runs

-- A server with one key: its value and when it expires.
abbrev live_value : ℕ → Option (ℕ × ℕ) → Option ℕ
live_value now none = none
live_value now (some (value, expires)) = if ltb now expires then some value else none

abbrev set_if_free : ℕ → ℕ → ℕ → Option (ℕ × ℕ) → Option ℕ → Bool × Option (ℕ × ℕ)
set_if_free now token ttl s none = (true, some (token, now + ttl))
set_if_free now token ttl s (some v) = (false, s)

one_key-free :
    (now token ttl : ℕ) (s : Option (ℕ × ℕ)) (got : Option ℕ)
    → got ≡ none
    → ((set_if_free now token ttl s got).0 ≡ true)
      × ((t : ℕ)
          → now ≤ t
          → t < now + ttl
          → live_value t (set_if_free now token ttl s got).1 ≡ some token)
one_key-free now token ttl s none h = (refl, λ t later alive. ground (arith, alive))
one_key-free now token ttl s (some v) h = absurd (cc h)

abbrev one_key : Redis
one_key = record {
  Store = Option (ℕ × ℕ);
  get = live_value;
  set_nx_ex = λ now token ttl s. set_if_free now token ttl s (live_value now s);
  del = λ s. none;
  set-held = λ now token ttl s v h. ap (set_if_free now token ttl s) h;
  set-free = λ now token ttl s h. one_key-free now token ttl s (live_value now s) h;
}

abbrev idle : Workers one_key 25
idle = record { clock = 100; store = none; running = [] }

-- The second start comes while the lock of the first lasts, the third after it.
abbrev three_starts : Workers one_key 25
three_starts =
    start one_key 25 3
      (record (start one_key 25 2 (record (start one_key 25 1 idle) { clock = 110 })) {
        clock = 130;
      })

abbrev to_three_starts : Reach one_key 25 idle three_starts
unfolding start
to_three_starts =
    next (next (next (next (next here (starts 1)) (passes 10)) (starts 2)) (passes 20)) (starts 3)

poll_lock_excludes_example :
    All
      (λ (a : Run one_key 25).
        All
          (λ (b : Run one_key 25).
            three_starts.clock < a.deadline → three_starts.clock < b.deadline → a.token ≡ b.token)
          three_starts.running)
      three_starts.running
poll_lock_excludes_example = poll_lock_excludes one_key 25 idle three_starts refl to_three_starts
