-- ===== src/Events/House.antt =====
-- `create_house_event` of backend/app/settlement/event_service.py: an admin makes an event.
-- `slugify` is the package python-slugify.
pub mod Edit
pub mod Children
pub mod Created
use Prim.Native.String.{◌++◌ as ◌++ₛ◌}
use xpredict.Prelude.{
  ℕ, ⊤, Bool, true, false, ◌||◌, not, String, Option, none, some, List, [], ◌∷◌, ◌++◌, map, length,
  ◌==◌, if◌then◌else◌, is_text, where_rows, any,
}
use xpredict.Money.Errors.{
  ok, err, unique_violation, unbound_local_error, http_exception, assertion_error,
}
use xpredict.Database.Rows.{Db, Market, MarketGroup, house, open_status, event_created}
use xpredict.Session.{
  Action, pure, raise, gets, modify, or_raise, raise_if, uuid4, on_unique_violation, begin, ◌>>=◌,
  ◌>>◌,
}
use xpredict.Wallet.{same_id}
use xpredict.Ledger.{record_audit}
use xpredict.Markets.{is_given, given_or}
use xpredict.Markets.Creation.{generate_slug, insert_market, binary_outcomes}
use xpredict.Events.{group?, group_slug_taken, children_of}

-- `OutcomeInput`, after its validators: the odds are more than 0 and less than 1000000.
pub record OutcomeInput : Type 0 where
  pub label : String
  pub initial_odds : ℕ

-- `CreateEventRequest`, after its validators.
pub record CreateEventRequest : Type 0 where
  pub title : String
  pub category : Option String
  pub deadline : ℕ
  pub resolution_criteria : Option String
  pub slug : Option String
  pub outcomes : List OutcomeInput

-- `text or default`
abbrev pub text_or_default : Option String → String → String
text_or_default none default = default
text_or_default (some text) default = if is_text text then text else default

-- `_DEFAULT_EVENT_CHILD_CRITERIA`
abbrev pub default_event_child_criteria : String
default_event_child_criteria =
    "Resolves YES if this outcome occurs, per the event's official source."

abbrev pub child_question : String → String → String
child_question title label = title ++ₛ " — " ++ₛ label ++ₛ "?"

-- What the children of an event share.
pub record ChildTerms : Type 0 where
  pub group : MarketGroup
  pub deadline : ℕ
  pub category : Option String
  pub resolution_criteria : Option String

-- The rows that `_add_event_child` writes.
abbrev pub event_child : ChildTerms → OutcomeInput → String → ℕ → ℕ → ℕ → Market
event_child terms outcome slug id yes_id no_id = record {
  id = id;
  question = child_question terms.group.title outcome.label;
  slug = slug;
  resolution_criteria = text_or_default terms.resolution_criteria default_event_child_criteria;
  category = terms.category;
  source = house;
  source_market_id = none;
  condition_id = none;
  polymarket_slug = none;
  volume = 0;
  volume_24hr = 0;
  status = open_status;
  deadline = terms.deadline;
  bet_count = 0;
  closed_at = none;
  uma_resolved_at = none;
  group_id = some terms.group.id;
  group_item_title = some outcome.label;
  outcomes = binary_outcomes yes_id no_id outcome.initial_odds;
  min_stake = none;
  max_stake = none;
  winning_outcome_id = none;
  resolution_source = none;
  resolution_justification = none;
  resolved_at = none;
}

abbrev pub house_group : ℕ → String → CreateEventRequest → MarketGroup
house_group id slug body = record {
  id = id;
  title = body.title;
  source = house;
  source_event_id = none;
  category = body.category;
  slug = slug;
}

-- INSERT INTO market_groups
unfoldable pub insert_house_group : MarketGroup → Action ⊤
insert_house_group g s =
    if group_slug_taken g.slug s.groups
    then (err unique_violation, s)
    else (ok tt, record s { groups = s.groups ++ g ∷ [] })

-- The loop over three attempts. `session.begin_nested()` flushes what is pending before it opens
-- the SAVEPOINT, so a clash of slugs is raised by it: `nested` is not set yet when the handler
-- reads it, and there is no second attempt.
abbrev pub flush_group : MarketGroup → Action ⊤
flush_group g = on_unique_violation (insert_house_group g) (raise unbound_local_error)

abbrev pub created_terms : CreateEventRequest → MarketGroup → ChildTerms
created_terms body group = record {
  group = group;
  deadline = body.deadline;
  category = body.category;
  resolution_criteria = body.resolution_criteria;
}

module _ (slugify : String → String) where
  -- `_add_event_child`; its outcomes, which a second flush inserts, are part of the row.
  unfoldable pub add_event_child : ChildTerms → OutcomeInput → Action Market
  unfolding ◌>>=◌ uuid4 insert_market pure
  add_event_child terms outcome = do
    suffix ← uuid4
    id ← uuid4
    yes_id ← uuid4
    no_id ← uuid4
    slug ← pure (generate_slug slugify (terms.group.title ++ₛ " " ++ₛ outcome.label) suffix)
    insert_market (event_child terms outcome slug id yes_id no_id)
    pure (event_child terms outcome slug id yes_id no_id)

  unfoldable pub add_event_children : ChildTerms → List OutcomeInput → Action (List Market)
  unfolding ◌>>=◌ add_event_child pure
  add_event_children terms [] = pure []
  add_event_children terms (outcome ∷ outcomes) = do
    child ← add_event_child terms outcome
    rest ← add_event_children terms outcomes
    pure (child ∷ rest)

  -- The suffix is drawn even when the request has a slug; no row gets its number.
  add_group : CreateEventRequest → Action MarketGroup
  unfolding ◌>>=◌ uuid4 insert_house_group on_unique_violation pure raise
  add_group body = do
    suffix ← uuid4
    id ← uuid4
    group ←
        pure (
          house_group id (text_or_default body.slug (generate_slug slugify body.title suffix)) body)
    flush_group group
    pure group

  add_children : ℕ → CreateEventRequest → MarketGroup → Action (MarketGroup × List Market)
  unfolding ◌>>=◌ add_event_children record_audit pure
  add_children admin body group = do
    children ← add_event_children (created_terms body group) body.outcomes
    record_audit (some admin) (event_created group.id body.title (length body.outcomes))
    pure (group, children)

  -- `create_house_event`: the group and its children.
  unfoldable pub create_house_event : ℕ → CreateEventRequest → Action (MarketGroup × List Market)
  unfolding ◌>>=◌ begin add_group add_children
  create_house_event admin body = begin (add_group body >>= add_children admin body)
