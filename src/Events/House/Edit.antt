-- ===== src/Events/House/Edit.antt =====
-- `update_house_event` and `event_has_bets` of backend/app/settlement/event_service.py, and
-- `update_event` of backend/app/settlement/event_router.py: an admin edits an event.
pub mod Locked
pub mod Replaced
use xpredict.Prelude.{
  ℕ, not, String, Option, none, some, List, [], ◌∷◌, map, ◌==◌, if◌then◌else◌, where_rows, any, ⊤,
  Bool, true, false,
}
use xpredict.Money.Errors.{http_exception, assertion_error}
use xpredict.Database.Rows.{Db, Market, MarketGroup, OddsSnapshot, Bet}
use xpredict.Session.{Action, pure, gets, modify, or_raise, raise_if, begin, ◌>>=◌, ◌>>◌}
use xpredict.Wallet.{same_id}
use xpredict.Markets.{is_given, given_or}
use xpredict.Events.{group?, children_of}
use xpredict.Events.House.{OutcomeInput, child_question, ChildTerms, add_event_children}

-- `UpdateEventRequest`, after its validators.
pub record UpdateEventRequest : Type 0 where
  pub title : Option String
  pub category : Option String
  pub deadline : Option ℕ
  pub outcomes : Option (List OutcomeInput)

abbrev edited_group : UpdateEventRequest → MarketGroup → MarketGroup
edited_group body g = record g {
  title = given_or body.title g.title;
  category = if is_given body.category then body.category else g.category;
}

abbrev put_group : MarketGroup → List MarketGroup → List MarketGroup
put_group g [] = []
put_group g (x ∷ xs) = let rest = put_group g xs in if x.id == g.id then g ∷ rest else x ∷ rest

-- `f"{child.group_item_title}"`
abbrev item_text : Option String → String
item_text none = "None"
item_text (some title) = title

abbrev retitled : Option String → Market → String
retitled none m = m.question
retitled (some title) m = child_question title (item_text m.group_item_title)

abbrev edited_child : UpdateEventRequest → Market → Market
edited_child body m = record m {
  category = if is_given body.category then body.category else m.category;
  deadline = given_or body.deadline m.deadline;
  question = retitled body.title m;
}

abbrev edit_children : UpdateEventRequest → ℕ → List Market → List Market
edit_children body g ms =
    map (λ (m : Market). if same_id m.group_id g then edited_child body m else m) ms

-- The markets go with their outcomes; the points of their price histories go too.
abbrev pub without_children : ℕ → Db → Db
without_children g s = record s {
  markets = where_rows (λ (m : Market). not (same_id m.group_id g)) s.markets;
  odds_snapshots =
      where_rows
        (λ (p : OddsSnapshot).
          not (any (where_rows (λ (m : Market). m.id == p.market_id) (children_of g s))))
        s.odds_snapshots;
}

-- `children[0].deadline if children else None`
abbrev existing_deadline : List Market → Option ℕ
existing_deadline [] = none
existing_deadline (m ∷ ms) = some m.deadline

abbrev deadline_or : Option ℕ → Option ℕ → Option ℕ
deadline_or none old = old
deadline_or (some new) old = some new

abbrev pub replaced_terms : MarketGroup → ℕ → ChildTerms
replaced_terms group deadline = record {
  group = group;
  deadline = deadline;
  category = group.category;
  resolution_criteria = none;
}

module _ (slugify : String → String) where
  -- The outcomes that the request gives replace the children; `old` are the children before.
  unfoldable pub edit_outcomes :
      ℕ
      → UpdateEventRequest
      → MarketGroup
      → List Market
      → Option (List OutcomeInput)
      → Action (List Market)
  unfolding ◌>>=◌ modify add_event_children gets
  edit_outcomes g body group old none = do
    modify (λ s. record s { markets = edit_children body g s.markets })
    gets (children_of g)
  edit_outcomes g body group old (some outcomes) = do
    modify (without_children g)
    deadline ← or_raise (deadline_or body.deadline (existing_deadline old)) assertion_error
    add_event_children slugify (replaced_terms group deadline) outcomes

  edit_event : ℕ → UpdateEventRequest → MarketGroup → Action (MarketGroup × List Market)
  unfolding ◌>>=◌ gets modify edit_outcomes pure
  edit_event g body group = do
    old ← gets (children_of g)
    modify (λ s. record s { groups = put_group (edited_group body group) s.groups })
    children ← edit_outcomes g body (edited_group body group) old body.outcomes
    pure (edited_group body group, children)

  -- `update_house_event`, and the children that the reload finds.
  unfoldable pub update_house_event : ℕ → UpdateEventRequest → Action (MarketGroup × List Market)
  unfolding ◌>>=◌ gets edit_event
  update_house_event g body = do
    found ← gets (λ s. group? g s.groups)
    group ← or_raise found (http_exception 404)
    edit_event g body group

-- `event_has_bets`
abbrev pub event_has_bets : ℕ → Db → Bool
event_has_bets g s = any (
    where_rows
      (λ (b : Bet). any (where_rows (λ (m : Market). m.id == b.market_id) (children_of g s)))
      s.bets)

-- `update_event`, on the request's session
unfoldable pub checked_edit :
    (String → String) → ℕ → UpdateEventRequest → Action (MarketGroup × List Market)
unfolding ◌>>=◌ gets raise_if update_house_event
checked_edit slugify g body = do
  found ← gets (λ s. group? g s.groups)
  group ← or_raise found (http_exception 404)
  locked ← gets (event_has_bets g)
  raise_if locked (http_exception 423)
  update_house_event slugify g body

-- PATCH /admin/events/{group_id}
unfoldable pub patch_event :
    (String → String) → ℕ → UpdateEventRequest → Action (MarketGroup × List Market)
unfolding begin checked_edit
patch_event slugify g body = begin (checked_edit slugify g body)
