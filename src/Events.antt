-- ===== src/Events.antt =====
-- backend/app/settlement/event_service.py: resolving, voiding and reversing a house event, by one
-- settlement for each child market, each on a session of its own. `now` is `datetime.now(UTC)`.
pub mod Status
pub mod Soundness
pub mod Reversal
pub mod House
use xpredict.Prelude.{
  ℕ, ◌-◌, ⊤, String, Bool, true, false, ◌&&◌, ◌||◌, not, text_eq, Option, none, some, List, [], ◌∷◌,
  ◌++◌, map, ltb, ◌==◌, if◌then◌else◌, where_rows, any, length, is_yes, is_blank,
}
use xpredict.Money.Errors.{Result, ok, err, value_error}
use xpredict.Database.Rows.{
  Db, Market, MarketGroup, MarketSource, polymarket, MarketStatus, resolved, Outcome, AuditEvent,
  event_resolved, event_voided, event_reversed,
}
use xpredict.Session.{Action, pure, raise, gets, scalar_one, or_raise, begin, ◌>>=◌, ◌>>◌, raise_if}
use xpredict.Wallet.{same_id}
use xpredict.Ledger.{record_audit}
use xpredict.Settlement.Port.{house_adapter}
use xpredict.Settlement.Service.{resolve_market, reverse_settlement}

pub record ChildStatus : Type 0 where
  pub status : MarketStatus
  pub is_yes_winner : Bool

pub data EventStatus : Type 0 where
  open_event partially_resolved resolved_event void : EventStatus

pub record EventSettleResult : Type 0 where
  pub group_id : ℕ
  pub child_count : ℕ
  pub children_settled : ℕ
  pub children_failed : List ℕ
  pub status : EventStatus

abbrev pub is_resolved : MarketStatus → Bool
is_resolved resolved = true
is_resolved _ = false

unfoldable pub derive_event_status : List ChildStatus → EventStatus
derive_event_status [] = open_event
derive_event_status (c ∷ cs) =
    let children = c ∷ cs in
    let done = where_rows (λ (d : ChildStatus). is_resolved d.status) children in
    if length done == 0
    then open_event
    else if ltb (length done) (length children)
    then partially_resolved
    else if any (where_rows (λ (d : ChildStatus). d.is_yes_winner) done)
    then resolved_event
    else void

unfoldable pub group? : ℕ → List MarketGroup → Option MarketGroup
group? x [] = none
group? x (g ∷ rest) = if g.id == x then some g else group? x rest

-- `market_groups.slug` is UNIQUE.
abbrev pub group_slug_taken : String → List MarketGroup → Bool
group_slug_taken slug [] = false
group_slug_taken slug (g ∷ gs) = text_eq g.slug slug || group_slug_taken slug gs

abbrev pub children_of : ℕ → Db → List Market
children_of group_id s = where_rows (λ (m : Market). same_id m.group_id group_id) s.markets

-- `_yes_outcome_id` and `_no_outcome_id`
unfoldable pub yes_outcome_id : Market → Action ℕ
unfolding ◌>>=◌ scalar_one
yes_outcome_id m = do
  o ← scalar_one (where_rows (λ (o : Outcome). is_yes o.label) m.outcomes)
  pure o.id

unfoldable pub no_outcome_id : Market → Action ℕ
unfolding ◌>>=◌ scalar_one
no_outcome_id m = do
  o ← scalar_one (where_rows (λ (o : Outcome). not (is_yes o.label)) m.outcomes)
  pure o.id

-- `_require_justification`
unfoldable pub require_justification : String → Action ⊤
unfolding raise_if
require_justification text = raise_if (is_blank text) value_error

abbrev pub is_polymarket : MarketSource → Bool
is_polymarket polymarket = true
is_polymarket _ = false

-- `_reject_if_mirrored`
unfoldable pub reject_if_mirrored : MarketGroup → Action ⊤
unfolding raise_if
reject_if_mirrored g = raise_if (is_polymarket g.source) value_error

-- `_load_group_with_children`, for a house event; the guards that the three operations share.
house_children : ℕ → MarketGroup → Action (List Market)
unfolding ◌>>=◌ reject_if_mirrored
house_children group_id group = do reject_if_mirrored group; gets (children_of group_id)

unfoldable pub load_house_event : ℕ → String → Action (List Market)
unfolding ◌>>=◌ require_justification house_children
load_house_event group_id text = do
  require_justification text
  found ← gets (λ s. group? group_id s.groups)
  group ← or_raise found value_error
  house_children group_id group

-- `sorted(…, key=lambda m: str(m.id))`
abbrev insert_market : Market → List Market → List Market
insert_market m [] = m ∷ []
insert_market m (n ∷ ns) =
    let rest = insert_market m ns in if ltb n.id m.id then n ∷ rest else m ∷ n ∷ ns

unfoldable pub by_id : List Market → List Market
by_id [] = []
by_id (m ∷ ms) = insert_market m (by_id ms)

-- The children with an outcome of id `w`, once for each such outcome.
unfoldable pub owners : ℕ → List Market → List Market
owners w [] = []
owners w (m ∷ ms) = map (λ _. m) (where_rows (λ (o : Outcome). o.id == w) m.outcomes) ++ owners w ms

-- The only one, or ValueError.
only_owner : List Market → Action Market
only_owner (m ∷ []) = pure m
only_owner _ = raise value_error

-- Each child with its NO outcome.
unfoldable pub with_no_outcome : List Market → Action (List (ℕ × ℕ))
unfolding ◌>>=◌ no_outcome_id
with_no_outcome [] = pure []
with_no_outcome (m ∷ ms) = do
  o ← no_outcome_id m
  rest ← with_no_outcome ms
  pure ((m.id, o) ∷ rest)

-- The children and outcomes of `resolve_event`: the winner first, then the others by id.
unfoldable pub plan_resolution : ℕ → ℕ → String → Action (List (ℕ × ℕ))
unfolding ◌>>=◌ load_house_event only_owner yes_outcome_id raise_if with_no_outcome
plan_resolution group_id winning_outcome_id text = do
  children ← load_house_event group_id text
  winner ← only_owner (owners winning_outcome_id children)
  yes_id ← yes_outcome_id winner
  raise_if (not (winning_outcome_id == yes_id)) value_error
  losers ← with_no_outcome (by_id (where_rows (λ (m : Market). not (m.id == winner.id)) children))
  pure ((winner.id, winning_outcome_id) ∷ losers)

-- The next child goes on whether this one returned or raised; one that raised is noted.
abbrev pub note_failure : {A : Type 0} → ℕ → Action (List ℕ) → Result A × Db → Result (List ℕ) × Db
note_failure m rest (ok a, s) = rest s
note_failure m rest (err e, s) = (rest >>= λ failed. pure (m ∷ failed)) s

-- `_settle_children`
unfoldable pub settle_children : ℕ → String → Option ℕ → List (ℕ × ℕ) → Action (List ℕ)
unfolding ◌>>=◌ resolve_market
settle_children now text actor [] s = pure [] s
settle_children now text actor ((m, o) ∷ children) s =
    note_failure m (settle_children now text actor children)
      (resolve_market (house_adapter now) m o text actor s)

-- `_reverse_children`
unfoldable pub reverse_children : ℕ → String → Option ℕ → List ℕ → Action (List ℕ)
unfolding ◌>>=◌ reverse_settlement
reverse_children now text actor [] s = pure [] s
reverse_children now text actor (m ∷ children) s =
    note_failure m (reverse_children now text actor children)
      (reverse_settlement (house_adapter now) m text actor s)

abbrev first_outcome_id : List Outcome → Option ℕ
first_outcome_id [] = none
first_outcome_id (o ∷ os) = some o.id

-- The persisted winner is the child's YES outcome.
abbrev won_yes : Option ℕ → Option ℕ → Bool
won_yes none yes_id = false
won_yes (some w) yes_id = same_id yes_id w

abbrev pub child_status : Market → ChildStatus
child_status m = record {
  status = m.status;
  is_yes_winner =
      won_yes m.winning_outcome_id
        (first_outcome_id (where_rows (λ (o : Outcome). is_yes o.label) m.outcomes));
}

-- `_derive_status`
unfoldable pub derive_status : ℕ → Db → EventStatus
unfolding derive_event_status
derive_status group_id s = derive_event_status (map child_status (children_of group_id s))

-- `_record_event_audit` and the result.
unfoldable pub finish_event : ℕ → Option ℕ → AuditEvent → ℕ → List ℕ → Action EventSettleResult
unfolding ◌>>=◌ begin record_audit derive_status
finish_event group_id actor event child_count failed = do
  begin (record_audit actor event)
  status ← gets (derive_status group_id)
  pure (record {
    group_id = group_id;
    child_count = child_count;
    children_settled = child_count - length failed;
    children_failed = failed;
    status = status;
  })

unfoldable pub resolve_event : ℕ → ℕ → ℕ → String → Option ℕ → Action EventSettleResult
unfolding ◌>>=◌ plan_resolution settle_children finish_event
resolve_event now group_id winning_outcome_id text actor = do
  ordered ← plan_resolution group_id winning_outcome_id text
  failed ← settle_children now text actor ordered
  finish_event group_id actor
      (event_resolved group_id winning_outcome_id (length ordered) failed text) (length ordered)
      failed

unfoldable pub void_event : ℕ → ℕ → String → Option ℕ → Action EventSettleResult
unfolding ◌>>=◌ load_house_event with_no_outcome settle_children finish_event
void_event now group_id text actor = do
  children ← load_house_event group_id text
  ordered ← with_no_outcome (by_id children)
  failed ← settle_children now text actor ordered
  finish_event group_id actor (event_voided group_id (length ordered) failed text) (length ordered)
      failed

unfoldable pub reverse_event : ℕ → ℕ → String → Option ℕ → Action EventSettleResult
unfolding ◌>>=◌ load_house_event reverse_children finish_event
reverse_event now group_id text actor = do
  children ← load_house_event group_id text
  failed ← reverse_children now text actor (map (λ m. m.id) (by_id children))
  finish_event group_id actor (event_reversed group_id (length children) failed text)
      (length children) failed
