-- ===== src/Database/Rows.antt =====
-- The rows of the PostgreSQL tables that the services read and write: the models of
-- backend/app/wallet/models.py, backend/app/bets/models.py, backend/app/markets/models.py and
-- backend/app/core/audit/models.py, and the constants of backend/app/wallet/constants.py,
-- backend/app/bets/constants.py and backend/app/settlement/constants.py. A UUID is the number that
-- its 32 hexadecimal digits spell, so that sorting by `str` is sorting by number.
use xpredict.Prelude.{ℕ, ◌^◌, String, Option, List}
use xpredict.Database.Keys.{Key}

pub data OwnerType : Type 0 where
  system user market : OwnerType

pub data AccountKind : Type 0 where
  user_wallet house_promo house_revenue market_liability livebets_escrow : AccountKind

pub data TransferKind : Type 0 where
  recharge opening signup_bonus : TransferKind
  bet_placed close_stake_return close_winnings close_loss : TransferKind
  settle_stake_return settle_winnings settle_loss : TransferKind
  reverse_stake_return reverse_winnings reverse_loss : TransferKind
  livebets_placed livebets_stake_return livebets_winnings : TransferKind
  livebets_loss livebets_void_refund : TransferKind

pub data Direction : Type 0 where
  debit credit : Direction

-- HOUSE_PROMO_ACCOUNT_ID, HOUSE_REVENUE_ACCOUNT_ID, LIVEBETS_ESCROW_ACCOUNT_ID
abbrev pub house_promo_id : ℕ
house_promo_id = 0xa1

abbrev pub house_revenue_id : ℕ
house_revenue_id = 0xa2

abbrev pub livebets_escrow_id : ℕ
livebets_escrow_id = 0xb1

-- The first balance that NUMERIC(18, 4) cannot hold, in ticks.
unfoldable pub money_limit : ℕ
money_limit = 10 ^ 18

pub record Account : Type 0 where
  pub id : ℕ
  pub owner_type : OwnerType
  pub owner_id : Option ℕ
  pub kind : AccountKind
  pub balance : ℕ
  pub version : ℕ

-- What the callers put into the JSON column `metadata`.
pub data Metadata : Type 0 where
  empty : Metadata
  reason : String → Metadata
  placed : ℕ → ℕ → ℕ → Metadata
  bet_leg : ℕ → ℕ → Metadata
  livebets : ℕ → Metadata
  livebets_table : ℕ → Option ℕ → Metadata

pub record Transfer : Type 0 where
  pub id : ℕ
  pub kind : TransferKind
  pub idempotency_key : Option Key
  pub actor_user_id : Option ℕ
  pub metadata : Metadata

pub record Entry : Type 0 where
  pub transfer_id : ℕ
  pub account_id : ℕ
  pub direction : Direction
  pub amount : ℕ

pub data BetStatus : Type 0 where
  pending settled_won settled_lost closed : BetStatus

pub record Bet : Type 0 where
  pub id : ℕ
  pub user_id : ℕ
  pub market_id : ℕ
  pub outcome_id : ℕ
  pub stake : ℕ
  pub odds_at_placement : ℕ
  pub status : BetStatus
  pub closed_at : Option ℕ
  pub exit_odds : Option ℕ

pub data MarketStatus : Type 0 where
  draft open_status closed_status resolved cancelled : MarketStatus

pub data MarketSource : Type 0 where
  house polymarket : MarketSource

pub data ResolutionSource : Type 0 where
  house_admin polymarket_uma : ResolutionSource

pub record Outcome : Type 0 where
  pub id : ℕ
  pub label : String
  pub initial_odds : ℕ
  pub current_odds : ℕ

-- `MarketGroup`: an event, whose children are the markets with its `group_id`.
pub record MarketGroup : Type 0 where
  pub id : ℕ
  pub title : String
  pub source : MarketSource
  pub source_event_id : Option String
  pub category : Option String
  pub slug : String

pub record Market : Type 0 where
  pub id : ℕ
  pub question : String
  pub slug : String
  pub resolution_criteria : String
  pub category : Option String
  pub source : MarketSource
  pub source_market_id : Option String
  pub condition_id : Option String
  pub polymarket_slug : Option String
  pub volume : ℕ
  pub volume_24hr : ℕ
  pub status : MarketStatus
  pub deadline : ℕ
  pub bet_count : ℕ
  pub closed_at : Option ℕ
  pub uma_resolved_at : Option ℕ
  pub group_id : Option ℕ
  pub group_item_title : Option String
  pub outcomes : List Outcome
  pub min_stake : Option ℕ
  pub max_stake : Option ℕ
  pub winning_outcome_id : Option ℕ
  pub resolution_source : Option ResolutionSource
  pub resolution_justification : Option String
  pub resolved_at : Option ℕ

-- A point of the price history of an outcome.
pub record OddsSnapshot : Type 0 where
  pub market_id : ℕ
  pub outcome_id : ℕ
  pub probability : ℕ
  pub snapshot_at : ℕ

-- A status text that live-bets may send; the last stands for any text that XPredict does not know.
pub data LiveStatus : Type 0 where
  pending won lost refunded voided unknown : LiveStatus

-- `LiveBetsBet`: a mirrored bet of the live-bets service.
pub record LiveBetsBet : Type 0 where
  pub bet_id : ℕ
  pub user_id : ℕ
  pub table_id : Option ℕ
  pub market_id : Option ℕ
  pub stake : ℕ
  pub status : LiveStatus

-- The payloads that the modelled services hand to `AuditService.record`.
pub data AuditEvent : Type 0 where
  settlement_resolved : ℕ → ℕ → String → ℕ → ℕ → ℕ → AuditEvent
  settlement_reversed : ℕ → String → ℕ → AuditEvent
  event_resolved : ℕ → ℕ → ℕ → List ℕ → String → AuditEvent
  event_voided event_reversed : ℕ → ℕ → List ℕ → String → AuditEvent
  market_created : ℕ → String → AuditEvent
  event_created : ℕ → String → ℕ → AuditEvent
  market_updated : ℕ → List String → AuditEvent
  market_closed : ℕ → AuditEvent

-- `actor` is the admin, or `none` for "system".
pub record AuditRow : Type 0 where
  pub actor : Option ℕ
  pub event : AuditEvent

-- A row that a SELECT … FOR UPDATE locked.
pub data RowLock : Type 0 where
  bet_row account_row : ℕ → RowLock

-- The committed tables as a session sees them. `next_id` is the next value that `uuid4` draws,
-- and `locks` the row locks of the current unit of work, in the order in which they were taken.
pub record Db : Type 0 where
  pub accounts : List Account
  pub transfers : List Transfer
  pub entries : List Entry
  pub bets : List Bet
  pub groups : List MarketGroup
  pub markets : List Market
  pub odds_snapshots : List OddsSnapshot
  pub livebets_bets : List LiveBetsBet
  pub audit_log : List AuditRow
  pub next_id : ℕ
  pub locks : List RowLock
